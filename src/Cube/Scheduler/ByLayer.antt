-- ===== src/Cube/Scheduler/ByLayer.antt =====
-- `get_on_tree_parents_by_layer`: which parents of a layer it keeps.
use husky_kylin.Prelude.{
  ℕ, ◌^◌, ◌<◌, ◌≡◌, inl, inr, arith, refl, ◌==◌, Bool, true, ◌||◌, ◌&&◌, Bool-cases, ==_iff, List,
  [], ◌∷◌, if◌then◌else◌, ◌∙◌, subst,
}
use husky_kylin.Collections.All
use husky_kylin.Collections.All.{All}
use husky_kylin.Collections.Sets.{
  insert, insert_all, contains, contains-insert, contains-insert_all, contains-cons,
  insert-IsAscending, IsAscending,
}
use husky_kylin.Cube.AggregationGroup.{AggregationGroup, is_on_tree}
use husky_kylin.Cube.Desc.{CubeDesc}
use husky_kylin.Cube.Scheduler.{
  keep_candidate, keep_candidates, check_dim_cap, parents_of_all, get_on_tree_parents,
  get_on_tree_parents_by_layer, base_cuboid_id,
}
use husky_kylin.Cube.Scheduler.Family.{any_on_tree, IsCube, Parent, get_on_tree_parents-All}

-- The candidate is added exactly if some group has it on its tree.
contains-keep_candidate :
    (base y c : ℕ) (gs : List AggregationGroup) (ret : List ℕ)
    → contains y (keep_candidate base gs c ret)
      ≡ (contains y ret || (y == c && any_on_tree base gs c))
unfolding keep_candidate any_on_tree check_dim_cap
contains-keep_candidate base y c [] ret = ground arith
contains-keep_candidate base y c (agg ∷ rest) ret = ground (
  arith,
  contains-keep_candidate base y c rest ret,
  contains-keep_candidate base y c rest (insert c ret),
  contains-insert y c ret,
)

abbrev kept : ℕ → List AggregationGroup → ℕ → Bool
kept base gs c = c == base || any_on_tree base gs c

contains_kept :
    (base y c : ℕ) (gs : List AggregationGroup) (ret : List ℕ)
    → contains y (keep_candidate base gs c (if c == base then insert c ret else ret))
      ≡ (contains y ret || (y == c && kept base gs c))
contains_kept base y c gs ret = elim (Bool-cases (c == base)) [
  | inl e ↦ rw (e, contains-keep_candidate) (ground (arith, contains-insert y c ret))
  | inr ne ↦ rw (ne, contains-keep_candidate) refl
]

-- Of the candidates, those are kept that are the base cuboid or on the tree of a group.
contains-keep_candidates :
    (base y : ℕ) (gs : List AggregationGroup) (cs ret : List ℕ)
    → contains y (keep_candidates base gs cs ret)
      ≡ (contains y ret || (contains y cs && kept base gs y))
unfolding keep_candidates contains
contains-keep_candidates base y gs [] ret = ground arith
contains-keep_candidates base y gs (c ∷ cs) ret =
    contains-keep_candidates base y gs cs
      (keep_candidate base gs c (if c == base then insert c ret else ret))
    ∙ rw contains_kept (elim (Bool-cases (y == c)) [
      | inl e ↦ rw ((==_iff y c).0 e) (ground arith)
      | inr ne ↦ rw ne (ground arith)
    ])

keep_candidate-IsAscending :
    (base c : ℕ) (gs : List AggregationGroup) (ret : List ℕ)
    → IsAscending ret
    → IsAscending (keep_candidate base gs c ret)
unfolding keep_candidate
keep_candidate-IsAscending base c [] ret a = a
keep_candidate-IsAscending base c (agg ∷ rest) ret a =
    elim (Bool-cases (is_on_tree base agg c && check_dim_cap agg c)) [
      | inl on ↦
          rw on (keep_candidate-IsAscending base c rest (insert c ret) (insert-IsAscending c ret a))
      | inr off ↦ rw off (keep_candidate-IsAscending base c rest ret a)
    ]

module _ (d : CubeDesc) where
  parents_of_all-keeps :
      (p : ℕ) (cs parents : List ℕ)
      → contains p parents ≡ true
      → contains p (parents_of_all d cs parents) ≡ true
  unfolding parents_of_all
  parents_of_all-keeps p [] parents h = h
  parents_of_all-keeps p (c ∷ cs) parents h =
      parents_of_all-keeps p cs (insert_all (get_on_tree_parents d c) parents)
        (ground (arith, contains-insert_all p (get_on_tree_parents d c) parents))

  contains-parents_of_all :
      (p c : ℕ) (cs parents : List ℕ)
      → contains c cs ≡ true
      → contains p (get_on_tree_parents d c) ≡ true
      → contains p (parents_of_all d cs parents) ≡ true
  unfolding parents_of_all
  contains-parents_of_all p c [] parents h hp = unfold contains in cc h
  contains-parents_of_all p c (x ∷ cs) parents h hp = elim (contains-cons c x cs h) [
    | inl e ↦ parents_of_all-keeps p cs (insert_all (get_on_tree_parents d x) parents) (
        contains-insert_all p (get_on_tree_parents d x) parents
        ∙ (let hx = subst (λ k. contains p (get_on_tree_parents d k) ≡ true) e hp in rw hx refl))
    | inr later ↦
        contains-parents_of_all p c cs (insert_all (get_on_tree_parents d x) parents) later hp
  ]

  All-parents_of_all :
      (P : ℕ → Type 0) (cs parents : List ℕ)
      → All (λ c. All P (get_on_tree_parents d c)) cs
      → All P parents
      → All P (parents_of_all d cs parents)
  unfolding parents_of_all
  All-parents_of_all P [] parents a b = b
  All-parents_of_all P (c ∷ cs) parents (p, a) b =
      All-parents_of_all P cs (insert_all (get_on_tree_parents d c) parents) a
        (All.All-insert_all P (get_on_tree_parents d c) parents p b)

module _ (d : CubeDesc) (cube : IsCube d) where
  kept_of_Parent :
      (c p : ℕ) → Parent d cube c p → kept (base_cuboid_id d) d.aggregation_groups p ≡ true
  kept_of_Parent c p parent = elim parent.kept [
    | inl e ↦
        let same : (p == base_cuboid_id d) ≡ true = (==_iff p (base_cuboid_id d)).1 e in
        rw same refl
    | inr on ↦ rw on (ground arith)
  ]

  -- Each parent of a cuboid of the layer is in the next one.
  pub contains-get_on_tree_parents_by_layer :
      (p c : ℕ) (cs : List ℕ)
      → c < 2 ^ 64
      → contains c cs ≡ true
      → contains p (get_on_tree_parents d c) ≡ true
      → contains p (get_on_tree_parents_by_layer d cs) ≡ true
  unfolding get_on_tree_parents_by_layer contains
  contains-get_on_tree_parents_by_layer p c cs word hc hp =
      let parent =
        All.All-contains (Parent d cube c) p (get_on_tree_parents d c)
          (get_on_tree_parents-All d cube c word) hp in
      contains-keep_candidates (base_cuboid_id d) p d.aggregation_groups (parents_of_all d cs []) []
      ∙ rw (contains-parents_of_all d p c cs [] hc hp, kept_of_Parent c p parent) refl

-- Nothing else is in the next layer.
pub All-get_on_tree_parents_by_layer :
    (d : CubeDesc) (P : ℕ → Type 0) (cs : List ℕ)
    → All (λ c. All P (get_on_tree_parents d c)) cs
    → All P (get_on_tree_parents_by_layer d cs)
unfolding get_on_tree_parents_by_layer contains
All-get_on_tree_parents_by_layer d P cs a = All.All-of_contains P _ λ y h.
    All.All-contains P y (parents_of_all d cs []) (All-parents_of_all d P cs [] a tt) (
      let e =
        contains-keep_candidates (base_cuboid_id d) y d.aggregation_groups (parents_of_all d cs [])
          [] in
      ground arith)
