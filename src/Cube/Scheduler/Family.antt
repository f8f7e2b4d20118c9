-- ===== src/Cube/Scheduler/Family.antt =====
-- All parents of a cuboid, over the groups that it is on the tree of.
use husky_kylin.Prelude.{
  ℕ, ◌^◌, ◌<◌, ◌≡◌, ◌≢◌, ◌⊎◌, inl, inr, arith, refl, ◌==◌, Bool, true, false, ◌||◌, Bool-cases,
  ==_iff, List, [], ◌∷◌,
}
use husky_kylin.Collections.All
use husky_kylin.Collections.All.{All}
use husky_kylin.Collections.Sets.{insert_all}
use husky_kylin.Word.Mask.{Sub, Sub-refl, Sub-trans, Sub-zero}
use husky_kylin.Cube.AggregationGroup.{AggregationGroup, is_on_tree}
use husky_kylin.Cube.AggregationGroup.Tree.{is_on_tree_iff}
use husky_kylin.Cube.Desc.{CubeDesc}
use husky_kylin.Cube.Scheduler.{
  parents_in_group, parents_loop, parents_in_groups, groups_of, get_on_tree_parents,
  get_lowest_cuboids, base_cuboid_id,
}
use husky_kylin.Cube.Scheduler.Parents.{IsGroupOf, IsGroupParent, parents_in_group-All}

-- The cuboid is on the tree of one of the groups.
unfoldable pub any_on_tree : ℕ → List AggregationGroup → ℕ → Bool
any_on_tree base [] c = false
any_on_tree base (agg ∷ rest) c = is_on_tree base agg c || any_on_tree base rest c

-- A strict superset of `child` that is the base cuboid or on the tree of a group.
pub record IsParent (base : ℕ) (groups : List AggregationGroup) (child p : ℕ) : Type 0 where
  pub above : Sub child p
  pub strict : child ≢ p
  pub inside : Sub p base
  pub kept : (p ≡ base) ⊎ (any_on_tree base groups p ≡ true)

pub record IsCube (d : CubeDesc) : Type 0 where
  pub word : base_cuboid_id d < 2 ^ 64
  pub pos : 0 < base_cuboid_id d
  pub groups : All (IsGroupOf (base_cuboid_id d)) d.aggregation_groups

module _ (base : ℕ) (groups : List AggregationGroup) where
  -- A group of the list that includes the dimensions of `child`.
  record IsUsable (child : ℕ) (agg : AggregationGroup) : Type 0 where
    group : IsGroupOf base agg
    inside : Sub child agg.partial_cube_full_mask
    listed : (c : ℕ) → is_on_tree base agg c ≡ true → any_on_tree base groups c ≡ true

  parents_loop-All :
      (child : ℕ) (gs : List AggregationGroup) (candidates : List ℕ)
      → child ≢ base
      → All (IsUsable child) gs
      → All (IsParent base groups child) candidates
      → All (IsParent base groups child) (parents_loop base child gs candidates)
  unfolding parents_loop
  parents_loop-All child [] candidates ne usable done = done
  parents_loop-All child (agg ∷ rest) candidates ne (u, us) done =
      elim (Bool-cases (child == agg.partial_cube_full_mask)) [
        | inl full ↦ simp full (
            All.All-insert (IsParent base groups child) base candidates
              (record {
                above = Sub-trans u.inside u.group.included;
                strict = ne;
                inside = Sub-refl base;
                kept = inl refl;
              })
              done)
        | inr other ↦ simp other (
            parents_loop-All child rest (insert_all (parents_in_group child agg) candidates) ne us (
              All.All-insert_all (IsParent base groups child) (parents_in_group child agg)
                candidates
                (All.All-map (IsGroupParent base agg child) (IsParent base groups child)
                  (parents_in_group child agg)
                  (λ p gp. record {
                    above = gp.above;
                    strict = gp.strict;
                    inside = Sub-trans gp.inside u.group.included;
                    kept = inr (u.listed p gp.on_tree);
                  })
                  (parents_in_group-All base agg u.group child u.inside))
                done))
      ]

  parents_in_groups-All :
      (child : ℕ) (gs : List AggregationGroup)
      → All (IsUsable child) gs
      → All (IsParent base groups child) (parents_in_groups base child gs)
  unfolding parents_in_groups
  parents_in_groups-All child gs usable = elim (Bool-cases (child == base)) [
    | inl e ↦ rw e tt
    | inr ne ↦
        rw ne (parents_loop-All child gs [] (λ e. cc (ne, (==_iff child base).1 e)) usable tt)
  ]

-- Every group of a list is listed.
All-listed :
    (base : ℕ) (groups : List AggregationGroup)
    → All (λ agg. (c : ℕ) → is_on_tree base agg c ≡ true → any_on_tree base groups c ≡ true) groups
unfolding any_on_tree
All-listed base [] = tt
All-listed base (agg ∷ rest) = (
  λ c on. ground arith,
  All.All-map (λ a. (c : ℕ) → is_on_tree base a c ≡ true → any_on_tree base rest c ≡ true)
      (λ a. (c : ℕ) → is_on_tree base a c ≡ true → any_on_tree base (agg ∷ rest) c ≡ true) rest
      (λ a h c on. let later = h c on in ground arith) (All-listed base rest),
)

IsUsable-where :
    (base : ℕ) (groups gs : List AggregationGroup) (child : ℕ)
    → All (IsGroupOf base) gs
    → All (λ agg. (c : ℕ) → is_on_tree base agg c ≡ true → any_on_tree base groups c ≡ true) gs
    → child < 2 ^ 64
    → All (IsUsable base groups child) (groups_of base child gs)
unfolding groups_of
IsUsable-where base groups [] child gs listed word = tt
IsUsable-where base groups (agg ∷ rest) child (g, gs) (l, ls) word =
    let others = IsUsable-where base groups rest child gs ls word in
    elim (Bool-cases (is_on_tree base agg child)) [
      | inl on ↦ rw on (
        record {
          group = g;
          inside = ((is_on_tree_iff base agg child g.group word).0 on).1;
          listed = l;
        },
        others,
      )
      | inr off ↦ rw off others
    ]

IsUsable-zero :
    (base : ℕ) (groups gs : List AggregationGroup)
    → All (IsGroupOf base) gs
    → All (λ agg. (c : ℕ) → is_on_tree base agg c ≡ true → any_on_tree base groups c ≡ true) gs
    → All (IsUsable base groups 0) gs
IsUsable-zero base groups [] gs listed = tt
IsUsable-zero base groups (agg ∷ rest) (g, gs) (l, ls) = (
  record { group = g; inside = Sub-zero agg.partial_cube_full_mask; listed = l },
  IsUsable-zero base groups rest gs ls,
)

module _ (d : CubeDesc) (cube : IsCube d) where
  abbrev pub Parent : ℕ → ℕ → Type 0
  Parent = IsParent (base_cuboid_id d) d.aggregation_groups

  -- The parents of a cuboid are strict supersets that belong to the tree.
  pub get_on_tree_parents-All :
      (child : ℕ) → child < 2 ^ 64 → All (Parent child) (get_on_tree_parents d child)
  unfolding get_on_tree_parents
  get_on_tree_parents-All child word =
      parents_in_groups-All (base_cuboid_id d) d.aggregation_groups child _ (
        IsUsable-where (base_cuboid_id d) d.aggregation_groups d.aggregation_groups child
          cube.groups (All-listed (base_cuboid_id d) d.aggregation_groups) word)

  -- So are the lowest cuboids, as the parents of the empty one.
  pub get_lowest_cuboids-All : All (Parent 0) (get_lowest_cuboids d)
  unfolding get_lowest_cuboids
  get_lowest_cuboids-All =
      parents_in_groups-All (base_cuboid_id d) d.aggregation_groups 0 d.aggregation_groups (
        IsUsable-zero (base_cuboid_id d) d.aggregation_groups d.aggregation_groups cube.groups
          (All-listed (base_cuboid_id d) d.aggregation_groups))
