-- ===== src/Cube/Scheduler/Miss.antt =====
-- The requests that `find_best_match_cuboid` does not answer.
use husky_kylin.Prelude.{
  ℕ, ◌^◌, ◌<◌, ◌≡◌, inl, inr, ⊎_elim, arith, refl, ◌==◌, true, false, Bool-cases, eq_or_ne, List,
  [], ◌∷◌, if◌then◌else◌, sym, subst,
}
use husky_kylin.Word.Mask.{Sub, Sub-zero}
use husky_kylin.Word.Shift.{bit_or-lt}
use husky_kylin.Utils.Bits.Count.{bit_count_lem, ones_below_strict, ones_below-zero}
use husky_kylin.Collections.All
use husky_kylin.Collections.All.{All}
use husky_kylin.Collections.Sets.{
  contains, contains-cons, contains-nil, contains-head, contains-tail,
}
use husky_kylin.Cube.AggregationGroup.{AggregationGroup, is_on_tree, translate_to_on_tree_cuboid}
use husky_kylin.Cube.AggregationGroup.Tree.{mandatory-lt, translate_to_on_tree_cuboid_lem}
use husky_kylin.Cube.Cuboid.{cuboid_select_comparator}
use husky_kylin.Cube.Desc.{CubeDesc}
use husky_kylin.Cube.Scheduler.{
  CuboidScheduler, Search, matched, threw, base_cuboid_id, groups_of, parents_in_groups,
  parents_loop, get_on_tree_parents, get_on_tree_parent, min_element, is_valid, on_tree_candidates,
  find_valid_loop, do_find_best_match_cuboid1, find_best_match_cuboid,
}
use husky_kylin.Cube.Scheduler.Parents.{IsGroupOf}
use husky_kylin.Cube.Scheduler.Family.{IsCube}
use husky_kylin.Cube.Scheduler.Layers.{IsMember}
use husky_kylin.Cube.Scheduler.Build.{IsTreeSet}

-- The translation of a request that a group does not include is 0, which is the least candidate.
min_element_zero : (xs : List ℕ) → min_element 0 xs ≡ 0
unfolding min_element cuboid_select_comparator
min_element_zero [] = refl
min_element_zero (x ∷ xs) =
    let worse : cuboid_select_comparator x 0 ≡ false =
      let none_set = bit_count_lem 0 (omega arith) in
      let zero' = ones_below-zero 64 in ground arith in
    rw worse (min_element_zero xs)

zero_better : (x : ℕ) → x < 2 ^ 64 → 0 < x → cuboid_select_comparator 0 x ≡ true
unfolding cuboid_select_comparator
zero_better x word pos =
    let more = ones_below_strict 0 x word (Sub-zero x) (λ e. omega (arith, e)) in
    let low = bit_count_lem 0 (omega arith) in let high = bit_count_lem x word in ground arith

min_element-zero :
    (best : ℕ) (xs : List ℕ)
    → All (λ x. x < 2 ^ 64) (best ∷ xs)
    → contains 0 (best ∷ xs) ≡ true
    → min_element best xs ≡ 0
unfolding min_element
min_element-zero best [] (w, ws) there = elim (contains-cons 0 best [] there) [
  | inl e ↦ sym e
  | inr h ↦ absurd (contains-nil 0 h)
]
min_element-zero best (x ∷ xs) (w, (wx, ws)) there = elim (contains-cons 0 best (x ∷ xs) there) [
  | inl e ↦ subst (λ b. min_element b (x ∷ xs) ≡ 0) e (min_element_zero (x ∷ xs))
  | inr later ↦ elim (eq_or_ne best 0) [
    | inl e ↦ subst (λ b. min_element b (x ∷ xs) ≡ 0) (sym e) (min_element_zero (x ∷ xs))
    | inr ne ↦ elim (contains-cons 0 x xs later) [
      | inl e ↦
          let better : cuboid_select_comparator x best ≡ true =
            subst (λ y. cuboid_select_comparator y best ≡ true) e
              (zero_better best w (omega (arith, ne))) in
          rw better (subst (λ y. min_element y xs ≡ 0) e (min_element_zero xs))
      | inr inside ↦ elim (Bool-cases (cuboid_select_comparator x best)) [
        | inl better ↦ rw better (min_element-zero x xs (wx, ws) (contains-tail 0 x xs inside))
        | inr worse ↦ rw worse (min_element-zero best xs (w, ws) (contains-tail 0 best xs inside))
      ]
    ]
  ]
]

zero_on_no_tree : (base : ℕ) (gs : List AggregationGroup) → groups_of base 0 gs ≡ []
unfolding groups_of is_on_tree
zero_on_no_tree base [] = refl
zero_on_no_tree base (agg ∷ rest) = zero_on_no_tree base rest

zero-get_on_tree_parents : (d : CubeDesc) → get_on_tree_parents d 0 ≡ []
unfolding get_on_tree_parents parents_in_groups parents_loop
zero-get_on_tree_parents d =
    let none_on = zero_on_no_tree (base_cuboid_id d) d.aggregation_groups in
    elim (Bool-cases (0 == base_cuboid_id d)) [
      | inl same ↦ rw same refl
      | inr other ↦ rw (other, none_on) refl
    ]

zero_has_no_parent : (d : CubeDesc) → get_on_tree_parent d 0 ≡ 0
unfolding get_on_tree_parent
zero_has_no_parent d = rw (zero-get_on_tree_parents d, get_on_tree_parent) refl

candidates_words :
    (base c : ℕ) (gs : List AggregationGroup)
    → c < 2 ^ 64
    → All (IsGroupOf base) gs
    → All (λ x. x < 2 ^ 64) (on_tree_candidates gs c)
unfolding on_tree_candidates
candidates_words base c [] word g = tt
candidates_words base c (agg ∷ rest) word (g, gs) =
    let m = bit_or-lt 64 c agg.mandatory_column_mask word (mandatory-lt agg g.group) in
    (
      ⊎_elim (λ no. omega (arith, no.1)) (λ yes'. omega (arith, yes'.1, m))
          (translate_to_on_tree_cuboid_lem agg c g.group word),
      candidates_words base c rest word gs,
    )

zero_candidate :
    (base c : ℕ) (gs : List AggregationGroup)
    → c < 2 ^ 64
    → All (IsGroupOf base) gs
    → ¬ (All (λ agg. Sub c agg.partial_cube_full_mask) gs)
    → contains 0 (on_tree_candidates gs c) ≡ true
unfolding on_tree_candidates
zero_candidate base c [] word g missing = absurd (missing tt)
zero_candidate base c (agg ∷ rest) word (g, gs) missing =
    elim (translate_to_on_tree_cuboid_lem agg c g.group word) [
      | inl (excluded, e) ↦ rw e (contains-head 0 (on_tree_candidates rest c))
      | inr (here, e) ↦
          contains-tail 0 (translate_to_on_tree_cuboid agg c) (on_tree_candidates rest c)
            (zero_candidate base c rest word gs (λ all. missing (here, all)))
    ]

zero_not_valid :
    (d : CubeDesc) (s : CuboidScheduler) → IsTreeSet d s.all_cuboid_ids → is_valid s 0 ≡ false
unfolding is_valid
zero_not_valid d s t = elim (Bool-cases (contains 0 s.all_cuboid_ids)) [
  | inl there ↦
      let m = All.All-contains (IsMember d) 0 s.all_cuboid_ids t.members there in
      absurd (omega (arith, m.pos))
  | inr absent ↦ absent
]

zero_throws : (d : CubeDesc) (s : CuboidScheduler) → do_find_best_match_cuboid1 d s 0 ≡ threw
unfolding do_find_best_match_cuboid1 find_valid_loop
zero_throws d s = rw (zero_has_no_parent d) refl

-- On the set of a tree that was built, for a cube whose groups are as `init` leaves them: a request
-- that is a word, is not in the tree and is not included by every group, ends in the exception: the group
-- translates it to 0, which is the least candidate and has no parent, so that the loop ends at once
-- and the search throws, whatever the other groups include.
pub find_best_match_cuboid_throws :
    (d : CubeDesc) (s : CuboidScheduler) (c : ℕ)
    → IsCube d
    → IsTreeSet d s.all_cuboid_ids
    → c < 2 ^ 64
    → is_valid s c ≡ false
    → ¬ (All (λ agg. Sub c agg.partial_cube_full_mask) d.aggregation_groups)
    → find_best_match_cuboid d s c ≡ threw
unfolding find_best_match_cuboid
find_best_match_cuboid_throws d s c cube t word bad missing =
    let words = candidates_words (base_cuboid_id d) c d.aggregation_groups word cube.groups in
    let zero_there =
      zero_candidate (base_cuboid_id d) c d.aggregation_groups word cube.groups missing in
    rw bad (throws (on_tree_candidates d.aggregation_groups c) words zero_there)
  where
    throws :
        (xs : List ℕ)
        → All (λ x. x < 2 ^ 64) xs
        → contains 0 xs ≡ true
        → elim xs as (λ x. Search) [
          | [] ↦ matched (base_cuboid_id d)
          | first ∷ others ↦
              let best = min_element first others in
              if is_valid s best then matched best else do_find_best_match_cuboid1 d s best
        ]
          ≡ threw
    throws [] w there = absurd (contains-nil 0 there)
    throws (x ∷ xs) w there =
        rw (min_element-zero x xs w there, zero_not_valid d s t) (zero_throws d s)
