-- ===== src/Cube/AggregationGroup/Tree.antt =====
-- Which cuboids are on the tree of a group, and where a cuboid is translated to.
use husky_kylin.Prelude.{
  ℕ, ◌^◌, ◌<◌, ◌≡◌, ◌↔◌, ◌⊎◌, inl, inr, arith, bit_and, bit_or, ◌==◌, true, Bool-cases, ==_iff,
  ⊎_elim,
}
use husky_kylin.Word.{not_64}
use husky_kylin.Word.Shift.{bit_or-lt}
use husky_kylin.Word.Mask.{
  Sub, Sub-trans, Sub-le, Sub-bit_or_left, Sub-bit_or_right, bit_or-Sub, bit_and-eq_iff,
  bit_and-not_64-eq-zero_iff,
}
use husky_kylin.Cube.AggregationGroup.{
  AggregationGroup, is_on_tree, check_mandatory_columns, translate_to_on_tree_cuboid,
}

-- The masks are words, and the mandatory dimensions are among those that the group includes.
pub record IsGroup (agg : AggregationGroup) : Type 0 where
  pub full_word : agg.partial_cube_full_mask < 2 ^ 64
  pub mandatory_in_full : Sub agg.mandatory_column_mask agg.partial_cube_full_mask

pub mandatory-lt : (agg : AggregationGroup) → IsGroup agg → agg.mandatory_column_mask < 2 ^ 64
mandatory-lt agg g = omega (arith, g.full_word, Sub-le g.mandatory_in_full)

-- A cuboid is on the tree exactly if it has a dimension, all its dimensions are included, it has
-- the mandatory ones, and it is the base cuboid, or has another dimension, or the group allows
-- cuboids of mandatory dimensions alone.
pub is_on_tree_iff :
    (base : ℕ) (agg : AggregationGroup) (c : ℕ)
    → IsGroup agg
    → c < 2 ^ 64
    → (is_on_tree base agg c ≡ true) ↔ (
        (0 < c)
        × Sub c agg.partial_cube_full_mask
        × Sub agg.mandatory_column_mask c
        × ((c ≡ base) ⊎ (agg.is_mandatory_only_valid ≡ true) ⊎ ¬ (Sub c agg.mandatory_column_mask)))
unfolding is_on_tree check_mandatory_columns
is_on_tree_iff base agg c g h =
    let full = bit_and-not_64-eq-zero_iff c agg.partial_cube_full_mask h g.full_word in
    let others = bit_and-not_64-eq-zero_iff c agg.mandatory_column_mask h (mandatory-lt agg g) in
    let mandatory = bit_and-eq_iff c agg.mandatory_column_mask in
    ground (arith, full, others, mandatory)

-- A cuboid that the group does not include is translated to 0. Any other one is given the mandatory
-- dimensions.
pub translate_to_on_tree_cuboid_lem :
    (agg : AggregationGroup) (c : ℕ)
    → IsGroup agg
    → c < 2 ^ 64
    → (¬ (Sub c agg.partial_cube_full_mask) × (translate_to_on_tree_cuboid agg c ≡ 0))
      ⊎ (Sub c agg.partial_cube_full_mask
          × (translate_to_on_tree_cuboid agg c ≡ bit_or c agg.mandatory_column_mask))
unfolding translate_to_on_tree_cuboid
translate_to_on_tree_cuboid_lem agg c g h =
    let full = bit_and-not_64-eq-zero_iff c agg.partial_cube_full_mask h g.full_word in
    elim (Bool-cases (bit_and c (not_64 agg.partial_cube_full_mask) == 0)) [
      | inl e ↦ inr (full.0 ((==_iff _ 0).0 e), ground arith)
      | inr e ↦ inl ((λ s. cc ((==_iff _ 0).1 (full.1 s), e)), ground arith)
    ]

-- If the group allows cuboids of mandatory dimensions alone, which is the default, then a cuboid
-- that it includes is translated to one that is on the tree, and to the least such: any on-tree
-- cuboid `d` with the dimensions of `c` has those of the translation.
pub translate_to_on_tree_cuboid_least :
    (base : ℕ) (agg : AggregationGroup) (c d : ℕ)
    → IsGroup agg
    → agg.is_mandatory_only_valid ≡ true
    → 0 < c
    → d < 2 ^ 64
    → is_on_tree base agg d ≡ true
    → Sub c d
    → (is_on_tree base agg (translate_to_on_tree_cuboid agg c) ≡ true)
      × Sub c (translate_to_on_tree_cuboid agg c)
      × Sub (translate_to_on_tree_cuboid agg c) d
translate_to_on_tree_cuboid_least base agg c d g alone pos word on above =
    let (_, included, has, _) = (is_on_tree_iff base agg d g word).0 on in
    let c_word : c < 2 ^ 64 = omega (arith, Sub-le above) in
    let c_in = Sub-trans above included in
    let m = agg.mandatory_column_mask in
    let result : translate_to_on_tree_cuboid agg c ≡ bit_or c m =
      ⊎_elim (λ no. absurd (no.0 c_in)) (λ yes'. yes'.1)
        (translate_to_on_tree_cuboid_lem agg c g c_word) in
    rw result (
      (is_on_tree_iff base agg (bit_or c m) g (bit_or-lt 64 c m c_word (mandatory-lt agg g))).1 (
        omega (arith, Sub-le (Sub-bit_or_left c m)),
        bit_or-Sub c_in g.mandatory_in_full,
        Sub-bit_or_right c m,
        inr (inl alone),
      ),
      Sub-bit_or_left c m,
      bit_or-Sub above has,
    )
