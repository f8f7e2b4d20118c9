-- ===== src/Cube/Scheduler/Exists.antt =====
-- When `get_on_tree_parents` is empty.
use husky_kylin.Prelude.{
  ℕ, zero, suc, ◌+◌, ◌^◌, ◌≤◌, ◌<◌, ◌≡◌, ◌≢◌, inl, inr, arith, refl, bit_and, bit_or, ◌==◌, true,
  false, Bool-cases, ==_iff, List, [], ◌∷◌, ap, ◌∙◌, subst, lt_or_ge, eq_or_ne,
}
use husky_kylin.Collections.All.{All}
use husky_kylin.Collections.Sets.{insert, insert_all}
use husky_kylin.Word.{not_64}
use husky_kylin.Word.Digit.{bit, bit-le-one, bit-bit_and, bit-pow_self, bit-high}
use husky_kylin.Word.Mask.{
  Sub, Sub-trans, Sub-refl, Sub-antisymm, bit_and-eq_iff, bit_or-Sub, bit-not_64_low,
  Sub-bit_or_right,
}
use husky_kylin.Cube.AggregationGroup.{AggregationGroup, is_on_tree}
use husky_kylin.Cube.AggregationGroup.Tree.{is_on_tree_iff, mandatory-lt}
use husky_kylin.Cube.AggregationGroup.Dims.{powers_from}
use husky_kylin.Cube.Desc.{CubeDesc}
use husky_kylin.Cube.Scheduler.{
  fill_bit, fill_dims, parents_in_group, parents_loop, parents_in_groups, groups_of,
  get_on_tree_parents, base_cuboid_id,
}
use husky_kylin.Cube.Scheduler.Parents.{IsGroupOf, normal_mask}
use husky_kylin.Cube.Scheduler.Family.{any_on_tree, IsCube}

insert-ne-nil : (x : ℕ) (s : List ℕ) → insert x s ≢ []
unfolding insert
insert-ne-nil x [] h = cc
insert-ne-nil x (y ∷ ys) h = ground arith

insert_all-eq-nil : (xs s : List ℕ) → insert_all xs s ≡ [] → (xs ≡ []) × (s ≡ [])
unfolding insert_all
insert_all-eq-nil [] s h = (refl, h)
insert_all-eq-nil (x ∷ xs) s h = absurd (insert-ne-nil x s (insert_all-eq-nil xs (insert x s) h).1)

-- If nothing was filled in, every dimension was there.
fill_dims-eq-nil :
    (origin : ℕ) (ns collection : List ℕ)
    → fill_dims origin ns collection ≡ []
    → All (λ n. bit_and origin n ≡ n) ns × (collection ≡ [])
unfolding fill_dims fill_bit
fill_dims-eq-nil origin [] collection h = (tt, h)
fill_dims-eq-nil origin (n ∷ ns) collection h = elim (Bool-cases (bit_and origin n == n)) [
  | inl there ↦
      let (rest, none_before) =
        fill_dims-eq-nil origin ns collection (rw (there, fill_dims) at h) in
      (((==_iff (bit_and origin n) n).0 there, rest), none_before)
  | inr missing ↦ absurd (
      insert-ne-nil (bit_or origin n) collection
        (fill_dims-eq-nil origin ns (insert (bit_or origin n) collection)
          (rw (missing, fill_dims) at h)).1)
]

powers_from-All :
    (P : ℕ → Type 0) (x left i j : ℕ)
    → All P (powers_from x i left)
    → i ≤ j
    → j < i + left
    → bit x j ≡ 1
    → P (2 ^ j)
unfolding powers_from
powers_from-All P x zero i j all lo hi one = absurd (omega arith)
powers_from-All P x (suc left) i j all lo hi one = elim (eq_or_ne i j) [
  | inl e ↦
      let there : (bit x i == 1) ≡ true = (==_iff (bit x i) 1).1 (ap (bit x) e ∙ one) in
      let both : All P (2 ^ i ∷ powers_from x (suc i) left) = rw there at all in
      subst (λ k. P (2 ^ k)) e both.0
  | inr ne ↦ elim (Bool-cases (bit x i == 1)) [
    | inl there ↦
        let both : All P (2 ^ i ∷ powers_from x (suc i) left) = rw there at all in
        powers_from-All P x left (suc i) j both.1 (omega (arith, ne)) (omega arith) one
    | inr none_there ↦
        powers_from-All P x left (suc i) j (rw none_there at all) (omega (arith, ne)) (omega arith)
          one
  ]
]

module _ (base : ℕ) (agg : AggregationGroup) (g : IsGroupOf base agg) where
  full_of_dims :
      (origin : ℕ)
      → Sub agg.mandatory_column_mask origin
      → All (λ n. bit_and origin n ≡ n) agg.normal_dims
      → Sub agg.partial_cube_full_mask origin
  full_of_dims origin has dims = record {
    digit = λ i. elim (lt_or_ge i 64) [
      | inr high ↦ omega (arith, bit-high 64 agg.partial_cube_full_mask i g.group.full_word high)
      | inl low ↦ elim (eq_or_ne (bit (normal_mask agg) i) 1) [
        | inl normal ↦
            let powers = subst (All (λ n. bit_and origin n ≡ n)) g.dims dims in
            let there : bit_and origin (2 ^ i) ≡ 2 ^ i =
              powers_from-All (λ n. bit_and origin n ≡ n) (normal_mask agg) 64 0 i powers
                (omega arith) (omega arith) normal in
            let sub : Sub (2 ^ i) origin = (bit_and-eq_iff origin (2 ^ i)).0 there in
            omega (arith, sub.digit i, bit-pow_self i, bit-le-one agg.partial_cube_full_mask i)
        | inr other ↦ omega (
          arith,
          has.digit i,
          bit-bit_and agg.partial_cube_full_mask (not_64 agg.mandatory_column_mask) i,
          bit-not_64_low agg.mandatory_column_mask i (mandatory-lt agg g.group) low,
          bit-le-one agg.partial_cube_full_mask i,
          bit-le-one agg.mandatory_column_mask i,
          bit-le-one (normal_mask agg) i,
          other,
        )
      ]
    ];
  }

  -- A cuboid on the tree of the group that is not its full cuboid has a parent there.
  parents_in_group-ne-nil :
      (child : ℕ)
      → child < 2 ^ 64
      → is_on_tree base agg child ≡ true
      → child ≢ agg.partial_cube_full_mask
      → parents_in_group child agg ≢ []
  unfolding parents_in_group fill_bit
  parents_in_group-ne-nil child word on ne h =
      let (_, inside, has, _) = (is_on_tree_iff base agg child g.group word).0 on in
      let m = agg.mandatory_column_mask in
      let all_there : (origin : ℕ)
          → Sub m origin
          → Sub origin child
          → fill_dims origin agg.normal_dims [] ≡ []
          → ⊥ =
        λ origin has_o sub empty. ne (
          Sub-antisymm child agg.partial_cube_full_mask inside (
            Sub-trans
              (full_of_dims origin has_o (fill_dims-eq-nil origin agg.normal_dims [] empty).0)
              sub)) in
      let notfull : (child == agg.partial_cube_full_mask) ≡ false = ground arith in
      let has_it : (bit_and child m == m) ≡ true =
        (==_iff (bit_and child m) m).1 ((bit_and-eq_iff child m).1 has) in
      elim (Bool-cases (m == 0)) [
        | inl none_needed ↦
            all_there child has (Sub-refl child)
              (simp (parents_in_group, notfull, none_needed) at h)
        | inr some_needed ↦ elim (Bool-cases agg.is_mandatory_only_valid) [
          | inl alone ↦
              all_there child has (Sub-refl child)
                (simp (parents_in_group, fill_bit, notfull, some_needed, alone, has_it) at h)
          | inr others ↦
              all_there (bit_or child m) (Sub-bit_or_right child m)
                (bit_or-Sub (Sub-refl child) has)
                (simp (parents_in_group, notfull, some_needed, others) at h)
        ]
      ]

-- If the loop found nothing, no group has a parent, and none has the child as its full cuboid.
parents_loop-eq-nil :
    (base child : ℕ) (gs : List AggregationGroup) (candidates : List ℕ)
    → parents_loop base child gs candidates ≡ []
    → All (λ agg. (child ≢ agg.partial_cube_full_mask) × (parents_in_group child agg ≡ [])) gs
      × (candidates ≡ [])
unfolding parents_loop
parents_loop-eq-nil base child [] candidates h = (tt, h)
parents_loop-eq-nil base child (agg ∷ rest) candidates h =
    elim (Bool-cases (child == agg.partial_cube_full_mask)) [
      | inl full ↦ absurd (insert-ne-nil base candidates (simp full at h))
      | inr other ↦
          let (later, made) =
            parents_loop-eq-nil base child rest (insert_all (parents_in_group child agg) candidates)
              (simp other at h) in
          let (here, before) = insert_all-eq-nil (parents_in_group child agg) candidates made in
          (((λ e. cc (other, (==_iff child agg.partial_cube_full_mask).1 e), here), later), before)
    ]

groups_of-parents :
    (base child : ℕ) (gs : List AggregationGroup)
    → child < 2 ^ 64
    → All (IsGroupOf base) gs
    → any_on_tree base gs child ≡ true
    → All
        (λ agg. (child ≢ agg.partial_cube_full_mask) × (parents_in_group child agg ≡ []))
        (groups_of base child gs)
    → ⊥
unfolding any_on_tree groups_of
groups_of-parents base child [] word g on all = cc
groups_of-parents base child (agg ∷ rest) word (g, gs) on all =
    elim (Bool-cases (is_on_tree base agg child)) [
      | inl here ↦
          let both : All _ (agg ∷ groups_of base child rest) = rw here at all in
          parents_in_group-ne-nil base agg g child word here both.0.0 both.0.1
      | inr off ↦ groups_of-parents base child rest word gs (rw off at on) (rw off at all)
    ]

-- A cuboid on the tree of some group that is not the base cuboid has a parent.
pub get_on_tree_parents-ne-nil :
    (d : CubeDesc) (child : ℕ)
    → IsCube d
    → child < 2 ^ 64
    → child ≢ base_cuboid_id d
    → any_on_tree (base_cuboid_id d) d.aggregation_groups child ≡ true
    → get_on_tree_parents d child ≢ []
unfolding get_on_tree_parents parents_in_groups
get_on_tree_parents-ne-nil d child cube word ne on h =
    let other : (child == base_cuboid_id d) ≡ false = ground arith in
    groups_of-parents (base_cuboid_id d) child d.aggregation_groups word cube.groups on
      (parents_loop-eq-nil (base_cuboid_id d) child
        (groups_of (base_cuboid_id d) child d.aggregation_groups) [] (simp other at h)).0
