-- ===== src/Cube/Scheduler/Parents.antt =====
-- The parents of a cuboid within one group.
use husky_kylin.Prelude.{
  ℕ, zero, suc, ◌^◌, ◌<◌, ◌≡◌, ◌≢◌, inl, inr, arith, refl, bit_and, bit_or, ◌==◌, true, false,
  Bool-cases, ==_iff, List, [], ◌∷◌, lt_or_ge, ap, sym, subst,
}
use husky_kylin.Collections.All
use husky_kylin.Collections.All.{All}
use husky_kylin.Collections.Sets.{insert}
use husky_kylin.Word.{not_64}
use husky_kylin.Word.Digit.{bit, bit-le-one, bit-bit_and, bit-pow_self, bit-high}
use husky_kylin.Word.Mask.{
  Sub, Sub-refl, Sub-trans, Sub-le, Sub-zero, Sub-bit_or_left, Sub-bit_or_right, bit_or-Sub,
  bit_and-eq_iff, bit-not_64_low, Sub-pow,
}
use husky_kylin.Cube.AggregationGroup.{AggregationGroup, is_on_tree}
use husky_kylin.Cube.AggregationGroup.Tree.{IsGroup, mandatory-lt, is_on_tree_iff}
use husky_kylin.Cube.AggregationGroup.Dims.{powers_from}
use husky_kylin.Cube.Scheduler.{fill_bit, fill_dims, parents_in_group}

abbrev pub normal_mask : AggregationGroup → ℕ
normal_mask agg = bit_and agg.partial_cube_full_mask (not_64 agg.mandatory_column_mask)

-- A group as `AggregationGroup.init` leaves it, in a cube with this base cuboid.
pub record IsGroupOf (base : ℕ) (agg : AggregationGroup) : Type 0 where
  pub group : IsGroup agg
  pub included : Sub agg.partial_cube_full_mask base
  pub dims : agg.normal_dims ≡ powers_from (normal_mask agg) 0 64

-- One dimension that the group includes and that is not mandatory.
pub record IsNormal (agg : AggregationGroup) (n : ℕ) : Type 0 where
  pub index : ℕ
  pub power : n ≡ 2 ^ index
  pub included : bit agg.partial_cube_full_mask index ≡ 1
  pub optional : bit agg.mandatory_column_mask index ≡ 0

normal_digit :
    (agg : AggregationGroup) (i : ℕ)
    → IsGroup agg
    → bit (normal_mask agg) i ≡ 1
    → (bit agg.partial_cube_full_mask i ≡ 1) × (bit agg.mandatory_column_mask i ≡ 0)
normal_digit agg i g one = elim (lt_or_ge i 64) [
  | inl low ↦
      let split = bit-bit_and agg.partial_cube_full_mask (not_64 agg.mandatory_column_mask) i in
      let flipped = bit-not_64_low agg.mandatory_column_mask i (mandatory-lt agg g) low in
      let f = bit-le-one agg.partial_cube_full_mask i in
      let m = bit-le-one agg.mandatory_column_mask i in (omega arith, omega arith)
  | inr high ↦ absurd (
      omega (
        arith,
        bit-bit_and agg.partial_cube_full_mask (not_64 agg.mandatory_column_mask) i,
        bit-high 64 agg.partial_cube_full_mask i g.full_word high,
      ))
]

powers-IsNormal :
    (agg : AggregationGroup) (left i : ℕ)
    → IsGroup agg
    → All (IsNormal agg) (powers_from (normal_mask agg) i left)
unfolding powers_from
powers-IsNormal agg zero i g = tt
powers-IsNormal agg (suc left) i g = elim (Bool-cases (bit (normal_mask agg) i == 1)) [
  | inl there ↦
      let (f, m) = normal_digit agg i g ((==_iff _ 1).0 there) in
      rw there (
        record { index = i; power = refl; included = f; optional = m },
        powers-IsNormal agg left (suc i) g,
      )
  | inr none_there ↦ rw none_there (powers-IsNormal agg left (suc i) g)
]

pub dims-IsNormal :
    (base : ℕ) (agg : AggregationGroup) → IsGroupOf base agg → All (IsNormal agg) agg.normal_dims
dims-IsNormal base agg g =
    subst (All (IsNormal agg)) (sym g.dims) (powers-IsNormal agg 64 0 g.group)

-- A strict superset of `child` on the tree of the group.
pub record IsGroupParent (base : ℕ) (agg : AggregationGroup) (child p : ℕ) : Type 0 where
  pub above : Sub child p
  pub strict : child ≢ p
  pub inside : Sub p agg.partial_cube_full_mask
  pub on_tree : is_on_tree base agg p ≡ true

module _ (base : ℕ) (agg : AggregationGroup) (g : IsGroupOf base agg) (child : ℕ)
    (child_in : Sub child agg.partial_cube_full_mask) where
  full_lt : (p : ℕ) → Sub p agg.partial_cube_full_mask → p < 2 ^ 64
  full_lt p s = omega (arith, Sub-le s, g.group.full_word)

  -- Filling in the mandatory dimensions.
  mandatory-IsGroupParent :
      agg.is_mandatory_only_valid ≡ true
      → (bit_and child agg.mandatory_column_mask == agg.mandatory_column_mask) ≡ false
      → IsGroupParent base agg child (bit_or child agg.mandatory_column_mask)
  mandatory-IsGroupParent alone missing =
      let m = agg.mandatory_column_mask in
      let p = bit_or child m in
      let p_in : Sub p agg.partial_cube_full_mask = bit_or-Sub child_in g.group.mandatory_in_full in
      let strict : child ≢ p = λ e. cc (
        missing,
        (==_iff (bit_and child m) m).1
            ((bit_and-eq_iff child m).1 (subst (λ x. Sub m x) (sym e) (Sub-bit_or_right child m))),
      ) in
      record {
        above = Sub-bit_or_left child m;
        strict = strict;
        inside = p_in;
        on_tree = (is_on_tree_iff base agg p g.group (full_lt p p_in)).1 (
          omega (arith, strict, Sub-le (Sub-bit_or_left child m)),
          p_in,
          Sub-bit_or_right child m,
          inr (inl alone),
        );
      }

  -- Filling in one normal dimension of a cuboid that has the mandatory ones.
  normal-IsGroupParent :
      (origin n : ℕ)
      → Sub child origin
      → Sub origin agg.partial_cube_full_mask
      → Sub agg.mandatory_column_mask origin
      → IsNormal agg n
      → (bit_and origin n == n) ≡ false
      → IsGroupParent base agg child (bit_or origin n)
  normal-IsGroupParent origin n above inside has normal missing =
      let p = bit_or origin n in
      let n_in : Sub n agg.partial_cube_full_mask =
        subst (λ x. Sub x agg.partial_cube_full_mask) (sym normal.power)
          (Sub-pow normal.index agg.partial_cube_full_mask normal.included) in
      let p_in : Sub p agg.partial_cube_full_mask = bit_or-Sub inside n_in in
      let up : Sub child p = Sub-trans above (Sub-bit_or_left origin n) in
      let strict : child ≢ p = λ e. cc (
        missing,
        (==_iff (bit_and origin n) n).1 (
            (bit_and-eq_iff origin n).1
              (Sub-trans (subst (λ x. Sub n x) (sym e) (Sub-bit_or_right origin n)) above)),
      ) in
      let optional : ¬ (Sub p agg.mandatory_column_mask) = λ s.
        let low = Sub-trans (Sub-bit_or_right origin n) s in
        omega (
          arith,
          low.digit normal.index,
          normal.optional,
          ap (λ (x : ℕ). bit x normal.index) normal.power,
          bit-pow_self normal.index,
        ) in
      record {
        above = up;
        strict = strict;
        inside = p_in;
        on_tree = (is_on_tree_iff base agg p g.group (full_lt p p_in)).1 (
          omega (arith, strict, Sub-le up),
          p_in,
          Sub-trans has (Sub-bit_or_left origin n),
          inr (inr optional),
        );
      }

  fill_dims-All :
      (origin : ℕ) (ns collection : List ℕ)
      → Sub child origin
      → Sub origin agg.partial_cube_full_mask
      → Sub agg.mandatory_column_mask origin
      → All (IsNormal agg) ns
      → All (IsGroupParent base agg child) collection
      → All (IsGroupParent base agg child) (fill_dims origin ns collection)
  unfolding fill_dims fill_bit
  fill_dims-All origin [] collection above inside has ns done = done
  fill_dims-All origin (n ∷ ns) collection above inside has (normal, rest) done =
      elim (Bool-cases (bit_and origin n == n)) [
        | inl there ↦ rw there (fill_dims-All origin ns collection above inside has rest done)
        | inr missing ↦ rw missing (
            fill_dims-All origin ns (insert (bit_or origin n) collection) above inside has rest (
              All.All-insert (IsGroupParent base agg child) (bit_or origin n) collection
                (normal-IsGroupParent origin n above inside has normal missing) done))
      ]

  pub parents_in_group-All : All (IsGroupParent base agg child) (parents_in_group child agg)
  unfolding parents_in_group fill_bit insert
  parents_in_group-All =
      let m = agg.mandatory_column_mask in
      let dims = dims-IsNormal base agg g in
      elim (Bool-cases (child == agg.partial_cube_full_mask)) [
        | inl full ↦ rw full tt
        | inr notfull ↦ elim (Bool-cases (m == 0)) [
          | inl none_needed ↦
              simp (notfull, none_needed)
                (fill_dims-All child agg.normal_dims [] (Sub-refl child) child_in
                  (rw ((==_iff m 0).0 none_needed) (Sub-zero child)) dims tt)
          | inr some_needed ↦ elim (Bool-cases agg.is_mandatory_only_valid) [
            | inl alone ↦ elim (Bool-cases (bit_and child m == m)) [
              | inl has ↦
                  simp (notfull, some_needed, alone, has)
                    (fill_dims-All child agg.normal_dims [] (Sub-refl child) child_in
                      ((bit_and-eq_iff child m).0 ((==_iff (bit_and child m) m).0 has)) dims tt)
              | inr missing ↦
                  simp (notfull, some_needed, alone, missing)
                    (mandatory-IsGroupParent alone missing, tt)
            ]
            | inr others ↦
                simp (notfull, some_needed, others)
                  (fill_dims-All (bit_or child m) agg.normal_dims [] (Sub-bit_or_left child m)
                    (bit_or-Sub child_in g.group.mandatory_in_full) (Sub-bit_or_right child m) dims
                    tt)
          ]
        ]
      ]
