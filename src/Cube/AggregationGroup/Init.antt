-- ===== src/Cube/AggregationGroup/Init.antt =====
-- What `AggregationGroup::init` leaves.
use husky_kylin.Prelude.{
  ℕ, ◌-◌, ◌^◌, ◌<◌, ◌≡◌, inl, inr, arith, refl, bit_and, bit_or, Bool-cases, List, [], ◌∷◌, some,
  >>=-eq-some, Option-cases, sym, subst, ◌∙◌, ap, Text,
}
use mathlib.Core.List.{Memᴰ}
use husky_kylin.Word.{not_64}
use husky_kylin.Word.Digit.{bit-ones}
use husky_kylin.Word.Shift.{bit_or-lt, bit_and-lt}
use husky_kylin.Word.Mask.{
  Sub, Sub-refl, Sub-trans, Sub-le, Sub-zero, Sub-pow, Sub-bit_or_left, Sub-bit_or_right,
  bit_or-Sub,
}
use husky_kylin.Collections.All.{All, All-map}
use husky_kylin.Cube.RowKey.{RowKeyDesc, Columns, one_shl, get_column_bit_index}
use husky_kylin.Cube.RowKey.Lookup.{IsRowKey}
use husky_kylin.Cube.AggregationGroup.{
  AggregationGroup, or_dims, build_partial_cube_full_mask, build_mandatory_column_mask,
  build_normal_dims_mask, init, is_empty,
}
use husky_kylin.Cube.AggregationGroup.Dims.{bits_lem}
use husky_kylin.Cube.Scheduler.Parents.{IsGroupOf}

-- The column of a dimension and its bit are known.
record HasBit (model : Columns) (row_key : RowKeyDesc) (dim : Text) (b : ℕ) : Type 0 where
  col : ℕ
  index : ℕ
  found : model.find_column dim ≡ some col
  indexed : get_column_bit_index row_key col ≡ some index
  low : index < 64
  power : b ≡ 2 ^ index

module _ (model : Columns) (row_key : RowKeyDesc) where
  one_shl-inversion : (index b : ℕ) → one_shl index ≡ some b → (index < 64) × (b ≡ 2 ^ index)
  unfolding one_shl
  one_shl-inversion index b h = ground arith

  -- A round of the loop that goes on.
  or_dims-cons :
      (dim : Text) (rest : List Text) (mask out : ℕ)
      → or_dims model row_key (dim ∷ rest) mask ≡ some out
      → (b : ℕ) × HasBit model row_key dim b
        × (or_dims model row_key rest (bit_or mask b) ≡ some out)
  unfolding or_dims
  or_dims-cons dim rest mask out h =
      let (col, found, h1) = >>=-eq-some (model.find_column dim) _ out h in
      let (index, indexed, h2) = >>=-eq-some (get_column_bit_index row_key col) _ out h1 in
      let (b, shifted, h3) = >>=-eq-some (one_shl index) _ out h2 in
      let (low, power) = one_shl-inversion index b shifted in
      (
        b,
        record {
          col = col;
          index = index;
          found = found;
          indexed = indexed;
          low = low;
          power = power;
        },
        h3,
      )

  -- The loop only adds digits; with the bits of the dimensions within `limit`, it stays there.
  or_dims-above :
      (dims : List Text) (mask out : ℕ) → or_dims model row_key dims mask ≡ some out → Sub mask out
  unfolding or_dims
  or_dims-above [] mask out h =
      let e : mask ≡ out = ground arith in subst (Sub mask) e (Sub-refl mask)
  or_dims-above (dim ∷ rest) mask out h =
      let (b, _, h') = or_dims-cons dim rest mask out h in
      Sub-trans (Sub-bit_or_left mask b) (or_dims-above rest (bit_or mask b) out h')

  or_dims-within :
      (limit : ℕ) (dims : List Text) (mask out : ℕ)
      → or_dims model row_key dims mask ≡ some out
      → Sub mask limit
      → All (λ dim. (b : ℕ) → HasBit model row_key dim b → Sub b limit) dims
      → Sub out limit
  unfolding or_dims
  or_dims-within limit [] mask out h sub all =
      let e : mask ≡ out = ground arith in subst (λ x. Sub x limit) e sub
  or_dims-within limit (dim ∷ rest) mask out h sub (a, all) =
      let (b, has, h') = or_dims-cons dim rest mask out h in
      or_dims-within limit rest (bit_or mask b) out h' (bit_or-Sub sub (a b has)) all

  or_dims-word :
      (dims : List Text) (mask out : ℕ)
      → or_dims model row_key dims mask ≡ some out
      → mask < 2 ^ 64
      → out < 2 ^ 64
  unfolding or_dims
  or_dims-word [] mask out h word = ground arith
  or_dims-word (dim ∷ rest) mask out h word =
      let (b, has, h') = or_dims-cons dim rest mask out h in
      let b_word : b < 2 ^ 64 = omega (
        arith,
        has.power,
        Sub-le (Sub-pow has.index (2 ^ 64 - 1) (bit-ones 64 has.index has.low)),
      ) in
      or_dims-word rest (bit_or mask b) out h' (bit_or-lt 64 mask b word b_word)

  HasBit-unique :
      (dim : Text) (a b : ℕ) → HasBit model row_key dim a → HasBit model row_key dim b → a ≡ b
  HasBit-unique dim a b p q =
      let same_col : p.col ≡ q.col = ground (arith, p.found, q.found) in
      let same_index : p.index ≡ q.index =
        ground (arith, p.indexed, q.indexed, ap (get_column_bit_index row_key) same_col) in
      p.power ∙ ap (λ i. 2 ^ i) same_index ∙ sym q.power

  -- The bit of each dimension is in the result.
  or_dims-has :
      (dims : List Text) (mask out : ℕ) (dim : Text) (b : ℕ)
      → or_dims model row_key dims mask ≡ some out
      → Memᴰ dim dims
      → HasBit model row_key dim b
      → Sub b out
  or_dims-has [] mask out dim b h m has = elim m [ ]
  or_dims-has (first ∷ rest) mask out dim b h (Memᴰ.head e) has =
      let (b', has', h') = or_dims-cons first rest mask out h in
      let same : b' ≡ b =
        HasBit-unique first b' b has' (subst (λ x. HasBit model row_key x b) e has) in
      subst (λ x. Sub x out) same
        (Sub-trans (Sub-bit_or_right mask b') (or_dims-above rest (bit_or mask b') out h'))
  or_dims-has (first ∷ rest) mask out dim b h (Memᴰ.tail m) has =
      let (b', _, h') = or_dims-cons first rest mask out h in
      or_dims-has rest (bit_or mask b') out dim b h' m has

  HasBit-Sub_full :
      (dim : Text) (b : ℕ) → IsRowKey row_key → HasBit model row_key dim b → Sub b row_key.full_mask
  HasBit-Sub_full dim b keyed has =
      subst (λ x. Sub x row_key.full_mask) (sym has.power)
        (Sub-pow has.index row_key.full_mask (keyed.column_bit has.col has.index has.indexed))

  All-within :
      (limit : ℕ) (dims : List Text)
      → ((dim : Text) (b : ℕ) → Memᴰ dim dims → HasBit model row_key dim b → Sub b limit)
      → All (λ dim. (b : ℕ) → HasBit model row_key dim b → Sub b limit) dims
  All-within limit [] f = tt
  All-within limit (dim ∷ rest) f = (
    λ b has. f dim b (Memᴰ.head refl) has,
    All-within limit rest (λ x b m has. f x b (Memᴰ.tail m) has),
  )

abbrev with_masks : ℕ → ℕ → AggregationGroup → AggregationGroup
with_masks full mandatory agg =
    build_normal_dims_mask
      (record agg { partial_cube_full_mask = full; mandatory_column_mask = mandatory })

init-inversion :
    (model : Columns) (row_key : RowKeyDesc) (agg out : AggregationGroup)
    → init model row_key agg ≡ some out
    → (full : ℕ) × (mandatory : ℕ) × (or_dims model row_key agg.includes 0 ≡ some full)
      × (or_dims model row_key agg.mandatory_dims 0 ≡ some mandatory)
      × (with_masks full mandatory agg ≡ out)
unfolding init build_partial_cube_full_mask build_mandatory_column_mask
init-inversion model row_key agg out h = elim (Bool-cases (is_empty agg.includes)) [
  | inl empty ↦ absurd (ground (arith, rw empty at h))
  | inr listed ↦ elim (Option-cases (or_dims model row_key agg.includes 0)) [
    | inl bad ↦ absurd (ground (arith, rw (listed, bad) at h))
    | inr (full, e) ↦ elim (Option-cases (or_dims model row_key agg.mandatory_dims 0)) [
      | inl bad ↦ absurd (ground (arith, rw (listed, e, bad) at h))
      | inr (mandatory, e') ↦ (full, mandatory, e, e', ground (arith, rw (listed, e, e') at h))
    ]
  ]
]

All-listed :
    (limit : ℕ) (model : Columns) (row_key : RowKeyDesc) (names dims : List Text) (full : ℕ)
    → or_dims model row_key names 0 ≡ some full
    → All (λ dim. Memᴰ dim names) dims
    → All (λ dim. (b : ℕ) → HasBit model row_key dim b → Sub b full) dims
All-listed limit model row_key names dims full e listed =
    All-map (λ dim. Memᴰ dim names) (λ dim. (b : ℕ) → HasBit model row_key dim b → Sub b full) dims
      (λ dim m b has. or_dims-has model row_key names 0 full dim b e m has) listed

-- When `init` succeeds, on a row key that knows columns only with bits of its full mask, for a group
-- whose mandatory dimensions are among those that it includes, then the masks are words, the group's
-- mask is within the full mask, the mandatory one within the group's, and the normal dimensions are
-- the digits of the one without those of the other, from the lowest.
pub init-IsGroupOf :
    (model : Columns) (row_key : RowKeyDesc) (agg out : AggregationGroup)
    → IsRowKey row_key
    → All (λ dim. Memᴰ dim agg.includes) agg.mandatory_dims
    → init model row_key agg ≡ some out
    → IsGroupOf row_key.full_mask out
unfolding build_normal_dims_mask
init-IsGroupOf model row_key agg out keyed listed h =
    let (full, mandatory, e, e', same) = init-inversion model row_key agg out h in
    let full_word = or_dims-word model row_key agg.includes 0 full e (omega arith) in
    subst (IsGroupOf row_key.full_mask) same (record {
      group = record {
        full_word = full_word;
        mandatory_in_full =
            or_dims-within model row_key full agg.mandatory_dims 0 mandatory e' (Sub-zero full)
              (All-listed full model row_key agg.includes agg.mandatory_dims full e listed);
      };
      included =
          or_dims-within model row_key row_key.full_mask agg.includes 0 full e
            (Sub-zero row_key.full_mask)
            (All-within model row_key row_key.full_mask agg.includes
              (λ dim b m has. HasBit-Sub_full model row_key dim b keyed has));
      dims =
          bits_lem (bit_and full (not_64 mandatory))
            (bit_and-lt 64 full (not_64 mandatory) full_word);
    })
