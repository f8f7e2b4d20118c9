-- ===== src/Cube/Cuboid/Columns.antt =====
-- The ids of cuboids against the columns that they stand for.
use husky_kylin.Prelude.{
  ℕ, ◌^◌, ◌≤◌, ◌<◌, ◌≡◌, ◌⊎◌, inl, inr, arith, refl, bit_and, bit_or, ◌==◌, ==_iff, true,
  Bool-cases, List, [], ◌∷◌, some, length, ltb, ap, subst, ◌∙◌, eq_or_ne, lt_or_ge,
}
use native.Mathlib.Nat.{one-le-pow}
use husky_kylin.Word.Digit.{
  bit, bit_ext, bit-pow_ne, bit-zero, bit-high, bit-le-one, bit-pow_self, bit-bit_and,
}
use husky_kylin.Word.Mask.{
  Sub, Sub-refl, Sub-trans, Sub-antisymm, Sub-zero, Sub-pow, Sub-bit_or_left, Sub-bit_or_right,
  bit_or-Sub, bit_and-eq_iff,
}
use husky_kylin.Utils.Bits.Count.{ones_below}
use husky_kylin.Collections.All
use husky_kylin.Collections.All.{All}
use husky_kylin.Collections.Sets.{
  contains, insert_all, contains-insert_all, contains-head, contains-tail,
}
use husky_kylin.Cube.RowKey.{RowKeyColDesc, RowKeyDesc, one_shl, get_column_bit_index}
use husky_kylin.Cube.RowKey.Build.{HasBits}
use husky_kylin.Cube.RowKey.Lookup.{IsLookedUp}
use husky_kylin.Cube.Cuboid.{columns_of, translated_id_to_columns, or_columns, to_cuboid_id}

-- The test of the loop: is digit `k` of `id` set?
digit_test : (id k : ℕ) → (bit_and id (2 ^ k) == 0) ≡ (bit id k == 0)
digit_test id k = elim (eq_or_ne (bit id k) 0) [
  | inl off ↦
      let nothing : bit_and id (2 ^ k) ≡ 0 = bit_ext (bit_and id (2 ^ k)) 0 (λ i.
        elim (eq_or_ne k i) [
          | inl e ↦ omega (arith, bit-bit_and id (2 ^ k) i, ap (bit id) e, off, bit-zero i)
          | inr ne ↦ omega (arith, bit-bit_and id (2 ^ k) i, bit-pow_ne k i ne, bit-zero i)
        ]) in
      rw (nothing, off) refl
  | inr on ↦
      let one : bit id k ≡ 1 = omega (arith, bit-le-one id k, on) in
      let all : bit_and id (2 ^ k) ≡ 2 ^ k = (bit_and-eq_iff id (2 ^ k)).1 (Sub-pow k id one) in
      let pos = one-le-pow k 2 (omega arith) in ground arith
]

module _ (row_key : RowKeyDesc) (id : ℕ) where
  -- A column that the row key finds with a bit of `id`.
  record IsPicked (x : ℕ) : Type 0 where
    index : ℕ
    indexed : get_column_bit_index row_key x ≡ some index
    low : index < 64
    there : bit id index ≡ 1

  columns_of_lem :
      (cs : List RowKeyColDesc)
      → HasBits cs
      → length cs ≤ 64
      → All (λ c. get_column_bit_index row_key c.col_ref ≡ some c.bit_index) cs
      → (cols : List ℕ) × (columns_of cs id ≡ some cols)
        × (length cols ≡ ones_below (length cs) id)
        × All IsPicked cols
        × All (λ c. (bit id c.bit_index ≡ 0) ⊎ (contains c.col_ref cols ≡ true)) cs
  unfolding columns_of one_shl ones_below
  columns_of_lem [] bits few known = ([], refl, refl, tt, tt)
  columns_of_lem (c ∷ cs) (index, bits) few (k, known) =
      let (cols, e, len, picked, found) = columns_of_lem cs bits (omega arith) known in
      let low : ltb c.bit_index 64 ≡ true = ground (arith, index, few) in
      let test = digit_test id c.bit_index in
      elim (Bool-cases (bit id c.bit_index == 0)) [
        | inl off ↦ (
          cols,
          rw (low, e, test, off) refl,
          ground (arith, len, ap (bit id) index, off),
          picked,
          (inl ((==_iff _ 0).0 off), found),
        )
        | inr on ↦ (
          c.col_ref ∷ cols,
          rw (low, e, test, on) refl,
          ground (arith, len, ap (bit id) index, on, bit-le-one id c.bit_index),
          (
            record {
              index = c.bit_index;
              indexed = k;
              low = omega (arith, index, few);
              there = ground (arith, on, bit-le-one id c.bit_index);
            },
            picked,
          ),
          (
            inr (contains-head c.col_ref cols),
            All.All-map _ _ cs
                (λ x f. elim f [
                  | inl z ↦ inl z
                  | inr h ↦ inr (contains-tail x.col_ref c.col_ref cols h)
                ])
                found,
          ),
        )
      ]

  -- The loop over columns that were picked only sets digits of `id`, and sets that of each.
  or_columns_lem :
      (dims : List ℕ) (mask : ℕ)
      → All IsPicked dims
      → Sub mask id
      → (out : ℕ) × (or_columns row_key dims mask ≡ some out)
        × Sub mask out
        × Sub out id
        × All (λ x. (i : ℕ) → get_column_bit_index row_key x ≡ some i → bit out i ≡ 1) dims
  unfolding or_columns one_shl
  or_columns_lem [] mask picked sub = (mask, refl, Sub-refl mask, sub, tt)
  or_columns_lem (x ∷ xs) mask (p, picked) sub =
      let b = 2 ^ p.index in
      let low : ltb p.index 64 ≡ true = ground (arith, p.low) in
      let (out, e, above, within, set_there) =
        or_columns_lem xs (bit_or mask b) picked (bit_or-Sub sub (Sub-pow p.index id p.there)) in
      (
        out,
        rw (p.indexed, low) e,
        Sub-trans (Sub-bit_or_left mask b) above,
        within,
        (
          λ i known.
              let same : p.index ≡ i = ground (arith, known, p.indexed) in
              let here = Sub-trans (Sub-bit_or_right mask b) above in
              subst (λ j. bit out j ≡ 1) same
                (omega (arith, here.digit p.index, bit-pow_self p.index, bit-le-one out p.index)),
          set_there,
        ),
      )

  -- A word whose digits are those of the columns.
  digits_suffice :
      (out : ℕ) (cs : List RowKeyColDesc)
      → HasBits cs
      → id < 2 ^ length cs
      → All (λ c. (bit id c.bit_index ≡ 0) ⊎ (bit out c.bit_index ≡ 1)) cs
      → Sub id out
  digits_suffice out cs bits word all = record {
    digit = λ i. elim (lt_or_ge i (length cs)) [
      | inr high ↦ omega (arith, bit-high (length cs) id i word high)
      | inl low ↦ go cs i bits low all
    ];
  }
    where
      go :
          (ds : List RowKeyColDesc) (i : ℕ)
          → HasBits ds
          → i < length ds
          → All (λ c. (bit id c.bit_index ≡ 0) ⊎ (bit out c.bit_index ≡ 1)) ds
          → bit id i ≤ bit out i
      go [] i bits low all = absurd (omega arith)
      go (d ∷ ds) i (index, bits) low (here, all) = elim (eq_or_ne d.bit_index i) [
        | inl e ↦
            subst (λ j. bit id j ≤ bit out j) e
              (elim here [
                | inl off ↦ omega (arith, off)
                | inr on ↦ omega (arith, on, bit-le-one id d.bit_index)
              ])
        | inr ne ↦ go ds i bits (omega (arith, index, ne)) all
      ]

  -- Where a set of columns has each column of a digit of `id`, and `out` the digit of each column of
  -- the set, `out` has these digits.
  digits_met :
      (out : ℕ) (dims : List ℕ) (cs : List RowKeyColDesc)
      → All (λ x. (i : ℕ) → get_column_bit_index row_key x ≡ some i → bit out i ≡ 1) dims
      → All (λ c. (bit id c.bit_index ≡ 0) ⊎ (contains c.col_ref dims ≡ true)) cs
      → All (λ c. get_column_bit_index row_key c.col_ref ≡ some c.bit_index) cs
      → All (λ c. (bit id c.bit_index ≡ 0) ⊎ (bit out c.bit_index ≡ 1)) cs
  digits_met out dims [] set_there found known = tt
  digits_met out dims (c ∷ cs) set_there (f, found) (k, known) = (
    elim f [
      | inl off ↦ inl off
      | inr inside ↦ inr (
          All.All-contains (λ x. (i : ℕ) → get_column_bit_index row_key x ≡ some i → bit out i ≡ 1)
            c.col_ref dims set_there inside c.bit_index k)
    ],
    digits_met out dims cs set_there found known,
  )

-- On a row key that has at most 64 columns and finds each, the id of a cuboid is translated to as
-- many columns as it has digits that are one, and the set of these columns is translated back to the
-- id.
pub to_cuboid_id-translated_id_to_columns :
    (row_key : RowKeyDesc) (id : ℕ)
    → IsLookedUp row_key
    → id < 2 ^ length row_key.row_key_columns
    → (cols : List ℕ) × (translated_id_to_columns row_key id ≡ some cols)
      × (length cols ≡ ones_below (length row_key.row_key_columns) id)
      × (to_cuboid_id row_key (insert_all cols []) ≡ some id)
unfolding translated_id_to_columns to_cuboid_id
to_cuboid_id-translated_id_to_columns row_key id k word =
    let (cols, e, len, picked, found) =
      columns_of_lem row_key id row_key.row_key_columns k.bits k.few k.known in
    let dims = insert_all cols [] in
    let (out, made, _, within, set_there) =
      or_columns_lem row_key id dims 0 (All.All-insert_all (IsPicked row_key id) cols [] picked tt)
        (Sub-zero id) in
    let in_set =
      All.All-map _ (λ c. (bit id c.bit_index ≡ 0) ⊎ (contains c.col_ref dims ≡ true))
        row_key.row_key_columns
        (λ c f. elim f [
          | inl off ↦ inl off
          | inr inside ↦ inr (contains-insert_all c.col_ref cols [] ∙ rw inside refl)
        ])
        found in
    let back : Sub id out =
      digits_suffice row_key id out row_key.row_key_columns k.bits word
        (digits_met row_key id out dims row_key.row_key_columns set_there in_set k.known) in
    (cols, e, len, made ∙ ap some (Sub-antisymm out id within back))
