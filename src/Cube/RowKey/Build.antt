-- ===== src/Cube/RowKey/Build.antt =====
-- What `build_row_key` computes.
use husky_kylin.Prelude.{
  ℕ, suc, ◌-◌, ◌^◌, ◌≤◌, ◌≡◌, arith, refl, bit_or, some, List, [], ◌∷◌, length, ◌>>=◌, ◌∙◌, inl,
  inr, lt_or_ge, eq_or_ne, ap, sym,
}
use native.Mathlib.Nat.{one-le-pow}
use husky_kylin.Word.Digit.{
  bit, bit-bit_or, bit-pow_self, bit-pow_ne, bit-ones, bit_ext, bit-high, bit-le-one,
}
use husky_kylin.Word.Fields.{bit_or-zero, zero-bit_or}
use husky_kylin.Cube.RowKey.{
  Columns, RowKeyColDesc, RowKeyDesc, init_column, set_encoding, insert_columns,
  parse_encoding_conf, init_columns, or_bits, build_row_key, one_shl,
}

-- Every column is initialised with the number of columns behind it as its bit.
abbrev pub HasBits : List RowKeyColDesc → Type 0
HasBits [] = Unit
HasBits (c ∷ cs) = (c.bit_index ≡ length cs) × HasBits cs

-- The data model has every column of the row key.
abbrev pub AllFound : Columns → List RowKeyColDesc → Type 0
AllFound model [] = Unit
AllFound model (c ∷ cs) = ((col : ℕ) × (model.find_column c.column ≡ some col)) × AllFound model cs

init_column_lem :
    (model : Columns) (index : ℕ) (c : RowKeyColDesc) (col : ℕ)
    → model.find_column c.column ≡ some col
    → (d : RowKeyColDesc) × (init_column model index c ≡ some d)
      × (d.bit_index ≡ index)
      × (d.col_ref ≡ col)
unfolding init_column set_encoding
init_column_lem model index c col found =
    elim (parse_encoding_conf c.encoding)
      as (λ ps.
        (d : RowKeyColDesc) × ((model.find_column c.column >>= λ ref. some (
            set_encoding ps
              (record c { bit_index = index; col_ref = ref; column = model.identity ref })))
          ≡ some d)
        × (d.bit_index ≡ index)
        × (d.col_ref ≡ col)) [
          | [] ↦ rw found (_, refl, refl, refl)
          | name ∷ args ↦ rw found (_, refl, refl, refl)
        ]

init_columns_lem :
    (model : Columns) (cs : List RowKeyColDesc)
    → AllFound model cs
    → (out : List RowKeyColDesc) × (init_columns model cs ≡ some out)
      × HasBits out
      × (length out ≡ length cs)
unfolding init_columns
init_columns_lem model [] f = ([], refl, tt, refl)
init_columns_lem model (c ∷ cs) ((col, found), rest) =
    let (d, e, index, _) = init_column_lem model (length cs) c col found in
    let (out, es, bits, len) = init_columns_lem model cs rest in
    (d ∷ out, ground arith, ground arith, ground arith)

one_more_bit : (n mask : ℕ) → bit_or (bit_or mask (2 ^ n)) (2 ^ n - 1) ≡ bit_or mask (2 ^ suc n - 1)
one_more_bit n mask = bit_ext _ _ λ i. elim (lt_or_ge i n) [
  | inl low ↦ omega (
    arith,
    bit-bit_or (bit_or mask (2 ^ n)) (2 ^ n - 1) i,
    bit-bit_or mask (2 ^ n) i,
    bit-bit_or mask (2 ^ suc n - 1) i,
    bit-ones n i low,
    bit-ones (suc n) i (omega arith),
    bit-le-one (2 ^ n) i,
  )
  | inr high ↦ elim (eq_or_ne n i) [
    | inl e ↦ omega (
      arith,
      bit-bit_or (bit_or mask (2 ^ n)) (2 ^ n - 1) i,
      bit-bit_or mask (2 ^ n) i,
      bit-bit_or mask (2 ^ suc n - 1) i,
      ap (bit (2 ^ n)) (sym e) ∙ bit-pow_self n,
      bit-high n (2 ^ n - 1) i (omega (arith, one-le-pow n 2 (omega arith))) high,
      bit-ones (suc n) i (omega arith),
    )
    | inr ne ↦ omega (
      arith,
      bit-bit_or (bit_or mask (2 ^ n)) (2 ^ n - 1) i,
      bit-bit_or mask (2 ^ n) i,
      bit-bit_or mask (2 ^ suc n - 1) i,
      bit-pow_ne n i ne,
      bit-high n (2 ^ n - 1) i (omega (arith, one-le-pow n 2 (omega arith))) high,
      bit-high (suc n) (2 ^ suc n - 1) i (omega (arith, one-le-pow (suc n) 2 (omega arith)))
          (omega (arith, ne)),
    )
  ]
]

or_bits_lem :
    (cs : List RowKeyColDesc) (mask : ℕ)
    → HasBits cs
    → length cs ≤ 64
    → or_bits cs mask ≡ some (bit_or mask (2 ^ length cs - 1))
unfolding or_bits one_shl
or_bits_lem [] mask h fits = ap some (sym (bit_or-zero mask))
or_bits_lem (c ∷ cs) mask h fits =
    ground (arith, or_bits_lem cs (bit_or mask (2 ^ length cs)), one_more_bit (length cs) mask)

-- With at most 64 columns, all of them known to the data model, `build_row_key` succeeds: the
-- columns get the bits size - 1 down to 0 in their order, and the full mask has just these bits.
pub build_row_key_lem :
    (model : Columns) (r : RowKeyDesc)
    → AllFound model r.row_key_columns
    → length r.row_key_columns ≤ 64
    → (out : RowKeyDesc) × (build_row_key model r ≡ some out)
      × HasBits out.row_key_columns
      × (length out.row_key_columns ≡ length r.row_key_columns)
      × (out.full_mask ≡ 2 ^ length r.row_key_columns - 1)
unfolding build_row_key
build_row_key_lem model r found fits =
    let (columns, e, bits, len) = init_columns_lem model r.row_key_columns found in
    let masks = or_bits_lem columns 0 bits (omega arith) in
    (
      record {
        row_key_columns = columns;
        full_mask = 2 ^ length r.row_key_columns - 1;
        column_map = insert_columns columns r.column_map;
      },
      rw (e, masks, zero-bit_or, len) refl,
      bits,
      len,
      refl,
    )
