-- ===== src/Cube/RowKey.antt =====
-- src/core-cube/model/row_key_desc and row_key_col_desc, and `parse_encoding_conf` of
-- src/core-metadata/dimension/dimension_encoding.hpp. A `std::shared_ptr<TblColRef>` is its
-- address, a number, as the maps compare it.
pub mod Build
pub mod Lookup
use husky_kylin.Prelude.{
  ℕ, zero, suc, ◌+◌, ◌-◌, ◌^◌, bit_or, Option, none, some, List, [], ◌∷◌, ◌++◌, ltb, if◌then◌else◌,
  length, ◌>>=◌, map, Text, rfind, take, drop,
}
use husky_kylin.Collections.Maps.{find, emplace}

-- What the row key asks of the data model: `find_column`, with `none` for a null pointer, and
-- `get_identity` of a column.
pub record Columns : Type 0 where
  pub find_column : Text → Option ℕ
  pub identity : ℕ → Text

-- `1L << index`. A shift by 64 or more is undefined: `none`.
unfoldable pub one_shl : ℕ → Option ℕ
one_shl index = if ltb index 64 then some (2 ^ index) else none

-- The name of an encoding and its arguments: the parts before and behind the last colon.
unfoldable pub parse_encoding_conf : Text → List Text
unfolding rfind
parse_encoding_conf encoding = elim (rfind b':' encoding) [
  | none ↦ encoding ∷ []
  | some cut ↦ take cut encoding ∷ drop (cut + 1) encoding ∷ []
]

pub record RowKeyColDesc : Type 0 where
  pub column : Text
  pub encoding : Text
  pub encoding_name : Text
  pub encoding_args : List Text
  pub bit_index : ℕ
  pub col_ref : ℕ

pub record RowKeyDesc : Type 0 where
  pub row_key_columns : List RowKeyColDesc
  pub full_mask : ℕ
  pub column_map : List (ℕ × RowKeyColDesc)

-- `encoding_params[0]`, and the rest of the vector. It is never empty.
unfoldable pub set_encoding : List Text → RowKeyColDesc → RowKeyColDesc
set_encoding [] c = c
set_encoding (name ∷ args) c = record c {
  encoding_name = name;
  encoding_args = c.encoding_args ++ args;
}

-- `RowKeyColDesc::init`. A column that the model does not have is a null pointer, which is
-- dereferenced: `none`.
unfoldable pub init_column : Columns → ℕ → RowKeyColDesc → Option RowKeyColDesc
init_column model index c = do
  col ← model.find_column c.column
  some (
      set_encoding (parse_encoding_conf c.encoding)
        (record c { bit_index = index; col_ref = col; column = model.identity col }))

-- The first loop of `build_row_key`, over the columns that are left: column `i` of `size` gets
-- the bit `size - i - 1`, which is the number of columns behind it.
unfoldable pub init_columns : Columns → List RowKeyColDesc → Option (List RowKeyColDesc)
init_columns model [] = some []
init_columns model (c ∷ cs) = do
  done ← init_column model (length cs) c
  rest ← init_columns model cs
  some (done ∷ rest)

unfoldable pub insert_columns :
    List RowKeyColDesc → List (ℕ × RowKeyColDesc) → List (ℕ × RowKeyColDesc)
insert_columns [] m = m
insert_columns (c ∷ cs) m = insert_columns cs (emplace c.col_ref c m)

-- The second loop of `build_row_key`.
unfoldable pub or_bits : List RowKeyColDesc → ℕ → Option ℕ
or_bits [] mask = some mask
or_bits (c ∷ cs) mask = do b ← one_shl c.bit_index; or_bits cs (bit_or mask b)

unfoldable pub build_row_key : Columns → RowKeyDesc → Option RowKeyDesc
build_row_key model r = do
  columns ← init_columns model r.row_key_columns
  mask ← or_bits columns 0
  some (record {
    row_key_columns = columns;
    full_mask = mask;
    column_map = insert_columns columns r.column_map;
  })

-- `get_col_desc`: the iterator past the end is dereferenced on a missing column: `none`.
unfoldable pub get_col_desc : RowKeyDesc → ℕ → Option RowKeyColDesc
get_col_desc r col = find col r.column_map

unfoldable pub get_column_bit_index : RowKeyDesc → ℕ → Option ℕ
get_column_bit_index r col = do desc ← get_col_desc r col; some desc.bit_index
