-- ===== src/Cube/Kv.antt =====
-- src/core-cube/kv: the bytes of a row key. The caches of encodings give what they were given, and
-- are left out.
pub mod Splitting
use husky_kylin.Prelude.{
  ℕ, zero, suc, ◌+◌, ltb, leb, ◌==◌, if◌then◌else◌, Bool, true, false, Option, none, some, List, [],
  ◌∷◌, ◌++◌, ◌>>=◌, ◌>>◌, check, length, replicate, take, drop, Text, codes, text_eq,
}
use husky_kylin.Utils.Bytes.{read_long}
use husky_kylin.Collections.Maps.{find}
use husky_kylin.Dimension.Integer
use husky_kylin.Dimension.Integer.{Numerals, new_integer_dim_enc}
use husky_kylin.Metadata.DataType.{DataType, get_type}
use husky_kylin.Dimension.Date.{Tm, Calendar, date_fixed_len, encode_date}
use husky_kylin.Cube.RowKey.{RowKeyDesc, RowKeyColDesc, get_col_desc}
use husky_kylin.Cube.Cuboid.{Cuboid, find_for_mandatory}

abbrev pub cuboidid_length : ℕ
cuboidid_length = 8

-- The two encodings: that of dates, with the type of its codec or the null pointer, and that of
-- integers with its length.
pub data DimensionEncoding : Type 0 where
  date_dim_enc : Option DataType → DimensionEncoding
  integer_dim_enc : ℕ → DimensionEncoding

-- What the encodings ask of the C++ library; `stoi` throws at a text that is no number. The variable
-- that the dates do not initialise holds the same in each call.
pub record Formats : Type 0 where
  pub numerals : Numerals
  pub calendar : Calendar
  pub stoi : Text → Option ℕ
  pub uninitialised : Tm

-- `DateDimValueCodec` takes its type from a single argument.
unfoldable pub new_date_dim_value_codec : Formats → List Text → Option (Option DataType)
new_date_dim_value_codec formats (arg ∷ []) = get_type formats.stoi arg
new_date_dim_value_codec formats _ = some none

-- `encoding_args[0]`.
unfoldable pub integer_length : Formats → List Text → Option ℕ
integer_length formats [] = none
integer_length formats (arg ∷ args) = formats.stoi arg

unfoldable pub create : Formats → Text → List Text → Option DimensionEncoding
create formats encoding_name encoding_args =
    if text_eq encoding_name (codes "date")
    then (do
      datatype ← new_date_dim_value_codec formats encoding_args
      some (date_dim_enc datatype))
    else (if text_eq encoding_name (codes "integer")
        then (do
          n ← integer_length formats encoding_args
          len ← new_integer_dim_enc n
          some (integer_dim_enc len))
        else (do len ← new_integer_dim_enc 4; some (integer_dim_enc len)))

unfoldable pub get_length_of_encoding : DimensionEncoding → ℕ
get_length_of_encoding (date_dim_enc datatype) = date_fixed_len
get_length_of_encoding (integer_dim_enc len) = len

unfoldable pub encode_value : Formats → DimensionEncoding → Text → List ℕ → ℕ → Option (List ℕ)
encode_value formats (date_dim_enc datatype) value output offset =
    encode_date formats.calendar formats.uninitialised value output offset
encode_value formats (integer_dim_enc len) value output offset =
    Integer.encode formats.numerals len value output offset

unfoldable pub get_dim_enc : Formats → RowKeyDesc → ℕ → Option DimensionEncoding
get_dim_enc formats row_key col = do
  desc ← get_col_desc row_key col
  create formats desc.encoding_name desc.encoding_args

unfoldable pub get_column_length : Formats → RowKeyDesc → ℕ → Option ℕ
get_column_length formats row_key col = do
  enc ← get_dim_enc formats row_key col
  some (get_length_of_encoding enc)

-- `std::copy` into an array, from an offset on.
unfoldable pub copy_to : List ℕ → ℕ → List ℕ → List ℕ
copy_to [] offset xs = []
copy_to (b ∷ bs) (suc offset) xs = b ∷ copy_to bs offset xs
copy_to (b ∷ bs) zero [] = b ∷ bs
copy_to (b ∷ bs) zero (x ∷ xs) = x ∷ copy_to bs zero xs

pub record RowKeyEncoder : Type 0 where
  pub cuboid : Cuboid
  pub body_length : ℕ

unfoldable pub sum_lengths : Formats → RowKeyDesc → List ℕ → Option ℕ
sum_lengths formats row_key [] = some 0
sum_lengths formats row_key (col ∷ cols) = do
  col_length ← get_column_length formats row_key col
  rest ← sum_lengths formats row_key cols
  some (col_length + rest)

module _ (formats : Formats) (row_key : RowKeyDesc) where
  unfoldable pub new_row_key_encoder : Cuboid → Option RowKeyEncoder
  new_row_key_encoder cuboid = do
    body_length ← sum_lengths formats row_key cuboid.dimension_columns
    some (record { cuboid = cuboid; body_length = body_length })

  -- The loop of `encode`, over the columns and the values that are left; a value that is missing is
  -- read out of bounds.
  unfoldable pub fill_columns : List ℕ → List Text → List ℕ → ℕ → Option (List ℕ)
  fill_columns [] values bytes offset = some bytes
  fill_columns (col ∷ cols) [] bytes offset = none
  fill_columns (col ∷ cols) (value ∷ values) bytes offset = do
    enc ← get_dim_enc formats row_key col
    filled ← encode_value formats enc value bytes offset
    fill_columns cols values filled (offset + get_length_of_encoding enc)

unfoldable pub get_bytes_length : RowKeyEncoder → ℕ
get_bytes_length e = cuboidid_length + e.body_length

unfoldable pub create_buf : RowKeyEncoder → List ℕ
create_buf e = replicate (get_bytes_length e) 0

unfoldable pub fill_header : RowKeyEncoder → List ℕ → List ℕ
fill_header e bytes = copy_to bytes 0 (take cuboidid_length e.cuboid.id_bytes)

-- `encode` of a body that was made before.
unfoldable pub encode_body : RowKeyEncoder → List ℕ → List ℕ → Option (List ℕ)
encode_body e body_bytes output_buf = do
  check (length body_bytes == e.body_length)
  check (length output_buf == get_bytes_length e)
  some (fill_header e (copy_to output_buf cuboidid_length body_bytes))

-- `encode` of values, one for each column.
unfoldable pub encode_values : Formats → RowKeyDesc → RowKeyEncoder → List Text → Option (List ℕ)
encode_values formats row_key e values = do
  bytes ←
      fill_columns formats row_key e.cuboid.dimension_columns values (create_buf e) cuboidid_length
  some (fill_header e bytes)

-- `encode` of pointers to the values.
unfoldable pub encode_pointers : Formats → RowKeyDesc → RowKeyEncoder → List Text → Option (List ℕ)
encode_pointers formats row_key e values = do
  bytes ←
      fill_columns formats row_key e.cuboid.dimension_columns values (create_buf e) cuboidid_length
  some (fill_header e bytes)

-- The value of each column; an iterator past the end is dereferenced on a missing one.
unfoldable pub values_of : List ℕ → List (ℕ × Text) → Option (List Text)
values_of [] value_map = some []
values_of (col ∷ cols) value_map = do
  value ← find col value_map
  rest ← values_of cols value_map
  some (value ∷ rest)

-- `encode` of a map from columns to values.
unfoldable pub encode_map : Formats → RowKeyDesc → RowKeyEncoder → List (ℕ × Text) → Option (List ℕ)
encode_map formats row_key e value_map = do
  values ← values_of e.cuboid.dimension_columns value_map
  encode_values formats row_key e values

-- A `ByteArray` with the CHECKs of its constructor, as the bytes from its begin to its end.
unfoldable pub byte_array : List ℕ → ℕ → ℕ → Option (List ℕ)
byte_array bytes offset len = do
  check (ltb offset (length bytes))
  check (leb (offset + len) (length bytes))
  some (take len (drop offset bytes))

unfoldable pub parse_cuboid : ℕ → List ℕ → Option ℕ
parse_cuboid start bytes = read_long start bytes 0 cuboidid_length

-- The loop of `split` over the columns that are left.
unfoldable pub split_columns : Formats → RowKeyDesc → List ℕ → List ℕ → ℕ → Option (List (List ℕ))
split_columns formats row_key [] bytes offset = some []
split_columns formats row_key (col ∷ cols) bytes offset = do
  col_length ← get_column_length formats row_key col
  buffer ← byte_array bytes offset col_length
  rest ← split_columns formats row_key cols bytes (offset + col_length)
  some (buffer ∷ rest)

-- The id of the cuboid, and the buffers: that of the id, then one for each of its columns. `start`
-- is what `read_long` finds in its uninitialised variable.
unfoldable pub split : Formats → RowKeyDesc → ℕ → List ℕ → Option (ℕ × List (List ℕ))
split formats row_key start bytes = do
  header ← byte_array bytes 0 cuboidid_length
  id ← read_long start bytes 0 cuboidid_length
  cuboid ← find_for_mandatory row_key id
  buffers ← split_columns formats row_key cuboid.dimension_columns bytes cuboidid_length
  some (id, header ∷ buffers)
