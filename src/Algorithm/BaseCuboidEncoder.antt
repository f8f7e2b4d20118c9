-- ===== src/Algorithm/BaseCuboidEncoder.antt =====
-- src/algorithm/base_cuboid_encoder: the key and the measures of a row of the flat table. An index
-- that is out of a row's range is `none`, and so is a column that the flat table does not have.
pub mod Inputs
use husky_kylin.Prelude.{
  ℕ, zero, suc, ◌+◌, Bool, true, false, Option, none, some, List, [], ◌∷◌, ◌++◌, ◌>>=◌, length,
  get_elem?, Text, codes,
}
use husky_kylin.Collections.Maps.{find}
use husky_kylin.Cube.RowKey.{RowKeyDesc}
use husky_kylin.Cube.Cuboid.{Cuboid}
use husky_kylin.Cube.Kv.{Formats, RowKeyEncoder, new_row_key_encoder, encode_pointers}
use husky_kylin.Metadata.FunctionDesc.{
  ParameterDesc, FunctionDesc, is_column_type, is_count, get_col_refs,
}

abbrev pub delimiter : Text
delimiter = codes ":"

pub record BaseCuboidEncoder : Type 0 where
  pub row_key_encoder : RowKeyEncoder
  pub row_key_column_idx : List ℕ
  pub measure_column_idx : List (List ℕ)

-- The index of each column in the flat table.
unfoldable pub column_indexes : List (ℕ × ℕ) → List ℕ → Option (List ℕ)
column_indexes flat [] = some []
column_indexes flat (col ∷ cols) = do
  idx ← find col flat
  rest ← column_indexes flat cols
  some (idx ∷ rest)

-- `get_parameter()` is dereferenced.
unfoldable pub function_columns : FunctionDesc → Option (List ℕ)
function_columns f = elim f.parameters [ [] ↦ none | p ∷ ps ↦ some (get_col_refs (p ∷ ps)) ]

unfoldable pub measure_indexes : List (ℕ × ℕ) → List FunctionDesc → Option (List (List ℕ))
measure_indexes flat [] = some []
measure_indexes flat (f ∷ fs) = do
  cols ← function_columns f
  indexes ← column_indexes flat cols
  rest ← measure_indexes flat fs
  some (indexes ∷ rest)

-- The constructor, which is `init`, over the functions of the cube's measures.
unfoldable pub new_base_cuboid_encoder :
    Formats → RowKeyDesc → Cuboid → List FunctionDesc → List (ℕ × ℕ) → Option BaseCuboidEncoder
new_base_cuboid_encoder formats row_key base_cuboid measures flat = do
  encoder ← new_row_key_encoder formats row_key base_cuboid
  keys ← column_indexes flat base_cuboid.dimension_columns
  indexes ← measure_indexes flat measures
  some (record {
    row_key_encoder = encoder;
    row_key_column_idx = keys;
    measure_column_idx = indexes;
  })

unfoldable pub row_values : List Text → List ℕ → Option (List Text)
row_values row [] = some []
row_values row (idx ∷ indexes) = do
  value ← get_elem? row idx
  rest ← row_values row indexes
  some (value ∷ rest)

unfoldable pub get_key : Formats → RowKeyDesc → BaseCuboidEncoder → List Text → Option (List ℕ)
get_key formats row_key e row = do
  values ← row_values row e.row_key_column_idx
  encode_pointers formats row_key e.row_key_encoder values

-- The loop of `get_input_to_measure`; `col_idx` counts the columns so far.
unfoldable pub input_loop : Bool → List ℕ → List Text → List ParameterDesc → ℕ → Option (List Text)
input_loop count column_idx row [] col_idx = some []
input_loop count column_idx row (p ∷ ps) col_idx = elim count [
  | true ↦ do rest ← input_loop count column_idx row ps col_idx; some (codes "1" ∷ rest)
  | false ↦ elim (is_column_type p) [
    | true ↦ do
      idx ← get_elem? column_idx col_idx
      value ← get_elem? row idx
      rest ← input_loop count column_idx row ps (col_idx + 1)
      some (value ∷ rest)
    | false ↦ do rest ← input_loop count column_idx row ps col_idx; some (p.value ∷ rest)
  ]
]

unfoldable pub get_input_to_measure : FunctionDesc → List ℕ → List Text → Option (List Text)
get_input_to_measure f column_idx row = input_loop (is_count f) column_idx row f.parameters 0

unfoldable pub delimited : List Text → Text
delimited [] = []
delimited (t ∷ ts) = delimiter ++ t ++ delimited ts

-- `front()` of an empty vector is undefined.
unfoldable pub get_string_value : FunctionDesc → List ℕ → List Text → Option Text
get_string_value f column_idx row = do
  inputs ← get_input_to_measure f column_idx row
  elim inputs as (λ x. Option Text) [ [] ↦ none | t ∷ ts ↦ some (t ++ delimited ts) ]

-- `measure_column_idx_[i]` stands beside measure `i`.
unfoldable pub get_string_values :
    List FunctionDesc → List (List ℕ) → List Text → Option (List Text)
get_string_values [] indexes row = some []
get_string_values (f ∷ fs) [] row = none
get_string_values (f ∷ fs) (column_idx ∷ indexes) row = do
  value ← get_string_value f column_idx row
  rest ← get_string_values fs indexes row
  some (value ∷ rest)

-- `get_byte_value` only checks that the inputs are there: its result is empty.
unfoldable pub get_byte_value : FunctionDesc → List ℕ → List Text → Option (List ℕ)
get_byte_value f column_idx row = do inputs ← get_input_to_measure f column_idx row; some []

unfoldable pub get_byte_values :
    List FunctionDesc → List (List ℕ) → List Text → Option (List (List ℕ))
get_byte_values [] indexes row = some []
get_byte_values (f ∷ fs) [] row = none
get_byte_values (f ∷ fs) (column_idx ∷ indexes) row = do
  value ← get_byte_value f column_idx row
  rest ← get_byte_values fs indexes row
  some (value ∷ rest)
