-- ===== src/Cube/Cuboid.antt =====
-- src/core-cube/cuboid/cuboid. The description of the cube enters by its row key.
pub mod Columns
use husky_kylin.Prelude.{
  ℕ, bit_and, bit_or, ◌==◌, ltb, if◌then◌else◌, Bool, not, Option, some, List, [], ◌∷◌, ◌>>=◌,
}
use husky_kylin.Utils.Bits.{bit_count}
use husky_kylin.Utils.Bytes.{long_to_bytes, bytes_to_long}
use husky_kylin.Cube.RowKey.{RowKeyDesc, RowKeyColDesc, one_shl, get_column_bit_index}

-- `cuboid_select_comparator`: fewer digits first, then the smaller number.
unfoldable pub cuboid_select_comparator : ℕ → ℕ → Bool
cuboid_select_comparator a b =
    if bit_count a == bit_count b then ltb a b else ltb (bit_count a) (bit_count b)

-- The members of a `Cuboid`, but for its pointer to the description.
pub record Cuboid : Type 0 where
  pub input_id : ℕ
  pub id : ℕ
  pub id_bytes : List ℕ
  pub dimension_columns : List ℕ

unfoldable pub get_base_cuboid_id : RowKeyDesc → ℕ
get_base_cuboid_id row_key = row_key.full_mask

-- The loop of `translated_id_to_columns`.
unfoldable pub columns_of : List RowKeyColDesc → ℕ → Option (List ℕ)
columns_of [] cuboid_id = some []
columns_of (c ∷ cs) cuboid_id = do
  bitmask ← one_shl c.bit_index
  rest ← columns_of cs cuboid_id
  some (if not (bit_and cuboid_id bitmask == 0) then c.col_ref ∷ rest else rest)

unfoldable pub translated_id_to_columns : RowKeyDesc → ℕ → Option (List ℕ)
translated_id_to_columns row_key cuboid_id = columns_of row_key.row_key_columns cuboid_id

-- The loop of `to_cuboid_id`, over the columns of the set that are left.
unfoldable pub or_columns : RowKeyDesc → List ℕ → ℕ → Option ℕ
or_columns row_key [] cuboid_id = some cuboid_id
or_columns row_key (column ∷ rest) cuboid_id = do
  index ← get_column_bit_index row_key column
  b ← one_shl index
  or_columns row_key rest (bit_or cuboid_id b)

unfoldable pub to_cuboid_id : RowKeyDesc → List ℕ → Option ℕ
to_cuboid_id row_key dimensions = or_columns row_key dimensions 0

-- The constructor.
unfoldable pub new_cuboid : RowKeyDesc → ℕ → ℕ → Option Cuboid
new_cuboid row_key original_id valid_id = do
  columns ← translated_id_to_columns row_key valid_id
  some (record {
    input_id = original_id;
    id = valid_id;
    id_bytes = long_to_bytes valid_id;
    dimension_columns = columns;
  })

unfoldable pub find_for_mandatory : RowKeyDesc → ℕ → Option Cuboid
find_for_mandatory row_key cuboid_id = new_cuboid row_key cuboid_id cuboid_id

-- `find_best_match_cuboid` is that of the scheduler; it may throw.
module _ (find_best_match_cuboid : ℕ → Option ℕ) (row_key : RowKeyDesc) where
  unfoldable pub find_by_long_id : ℕ → Option Cuboid
  find_by_long_id cuboid_id = do
    valid_cuboid_id ← find_best_match_cuboid cuboid_id
    new_cuboid row_key cuboid_id valid_cuboid_id

  unfoldable pub find_by_bytes_id : List ℕ → Option Cuboid
  find_by_bytes_id cuboid_id = do id ← bytes_to_long cuboid_id; find_by_long_id id

  unfoldable pub find_cuboid : List ℕ → Option Cuboid
  find_cuboid dimensions = do cuboid_id ← to_cuboid_id row_key dimensions; find_by_long_id cuboid_id

  unfoldable pub get_base_cuboid : Option Cuboid
  get_base_cuboid = find_by_long_id (get_base_cuboid_id row_key)
