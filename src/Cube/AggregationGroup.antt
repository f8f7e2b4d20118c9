-- ===== src/Cube/AggregationGroup.antt =====
-- src/core-cube/model/aggregation_group. The group's pointer to its cube enters by the base
-- cuboid id, where the code asks for it, and by the row key and the data model.
pub mod Tree
pub mod Dims
pub mod Init
use husky_kylin.Prelude.{
  ℕ, zero, suc, ◌+◌, bit_and, bit_or, bit_xor, ◌==◌, ltb, if◌then◌else◌, Bool, true, false, not,
  ◌&&◌, ◌||◌, Option, none, some, List, [], ◌∷◌, ◌++◌, ◌>>=◌, ◌>>◌, check, Text,
}
use husky_kylin.Word.{not_64, u64}
use husky_kylin.Cube.RowKey.{RowKeyDesc, Columns, one_shl, get_column_bit_index}

-- `normal_dims_mask_` is never assigned: a local of that name hides it.
pub record AggregationGroup : Type 0 where
  pub includes : List Text
  pub mandatory_dims : List Text
  pub partial_cube_full_mask : ℕ
  pub mandatory_column_mask : ℕ
  pub is_mandatory_only_valid : Bool
  pub normal_dims : List ℕ

unfoldable pub check_mandatory_columns : ℕ → AggregationGroup → ℕ → Bool
check_mandatory_columns base_cuboid_id agg cuboid_id =
    if not (bit_and cuboid_id agg.mandatory_column_mask == agg.mandatory_column_mask)
    then false
    else (if cuboid_id == base_cuboid_id
        then true
        else agg.is_mandatory_only_valid
          || not (bit_and cuboid_id (not_64 agg.mandatory_column_mask) == 0))

unfoldable pub is_on_tree : ℕ → AggregationGroup → ℕ → Bool
is_on_tree base_cuboid_id agg cuboid_id =
    if cuboid_id == 0
    then false
    else (if not (bit_and cuboid_id (not_64 agg.partial_cube_full_mask) == 0)
        then false
        else check_mandatory_columns base_cuboid_id agg cuboid_id)

-- The body of `if (!is_on_tree(cuboid_id))` is a comment.
unfoldable pub translate_to_on_tree_cuboid : AggregationGroup → ℕ → ℕ
translate_to_on_tree_cuboid agg cuboid_id =
    if ltb 0 (bit_and cuboid_id (not_64 agg.partial_cube_full_mask))
    then 0
    else bit_or cuboid_id agg.mandatory_column_mask

-- The loop of `bits`. It ends by its test, at the latest after 64 rounds.
unfoldable pub bits_loop : ℕ → ℕ → List ℕ → List ℕ
bits_loop zero l ret = ret
bits_loop (suc fuel) l ret = elim (l == 0) [
  | true ↦ ret
  | false ↦
      let low_bit = bit_and l (u64 (not_64 l + 1)) in
      bits_loop fuel (bit_xor l low_bit) (ret ++ low_bit ∷ [])
]

unfoldable pub bits : ℕ → List ℕ
bits x = bits_loop 65 x []

-- The loops of `build_partial_cube_full_mask` and `build_mandatory_column_mask`. A null pointer
-- is looked up in the row key like any other, and is not there. `find_column` also writes the names
-- in capitals; nothing reads them afterwards, and they stay here as they were.
unfoldable pub or_dims : Columns → RowKeyDesc → List Text → ℕ → Option ℕ
or_dims model row_key [] mask = some mask
or_dims model row_key (dim ∷ rest) mask = do
  h_col ← model.find_column dim
  index ← get_column_bit_index row_key h_col
  b ← one_shl index
  or_dims model row_key rest (bit_or mask b)

unfoldable pub is_empty {ℓ} : {A : Type ℓ} → List A → Bool
is_empty [] = true
is_empty (x ∷ xs) = false

unfoldable pub build_partial_cube_full_mask :
    Columns → RowKeyDesc → AggregationGroup → Option AggregationGroup
build_partial_cube_full_mask model row_key agg = do
  check (not (is_empty agg.includes))
  mask ← or_dims model row_key agg.includes 0
  some (record agg { partial_cube_full_mask = mask })

unfoldable pub build_mandatory_column_mask :
    Columns → RowKeyDesc → AggregationGroup → Option AggregationGroup
build_mandatory_column_mask model row_key agg = do
  mask ← or_dims model row_key agg.mandatory_dims 0
  some (record agg { mandatory_column_mask = mask })

unfoldable pub build_normal_dims_mask : AggregationGroup → AggregationGroup
build_normal_dims_mask agg = record agg {
  normal_dims = bits (bit_and agg.partial_cube_full_mask (not_64 agg.mandatory_column_mask));
}

unfoldable pub init : Columns → RowKeyDesc → AggregationGroup → Option AggregationGroup
init model row_key agg = do
  check (not (is_empty agg.includes))
  full ← build_partial_cube_full_mask model row_key agg
  mandatory ← build_mandatory_column_mask model row_key full
  some (build_normal_dims_mask mandatory)
