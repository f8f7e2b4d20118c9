-- ===== src/Metadata/DataModel.antt =====
-- src/core-metadata/metadata/model/data_model_desc and table_ref: the tables by name, and the search
-- for a column. `boost::to_upper` is a parameter. A null pointer to a column is `none` inside the
-- result; a failed CHECK is `none`.
pub mod Finding
use husky_kylin.Prelude.{
  ℕ, suc, ◌+◌, Option, none, some, List, [], ◌∷◌, ◌>>=◌, Text, rfind, take, drop,
}
use husky_kylin.Collections.Maps.{emplace}
use husky_kylin.Collections.Dict.{lookup, put}

-- `columns_` maps a name to the address of a column.
pub record TableRef : Type 0 where
  pub address : ℕ
  pub alias : Text
  pub columns : List (Text × ℕ)

-- `all_table_refs_` is ordered by the addresses of the tables.
pub record DataModelDesc : Type 0 where
  pub table_name_map : List (Text × TableRef)
  pub all_table_refs : List (ℕ × TableRef)

unfoldable pub get_column : TableRef → Text → Option ℕ
get_column table name = lookup name table.columns

-- A name that is known keeps its table.
unfoldable pub add_table_name : Text → TableRef → DataModelDesc → DataModelDesc
add_table_name name ref model = elim (lookup name model.table_name_map) [
  | some known ↦ model
  | none ↦ record model {
    table_name_map = put name ref model.table_name_map;
    all_table_refs = emplace ref.address ref model.all_table_refs;
  }
]

unfoldable pub try_tables : List (ℕ × TableRef) → Text → Option ℕ
try_tables [] column = none
try_tables ((address, table) ∷ tables) column = elim (get_column table column) [
  | some col ↦ some col
  | none ↦ try_tables tables column
]

module _ (to_upper : Text → Text) (model : DataModelDesc) where
  unfoldable pub find_table : Text → Option TableRef
  find_table table = lookup (to_upper table) model.table_name_map

  unfoldable pub find_table_column : Text → Text → Option (Option ℕ)
  find_table_column table column = do
    table_ref ← find_table table
    some (get_column table_ref (to_upper column))

  -- The column is converted in place.
  unfoldable pub find_column : Text → Option (Option ℕ)
  find_column column =
      let upper = to_upper column in
      elim (rfind b'.' upper) [
        | none ↦ some (try_tables model.all_table_refs upper)
        | some cut ↦ find_table_column (take cut upper) (drop (cut + 1) upper)
      ]
