-- ===== src/Examples/Model.antt =====
-- A model of one table with one column.
use husky_kylin.Prelude.{ℕ, ◌≡◌, arith, refl, some, [], ◌∷◌, codes, rfind, text_eq}
use husky_kylin.Collections.Maps.{find}
use husky_kylin.Collections.Dict.{get_or_else, lookup, put}
use husky_kylin.Metadata.DataModel.{
  TableRef, DataModelDesc, get_column, add_table_name, find_column,
}
use husky_kylin.Metadata.DataModel.Finding.{
  IsRegistered, IsColumn, add_table_name-IsRegistered, find_column-IsColumn,
}

abbrev table : TableRef
table = record { address = 5; alias = codes "T"; columns = (codes "C", 21) ∷ [] }

abbrev nothing : DataModelDesc
nothing = record { table_name_map = []; all_table_refs = [] }

nothing-IsRegistered : IsRegistered nothing
unfolding lookup
nothing-IsRegistered = record { ascending = tt; tried = λ name t h. absurd (ground (arith, h)) }

add_table_name-IsRegistered_example :
    IsRegistered (add_table_name (codes "T") table nothing)
    × (lookup (codes "T") (add_table_name (codes "T") table nothing).table_name_map
        ≡ some (get_or_else table (lookup (codes "T") nothing.table_name_map)))
unfolding find
add_table_name-IsRegistered_example =
    add_table_name-IsRegistered (codes "T") table nothing nothing-IsRegistered
      (λ other h. absurd (ground (arith, h)))

abbrev model : DataModelDesc
model = add_table_name (codes "T") table nothing

model-tables : lookup (codes "T") model.table_name_map ≡ some table
unfolding add_table_name lookup put text_eq
model-tables = refl

table-column : get_column table (codes "C") ≡ some 21
unfolding get_column lookup text_eq
table-column = refl

find_column-IsColumn_example :
    (other : ℕ) × (find_column (λ t. t) model (codes "C") ≡ some (some other))
    × IsColumn model.all_table_refs (codes "C") other
unfolding rfind
find_column-IsColumn_example =
    find_column-IsColumn (λ t. t) model (codes "T") (codes "C") table 21
      (add_table_name-IsRegistered_example.0) model-tables refl table-column
