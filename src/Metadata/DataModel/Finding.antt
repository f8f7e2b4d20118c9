-- ===== src/Metadata/DataModel/Finding.antt =====
-- Which columns are found without a table's name.
use husky_kylin.Prelude.{
  ℕ, ◌≡◌, inl, inr, arith, refl, sym, ap, subst, ◌∙◌, Option-cases, none, some, List, [], ◌∷◌, Text,
  rfind, text_same_or_ne, eq_or_ne,
}
use husky_kylin.Collections.Maps.{
  find, emplace, HasKeysAscending, find-emplace_self, find-emplace_keep, emplace-HasKeysAscending,
  KeysAbove-find,
}
use husky_kylin.Collections.Dict.{get_or_else, lookup, put, lookup-put_self, lookup-put_other}
use husky_kylin.Metadata.DataModel.{
  TableRef, DataModelDesc, get_column, add_table_name, try_tables, find_column,
}

-- Every table that has a name is among those that are tried, at its address.
pub record IsRegistered (model : DataModelDesc) : Type 0 where
  pub ascending : HasKeysAscending model.all_table_refs
  pub tried :
      (name : Text) (table : TableRef)
      → lookup name model.table_name_map ≡ some table
      → find table.address model.all_table_refs ≡ some table

same_some : (a b : TableRef) → some a ≡ some b → a ≡ b
same_some a b h = ap (get_or_else a) h

-- The new table is found at its address, if no other one is there.
added_found :
    (ref : TableRef) (tables : List (ℕ × TableRef))
    → HasKeysAscending tables
    → ((other : TableRef) → find ref.address tables ≡ some other → other ≡ ref)
    → find ref.address (emplace ref.address ref tables) ≡ some ref
added_found ref tables a alone = elim (Option-cases (find ref.address tables)) [
  | inl e ↦ find-emplace_self ref.address ref tables e
  | inr (other, e) ↦
      find-emplace_keep ref.address ref.address ref other tables a e ∙ ap some (alone other e)
]

-- `add_table_name` of a table whose address no other table has: every table that has a name stays
-- among those that are tried, and the name is that of the table that it had before, or of the new
-- one.
pub add_table_name-IsRegistered :
    (name : Text) (ref : TableRef) (model : DataModelDesc)
    → IsRegistered model
    → ((other : TableRef) → find ref.address model.all_table_refs ≡ some other → other ≡ ref)
    → IsRegistered (add_table_name name ref model)
      × (lookup name (add_table_name name ref model).table_name_map
          ≡ some (get_or_else ref (lookup name model.table_name_map)))
unfolding add_table_name
add_table_name-IsRegistered name ref model r alone =
    elim (Option-cases (lookup name model.table_name_map)) [
      | inr (known, e) ↦ rw (add_table_name, e) (r, e)
      | inl e ↦
          let tables = emplace ref.address ref model.all_table_refs in
          let names = put name ref model.table_name_map in
          let tried : (i : Text) (table : TableRef)
              → lookup i names ≡ some table
              → find table.address tables ≡ some table =
            λ i table h. elim (text_same_or_ne i name) [
              | inl same ↦
                  let it : ref ≡ table = same_some ref table (
                    sym (lookup-put_self name ref model.table_name_map)
                    ∙ ap (λ x. lookup x names) (sym same)
                    ∙ h) in
                  subst (λ t. find t.address tables ≡ some t) it
                    (added_found ref model.all_table_refs r.ascending alone)
              | inr ne ↦
                  find-emplace_keep table.address ref.address ref table model.all_table_refs
                    r.ascending
                    (r.tried i table
                      (sym (lookup-put_other i name ref model.table_name_map ne) ∙ h))
            ] in
          rw (add_table_name, e)
            (
              record {
                ascending =
                    emplace-HasKeysAscending ref.address ref model.all_table_refs r.ascending;
                tried = tried;
              },
              lookup-put_self name ref model.table_name_map,
            )
    ]

-- A column of a table that is tried.
pub record IsColumn (tables : List (ℕ × TableRef)) (column : Text) (col : ℕ) : Type 0 where
  pub place : ℕ
  pub table : TableRef
  pub there : find place tables ≡ some table
  pub has : get_column table column ≡ some col

-- Looking further than the first table that is tried.
later-IsColumn :
    (address : ℕ) (table : TableRef) (tables : List (ℕ × TableRef)) (column : Text) (col : ℕ)
    → HasKeysAscending ((address, table) ∷ tables)
    → IsColumn tables column col
    → IsColumn ((address, table) ∷ tables) column col
unfolding find
later-IsColumn address table tables column col a i = elim (eq_or_ne i.place address) [
  | inl same ↦ absurd (
      ground (
        arith,
        i.there,
        ap (λ k. find k tables) same,
        KeysAbove-find address address tables (omega arith) a,
      ))
  | inr ne ↦ record {
    place = i.place;
    table = i.table;
    there = ground (arith, ne, i.there);
    has = i.has;
  }
]

tail-HasKeysAscending :
    (address : ℕ) (table : TableRef) (tables : List (ℕ × TableRef))
    → HasKeysAscending ((address, table) ∷ tables)
    → HasKeysAscending tables
tail-HasKeysAscending address table [] a = tt
tail-HasKeysAscending address table ((b, u) ∷ tables) (lt, a) = a

try_tables-IsColumn :
    (tables : List (ℕ × TableRef)) (place : ℕ) (table : TableRef) (column : Text) (col : ℕ)
    → HasKeysAscending tables
    → find place tables ≡ some table
    → get_column table column ≡ some col
    → (other : ℕ) × (try_tables tables column ≡ some other) × IsColumn tables column other
unfolding try_tables find
try_tables-IsColumn [] place table column col a e h = absurd (ground (arith, e))
try_tables-IsColumn ((address, first) ∷ tables) place table column col a e h =
    elim (Option-cases (get_column first column)) [
      | inr (c, got) ↦ (
        c,
        rw (try_tables, got) refl,
        record { place = address; table = first; there = ground arith; has = got },
      )
      | inl missing ↦ elim (eq_or_ne place address) [
        | inl same ↦
            let it : first ≡ table = same_some first table (ground (arith, same, e)) in
            absurd (ground (arith, missing, ap (λ t. get_column t column) it, h))
        | inr ne ↦
            let (other, found, i) =
              try_tables-IsColumn tables place table column col
                (tail-HasKeysAscending address first tables a) (ground (arith, ne, e)) h in
            (
              other,
              rw (try_tables, missing) found,
              later-IsColumn address first tables column other a i,
            )
      ]
    ]

-- In a model all of whose named tables are tried: a column name without a dot that a named table
-- has, in upper case, is found in some table of the model that has it.
pub find_column-IsColumn :
    (to_upper : Text → Text) (model : DataModelDesc) (name column : Text) (table : TableRef)
    (col : ℕ)
    → IsRegistered model
    → lookup name model.table_name_map ≡ some table
    → rfind b'.' (to_upper column) ≡ none
    → get_column table (to_upper column) ≡ some col
    → (other : ℕ) × (find_column to_upper model column ≡ some (some other))
      × IsColumn model.all_table_refs (to_upper column) other
unfolding find_column
find_column-IsColumn to_upper model name column table col r named plain has =
    let (other, found, i) =
      try_tables-IsColumn model.all_table_refs table.address table (to_upper column) col r.ascending
        (r.tried name table named) has in
    (other, rw (find_column, plain, found) refl, i)
