-- ===== src/Table.antt =====
-- src/table/table: the rows of a flat table, with the indexes of its columns.
pub mod Range
use husky_kylin.Prelude.{
  ℕ, ◌+◌, ◌%◌, ◌^◌, ltb, leb, ◌==◌, if◌then◌else◌, Bool, true, false, Option, none, some, List, [],
  ◌∷◌, ◌>>=◌, ◌>>◌, check, length, get_elem?, Text,
}
use husky_kylin.Collections.Maps.{emplace}

-- The columns are addresses. The numbers of rows and columns are `uint32_t`.
pub record Table : Type 0 where
  pub row_num : ℕ
  pub column_num : ℕ
  pub columns : List ℕ
  pub raw_data : List (List Text)
  pub column_idx : List (ℕ × ℕ)

-- The size of the first row, and the initial 0 if there is none.
unfoldable pub first_size : List (List Text) → ℕ
first_size [] = 0
first_size (row ∷ rows) = length row % 2 ^ 32

unfoldable pub new_table : List (List Text) → List ℕ → Table
new_table raw_data columns =
    let row_num = length raw_data % 2 ^ 32 in
    record {
      row_num = row_num;
      column_num = if row_num == 0 then 0 else first_size raw_data;
      columns = columns;
      raw_data = raw_data;
      column_idx = [];
    }

unfoldable pub validate : Table → ℕ → ℕ → Bool
validate t row column =
    if t.row_num == 0
    then false
    else (if leb t.row_num row then false else (if leb t.column_num column then false else true))

-- What a read gives: the cell, the abort of the CHECK, or an index out of bounds, which is undefined.
pub data Fetch : Type 0 where
  fetched : Text → Fetch
  check_failed : Fetch
  out_of_bounds : Fetch

unfoldable pub read_cell : Option Text → Fetch
read_cell none = out_of_bounds
read_cell (some text) = fetched text

unfoldable pub get_data : Table → ℕ → ℕ → Fetch
get_data t row column =
    if validate t row column
    then read_cell (get_elem? t.raw_data row >>= λ cells. get_elem? cells column)
    else check_failed

unfoldable pub index_columns : List ℕ → ℕ → List (ℕ × ℕ) → List (ℕ × ℕ)
index_columns [] i indexes = indexes
index_columns (col ∷ cols) i indexes = index_columns cols (i + 1) (emplace col i indexes)

-- The indexes are computed once, and kept.
unfoldable pub get_column_idx : Table → List (ℕ × ℕ) × Table
get_column_idx t = elim t.column_idx [
  | [] ↦ let indexes = index_columns t.columns 0 [] in (indexes, record t { column_idx = indexes })
  | entry ∷ rest ↦ (entry ∷ rest, t)
]

-- The numbers of rows and columns stay.
unfoldable pub clear : Table → Table
clear t = record t { raw_data = [] }
