-- ===== src/Table/Range.antt =====
-- Which cells of a table can be read.
use husky_kylin.Prelude.{
  ℕ, zero, suc, ◌%◌, ◌^◌, ◌≤◌, ◌<◌, ◌≡◌, inl, inr, arith, refl, true, false, Option, none, List, [],
  ◌∷◌, ◌>>=◌, length, get_elem?, Text, lt_or_ge,
}
use husky_kylin.Collections.All.{All}
use husky_kylin.Prelude.{some}
use husky_kylin.Table.{
  Fetch, fetched, check_failed, read_cell, first_size, new_table, validate, get_data,
}

get_elem?-outside {ℓ} : {A : Type ℓ} (xs : List A) (i : ℕ) → length xs ≤ i → get_elem? xs i ≡ none
get_elem?-outside [] i h = refl
get_elem?-outside (x ∷ xs) zero h = absurd (omega (arith, h))
get_elem?-outside (x ∷ xs) (suc i) h = get_elem?-outside xs i (omega (arith, h))

get_elem?-inside {ℓ} :
    {A : Type ℓ} (xs : List A) (i : ℕ) → i < length xs → (a : A) × (get_elem? xs i ≡ some a)
get_elem?-inside [] i h = absurd (omega (arith, h))
get_elem?-inside (x ∷ xs) zero h = (x, refl)
get_elem?-inside (x ∷ xs) (suc i) h = get_elem?-inside xs i (omega (arith, h))

-- The cell at this place of the rows, if there is one.
abbrev pub cell : List (List Text) → ℕ → ℕ → Option Text
cell rows row column = get_elem? rows row >>= λ cells. get_elem? cells column

cell-outside :
    (width : ℕ) (rows : List (List Text)) (row column : ℕ)
    → All (λ cells. length cells ≡ width) rows
    → width ≤ column
    → cell rows row column ≡ none
cell-outside width [] row column same h = refl
cell-outside width (cells ∷ rows) zero column (e, same) h =
    get_elem?-outside cells column (omega (arith, e, h))
cell-outside width (cells ∷ rows) (suc row) column (e, same) h =
    cell-outside width rows row column same h

cell-below :
    (rows : List (List Text)) (row column : ℕ) → length rows ≤ row → cell rows row column ≡ none
cell-below rows row column h = rw (get_elem?-outside rows row h) refl

first_size-width :
    (width : ℕ) (first : List Text) (rows : List (List Text))
    → length first ≡ width
    → width < 2 ^ 32
    → first_size (first ∷ rows) ≡ width
unfolding first_size
first_size-width width first rows e small = omega (arith, e, small)

-- What a read of a cell that may not be there is to give: the cell, or the abort.
abbrev pub cell_or_abort : Option Text → Fetch
cell_or_abort none = check_failed
cell_or_abort (some text) = fetched text

-- The cell at a place inside a table of this width.
cell-inside :
    (width : ℕ) (rows : List (List Text)) (row column : ℕ)
    → All (λ cells. length cells ≡ width) rows
    → row < length rows
    → column < width
    → (text : Text) × (cell rows row column ≡ some text)
cell-inside width [] row column same below beside = absurd (omega (arith, below))
cell-inside width (cells ∷ rows) zero column (e, same) below beside =
    get_elem?-inside cells column (omega (arith, e, beside))
cell-inside width (cells ∷ rows) (suc row) column (e, same) below beside =
    cell-inside width rows row column same (omega (arith, below)) beside

-- A table whose rows all have the same number of cells, with fewer than 2 ^ 32 rows and cells in a
-- row: where the data have a cell, `get_data` returns it; at every other place its CHECK aborts, so
-- that no index is out of bounds.
pub get_data-cell :
    (width : ℕ) (rows : List (List Text)) (columns : List ℕ) (row column : ℕ)
    → All (λ cells. length cells ≡ width) rows
    → width < 2 ^ 32
    → length rows < 2 ^ 32
    → get_data (new_table rows columns) row column ≡ cell_or_abort (cell rows row column)
unfolding get_data new_table validate read_cell
get_data-cell width [] columns row column same small few = refl
get_data-cell width (first ∷ rows) columns row column (e, same) small few =
    let t = new_table (first ∷ rows) columns in
    let tall : length (first ∷ rows) % 2 ^ 32 ≡ suc (length rows) = omega (arith, few) in
    let wide = first_size-width width first rows e small in
    elim (lt_or_ge row (suc (length rows))) [
      | inr below ↦
          let bad : validate t row column ≡ false = ground (arith, tall, below) in
          rw (get_data, bad, cell-below (first ∷ rows) row column below) refl
      | inl inside ↦ elim (lt_or_ge column width) [
        | inr beside ↦
            let bad : validate t row column ≡ false = ground (arith, tall, wide, inside, beside) in
            rw (get_data, bad, cell-outside width (first ∷ rows) row column (e, same) beside) refl
        | inl there ↦
            let good : validate t row column ≡ true = ground (arith, tall, wide, inside, there) in
            let (text, it) = cell-inside width (first ∷ rows) row column (e, same) inside there in
            rw (get_data, good, it) refl
      ]
    ]
