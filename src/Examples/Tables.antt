-- ===== src/Examples/Tables.antt =====
-- A table of two rows and two columns.
use husky_kylin.Prelude.{◌≡◌, arith, refl, List, [], ◌∷◌, Text, codes}
use husky_kylin.Table.{get_data, new_table}
use husky_kylin.Table.Range.{cell, cell_or_abort, get_data-cell}

abbrev rows : List (List Text)
rows = (codes "a" ∷ codes "b" ∷ []) ∷ (codes "c" ∷ codes "d" ∷ []) ∷ []

get_data-cell_example : get_data (new_table rows (7 ∷ 8 ∷ [])) 1 0 ≡ cell_or_abort (cell rows 1 0)
get_data-cell_example =
    get_data-cell 2 rows (7 ∷ 8 ∷ []) 1 0 (refl, (refl, tt)) (omega (arith)) (omega (arith))
