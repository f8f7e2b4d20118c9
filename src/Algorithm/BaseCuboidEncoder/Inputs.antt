-- ===== src/Algorithm/BaseCuboidEncoder/Inputs.antt =====
-- The inputs of the measures of a row.
use husky_kylin.Prelude.{
  ℕ, ◌+◌, ◌≡◌, inl, inr, arith, refl, ap, ap₂, sym, subst, ◌∙◌, Bool, true, false, Bool-cases,
  Option, none, some, List, [], ◌∷◌, ◌++◌, ◌>>=◌, >>=-eq-some, length, get_elem?, Text, codes,
  if◌then◌else◌,
}
use husky_kylin.Collections.Maps.{find}
use husky_kylin.Collections.Dict.{get_or_else}
use husky_kylin.Metadata.FunctionDesc.{
  ParameterDesc, FunctionDesc, is_column_type, is_count, get_col_refs,
}
use husky_kylin.Algorithm.BaseCuboidEncoder.{
  column_indexes, function_columns, measure_indexes, input_loop, get_input_to_measure, delimited,
  get_string_value, get_string_values,
}

-- What a measure gets for one parameter: 1 if it counts, the value of the parameter's column in the
-- row, or the constant.
abbrev pub input_of : Bool → List (ℕ × ℕ) → List Text → ParameterDesc → Option Text
input_of true flat row p = some (codes "1")
input_of false flat row p =
    if is_column_type p then (do idx ← find p.col_ref flat; get_elem? row idx) else some p.value

abbrev pub inputs_of : Bool → List (ℕ × ℕ) → List Text → List ParameterDesc → Option (List Text)
inputs_of count flat row [] = some []
inputs_of count flat row (p ∷ ps) = do
  value ← input_of count flat row p
  rest ← inputs_of count flat row ps
  some (value ∷ rest)

get_elem?-append :
    (before : List ℕ) (x : ℕ) (after : List ℕ)
    → get_elem? (before ++ x ∷ after) (length before) ≡ some x
get_elem?-append [] x after = refl
get_elem?-append (b ∷ before) x after = get_elem?-append before x after

length-snoc : (before : List ℕ) (x : ℕ) → length (before ++ x ∷ []) ≡ length before + 1
length-snoc [] x = omega arith
length-snoc (b ∷ before) x = omega (arith, length-snoc before x)

append_snoc :
    (before : List ℕ) (x : ℕ) (after : List ℕ) → (before ++ x ∷ []) ++ after ≡ before ++ x ∷ after
append_snoc [] x after = refl
append_snoc (b ∷ before) x after = ap (λ t. b ∷ t) (append_snoc before x after)

some_same : (xs ys : List ℕ) → some xs ≡ some ys → xs ≡ ys
some_same xs ys h = ap (get_or_else []) h

module _ (flat : List (ℕ × ℕ)) (row : List Text) where
  counting-inputs :
      (column_idx : List ℕ) (ps : List ParameterDesc) (col_idx : ℕ)
      → input_loop true column_idx row ps col_idx ≡ inputs_of true flat row ps
  unfolding input_loop
  counting-inputs column_idx [] col_idx = refl
  counting-inputs column_idx (p ∷ ps) col_idx = rw (counting-inputs column_idx ps col_idx) refl

  column-step :
      (before more : List ℕ) (idx : ℕ) (p : ParameterDesc) (ps : List ParameterDesc)
      → is_column_type p ≡ true
      → find p.col_ref flat ≡ some idx
      → input_loop false (before ++ idx ∷ more) row ps (length before + 1)
        ≡ inputs_of false flat row ps
      → input_loop false (before ++ idx ∷ more) row (p ∷ ps) (length before)
        ≡ inputs_of false flat row (p ∷ ps)
  unfolding input_loop
  column-step before more idx p ps column found rest =
      rw (input_loop, column, get_elem?-append before idx more, found, rest) refl

  column-inputs :
      (before after : List ℕ) (ps : List ParameterDesc)
      → column_indexes flat (get_col_refs ps) ≡ some after
      → input_loop false (before ++ after) row ps (length before) ≡ inputs_of false flat row ps
  unfolding input_loop get_col_refs column_indexes
  column-inputs before after [] h = refl
  column-inputs before after (p ∷ ps) h = elim (Bool-cases (is_column_type p)) [
    | inr constant ↦
        let rest = column-inputs before after ps (ground (arith, constant, h)) in
        rw (input_loop, constant, rest) refl
    | inl column ↦
        let listed : (find p.col_ref flat >>= λ idx.
        column_indexes flat (get_col_refs ps) >>= λ more. some (idx ∷ more))
            ≡ some after =
          ground (arith, column, h) in
        let (idx, found, rest_found) = >>=-eq-some (find p.col_ref flat) _ after listed in
        let (more, found_more, same) =
          >>=-eq-some (column_indexes flat (get_col_refs ps)) _ after rest_found in
        let next : input_loop false (before ++ idx ∷ more) row ps (length before + 1)
            ≡ inputs_of false flat row ps =
          ap₂ (λ xs n. input_loop false xs row ps n) (sym (append_snoc before idx more))
            (sym (length-snoc before idx))
          ∙ column-inputs (before ++ idx ∷ []) more ps found_more in
        subst
          (λ xs.
            input_loop false (before ++ xs) row (p ∷ ps) (length before)
            ≡ inputs_of false flat row (p ∷ ps))
          (some_same (idx ∷ more) after same) (column-step before more idx p ps column found next)
  ]

  inputs-of_function :
      (f : FunctionDesc) (cols column_idx : List ℕ)
      → function_columns f ≡ some cols
      → column_indexes flat cols ≡ some column_idx
      → get_input_to_measure f column_idx row ≡ inputs_of (is_count f) flat row f.parameters
  unfolding get_input_to_measure function_columns
  inputs-of_function f cols column_idx known found =
      let listed : column_indexes flat (get_col_refs f.parameters) ≡ some column_idx =
        ap (column_indexes flat) (columns_known f.parameters cols known) ∙ found in
      by_count (is_count f) listed
    where
      columns_known :
          (ps : List ParameterDesc) (cols : List ℕ)
          → (elim ps as (λ x. Option (List ℕ)) [
            | [] ↦ none
            | q ∷ qs ↦ some (get_col_refs (q ∷ qs))
          ])
            ≡ some cols
          → get_col_refs ps ≡ cols
      columns_known [] cols h = absurd (ground (arith, h))
      columns_known (q ∷ qs) cols h = some_same (get_col_refs (q ∷ qs)) cols h

      by_count :
          (count : Bool)
          → column_indexes flat (get_col_refs f.parameters) ≡ some column_idx
          → input_loop count column_idx row f.parameters 0 ≡ inputs_of count flat row f.parameters
      by_count true h = counting-inputs column_idx f.parameters 0
      by_count false h = column-inputs [] column_idx f.parameters h

  -- The string of a measure: its inputs with colons between.
  abbrev pub string_of : FunctionDesc → Option Text
  string_of f = do
    inputs ← inputs_of (is_count f) flat row f.parameters
    elim inputs as (λ x. Option Text) [ [] ↦ none | t ∷ ts ↦ some (t ++ delimited ts) ]

  abbrev pub strings_of : List FunctionDesc → Option (List Text)
  strings_of [] = some []
  strings_of (f ∷ fs) = do value ← string_of f; rest ← strings_of fs; some (value ∷ rest)

  -- With the indexes that the constructor computes for the measures, `get_string_values` gives each
  -- measure the string of its own parameters: 1 for each parameter of a count, else the value that
  -- the row has in the parameter's column, or the constant; it fails exactly if one of these is
  -- missing.
  pub get_string_values-strings_of :
      (fs : List FunctionDesc) (indexes : List (List ℕ))
      → measure_indexes flat fs ≡ some indexes
      → get_string_values fs indexes row ≡ strings_of fs
  unfolding measure_indexes get_string_values get_string_value
  get_string_values-strings_of [] indexes h = refl
  get_string_values-strings_of (f ∷ fs) indexes h =
      let (cols, known, h1) = >>=-eq-some (function_columns f) _ indexes h in
      let (column_idx, found, h2) = >>=-eq-some (column_indexes flat cols) _ indexes h1 in
      let (more, rest, same) = >>=-eq-some (measure_indexes flat fs) _ indexes h2 in
      let one = inputs-of_function f cols column_idx known found in
      let others = get_string_values-strings_of fs more rest in
      subst (λ xs. get_string_values (f ∷ fs) xs row ≡ strings_of (f ∷ fs))
        (some_lists (column_idx ∷ more) indexes same) (rw (one, others) refl)
    where
      some_lists : (xs ys : List (List ℕ)) → some xs ≡ some ys → xs ≡ ys
      some_lists xs ys e = ap (get_or_else []) e
