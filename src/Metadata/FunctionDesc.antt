-- ===== src/Metadata/FunctionDesc.antt =====
-- src/core-metadata/metadata/model/function_desc and parameter_desc. The chain of `next_parameter`
-- is the list of the parameters.
use husky_kylin.Prelude.{
  ℕ, Bool, true, false, Option, some, List, [], ◌∷◌, ◌>>=◌, if◌then◌else◌, Text, codes, text_eq,
}
use husky_kylin.Cube.RowKey.{Columns}

-- `col_ref` is an address.
pub record ParameterDesc : Type 0 where
  pub parameter_type : Text
  pub value : Text
  pub col_ref : ℕ

pub record FunctionDesc : Type 0 where
  pub expression : Text
  pub parameters : List ParameterDesc

unfoldable pub is_column_type : ParameterDesc → Bool
is_column_type p = text_eq p.parameter_type (codes "column")

unfoldable pub is_min : FunctionDesc → Bool
is_min f = text_eq f.expression (codes "MIN")

unfoldable pub is_max : FunctionDesc → Bool
is_max f = text_eq f.expression (codes "MAX")

unfoldable pub is_sum : FunctionDesc → Bool
is_sum f = text_eq f.expression (codes "SUM")

unfoldable pub is_count : FunctionDesc → Bool
is_count f = text_eq f.expression (codes "COUNT")

-- `get_col_refs`, from this parameter on.
unfoldable pub get_col_refs : List ParameterDesc → List ℕ
get_col_refs [] = []
get_col_refs (p ∷ ps) =
    let rest = get_col_refs ps in if is_column_type p then p.col_ref ∷ rest else rest

-- The loop of `FunctionDesc::init`: a column that the model does not have is a null pointer, which
-- is dereferenced.
unfoldable pub init_parameters : Columns → List ParameterDesc → Option (List ParameterDesc)
init_parameters model [] = some []
init_parameters model (p ∷ ps) = elim (is_column_type p) [
  | true ↦ do
    col ← model.find_column p.value
    rest ← init_parameters model ps
    some (record p { value = model.identity col; col_ref = col } ∷ rest)
  | false ↦ do rest ← init_parameters model ps; some (p ∷ rest)
]
