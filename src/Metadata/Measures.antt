-- ===== src/Metadata/Measures.antt =====
-- src/core-metadata/measure: the aggregators of the measures of a cube.
use husky_kylin.Prelude.{
  ◌||◌, if◌then◌else◌, Bool, true, Option, none, some, List, [], ◌∷◌, ◌>>=◌, Text, codes, text_eq,
}
use husky_kylin.Metadata.DataType.{DataType, is_integer_family, is_number_family}

-- With a return type; a null pointer in its place is not modelled.
pub record BasicMeasureType : Type 0 where
  pub func_name : Text
  pub data_type : DataType

-- The classes of aggregators; the last is the base class, whose `aggregate` does nothing.
pub data MeasureAggregator : Type 0 where
  big_decimal_sum_aggregator : MeasureAggregator
  long_sum_aggregator : MeasureAggregator
  double_sum_aggregator : MeasureAggregator
  measure_aggregator : MeasureAggregator

abbrev pub is_decimal : DataType → Bool
is_decimal t = text_eq t.name (codes "decimal")

unfoldable pub sum_aggregator : DataType → MeasureAggregator
sum_aggregator t =
    if is_decimal t
    then big_decimal_sum_aggregator
    else (if is_integer_family t
        then long_sum_aggregator
        else (if is_number_family t then double_sum_aggregator else measure_aggregator))

-- The other functions have no aggregator of their own yet.
unfoldable pub new_aggregator : BasicMeasureType → MeasureAggregator
new_aggregator m =
    if text_eq m.func_name (codes "COUNT") || text_eq m.func_name (codes "SUM")
    then sum_aggregator m.data_type
    else measure_aggregator

-- Whether the CHECK of `validate` passes.
unfoldable pub validate_measure : BasicMeasureType → Bool
validate_measure m =
    if text_eq m.func_name (codes "SUM")
    then is_number_family m.data_type
    else (if text_eq m.func_name (codes "COUNT")
        then is_integer_family m.data_type
        else (if text_eq m.func_name (codes "MAX") || text_eq m.func_name (codes "MIN")
            then is_number_family m.data_type
            else true))

-- The sum of two numbers that are texts, with `std::stod` or `std::stoll` and `std::to_string`; it
-- is `none` where one of them throws.
pub record Sums : Type 0 where
  pub sum_of_doubles : Text → Text → Option Text
  pub sum_of_longs : Text → Text → Option Text

unfoldable pub aggregate : Sums → MeasureAggregator → Text → Text → Option Text
aggregate sums big_decimal_sum_aggregator val inc = sums.sum_of_doubles val inc
aggregate sums long_sum_aggregator val inc = sums.sum_of_longs val inc
aggregate sums double_sum_aggregator val inc = sums.sum_of_doubles val inc
aggregate sums measure_aggregator val inc = some val

unfoldable pub new_aggregators : List BasicMeasureType → List MeasureAggregator
new_aggregators [] = []
new_aggregators (m ∷ ms) = new_aggregator m ∷ new_aggregators ms

-- All values in place; an index that runs over the aggregators or the values is `none`.
unfoldable pub aggregate_all :
    Sums → List MeasureAggregator → List Text → List Text → Option (List Text)
aggregate_all sums aggregators val [] = some val
aggregate_all sums (a ∷ aggregators) (v ∷ val) (i ∷ inc) = do
  sum ← aggregate sums a v i
  rest ← aggregate_all sums aggregators val inc
  some (sum ∷ rest)
aggregate_all _ _ _ _ = none
