-- ===== src/Cube/Desc.antt =====
-- src/core-cube/model/cube_desc: the part of a cube's description that its cuboids depend on.
use husky_kylin.Prelude.{ℕ, List, Text}
use husky_kylin.Cube.RowKey.{RowKeyDesc}
use husky_kylin.Cube.AggregationGroup.{AggregationGroup}

-- `parent_forward`, an `int` in the source, counts steps and is not negative here.
pub record CubeDesc : Type 0 where
  pub name : Text
  pub model_name : Text
  pub row_key : RowKeyDesc
  pub aggregation_groups : List AggregationGroup
  pub parent_forward : ℕ
