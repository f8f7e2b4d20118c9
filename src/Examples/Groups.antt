-- ===== src/Examples/Groups.antt =====
-- A cube of three columns with one group, whose last column is mandatory.
use husky_kylin.Prelude.{
  ℕ, ◌≡◌, ◌<◌, ◌↔◌, ◌⊎◌, arith, refl, true, [], ◌∷◌, some, none, Text, codes, length,
}
use husky_kylin.Word.Digit.{bit}
use husky_kylin.Word.Mask.{Sub, Sub-refl, bit_and-eq_iff}
use husky_kylin.Cube.RowKey.{RowKeyDesc, RowKeyColDesc, Columns, build_row_key}
use husky_kylin.Cube.RowKey.Build.{HasBits, build_row_key_lem}
use husky_kylin.Cube.AggregationGroup.{
  AggregationGroup, check_mandatory_columns, is_on_tree, translate_to_on_tree_cuboid, bits,
}
use husky_kylin.Cube.AggregationGroup.Tree.{
  IsGroup, is_on_tree_iff, translate_to_on_tree_cuboid_least,
}
use husky_kylin.Cube.AggregationGroup.Dims.{bits_lem, powers_from}
use husky_kylin.Cube.Cuboid.{get_base_cuboid_id}
use husky_kylin.Cube.Desc.{CubeDesc}
use husky_kylin.Cube.Scheduler.Parents.{IsGroupOf}
use husky_kylin.Cube.Scheduler.Family.{IsCube}

abbrev pub group : AggregationGroup
group = record {
  includes = codes "A" ∷ codes "B" ∷ codes "C" ∷ [];
  mandatory_dims = codes "C" ∷ [];
  partial_cube_full_mask = 7;
  mandatory_column_mask = 1;
  is_mandatory_only_valid = true;
  normal_dims = 2 ∷ 4 ∷ [];
}

pub group-IsGroup : IsGroup group
group-IsGroup = record { full_word = omega arith; mandatory_in_full = (bit_and-eq_iff 7 1).0 refl }

group-IsGroupOf : IsGroupOf 7 group
unfolding powers_from bit
group-IsGroupOf = record { group = group-IsGroup; included = Sub-refl 7; dims = refl }

abbrev pub new_column : Text → RowKeyColDesc
new_column name = record {
  column = name;
  encoding = codes "integer:4";
  encoding_name = [];
  encoding_args = [];
  bit_index = 0;
  col_ref = 0;
}

abbrev pub model : Columns
model = record {
  find_column = λ name. elim name [ [] ↦ none | c ∷ cs ↦ some c ];
  identity = λ col. col ∷ [];
}

abbrev pub start : RowKeyDesc
start = record {
  row_key_columns = new_column (codes "A") ∷ new_column (codes "B") ∷ new_column (codes "C") ∷ [];
  full_mask = 0;
  column_map = [];
}

build_row_key_lem_example :
    (out : RowKeyDesc) × (build_row_key model start ≡ some out)
    × HasBits out.row_key_columns
    × (length out.row_key_columns ≡ 3)
    × (out.full_mask ≡ 7)
build_row_key_lem_example =
    build_row_key_lem model start ((_, refl), ((_, refl), ((_, refl), tt))) (omega arith)

abbrev pub cube : CubeDesc
cube = record {
  name = codes "cube";
  model_name = codes "model";
  row_key = record start { full_mask = 7 };
  aggregation_groups = group ∷ [];
  parent_forward = 3;
}

pub cube-IsCube : IsCube cube
unfolding get_base_cuboid_id
cube-IsCube = record { word = omega arith; pos = omega arith; groups = (group-IsGroupOf, tt) }

is_on_tree_iff_example :
    (is_on_tree 7 group 5 ≡ true)
    ↔ ((0 < 5) × Sub 5 7 × Sub 1 5 × ((◌≡◌ {A = ℕ} 5 7) ⊎ (◌≡◌ true true) ⊎ ¬ (Sub 5 1)))
is_on_tree_iff_example = is_on_tree_iff 7 group 5 group-IsGroup (omega arith)

five_on_tree : is_on_tree 7 group 5 ≡ true
unfolding is_on_tree check_mandatory_columns
five_on_tree = refl

translate_to_on_tree_cuboid_least_example :
    (is_on_tree 7 group (translate_to_on_tree_cuboid group 4) ≡ true)
    × Sub 4 (translate_to_on_tree_cuboid group 4)
    × Sub (translate_to_on_tree_cuboid group 4) 5
translate_to_on_tree_cuboid_least_example =
    translate_to_on_tree_cuboid_least 7 group 4 5 group-IsGroup refl (omega arith) (omega arith)
      five_on_tree ((bit_and-eq_iff 5 4).0 refl)

bits_lem_example : bits 6 ≡ 2 ∷ 4 ∷ []
unfolding powers_from bit
bits_lem_example = bits_lem 6 (omega arith)

-- The group of the first cube without its first column: the cuboids with it are not on the tree.
abbrev pub narrow_group : AggregationGroup
narrow_group = record {
  includes = codes "B" ∷ codes "C" ∷ [];
  mandatory_dims = codes "C" ∷ [];
  partial_cube_full_mask = 3;
  mandatory_column_mask = 1;
  is_mandatory_only_valid = true;
  normal_dims = 2 ∷ [];
}

abbrev pub narrow_cube : CubeDesc
narrow_cube = record cube { aggregation_groups = narrow_group ∷ [] }

narrow_group-IsGroupOf : IsGroupOf 7 narrow_group
unfolding powers_from bit
narrow_group-IsGroupOf = record {
  group = record { full_word = omega arith; mandatory_in_full = (bit_and-eq_iff 3 1).0 refl };
  included = (bit_and-eq_iff 7 3).0 refl;
  dims = refl;
}

pub narrow_cube-IsCube : IsCube narrow_cube
unfolding get_base_cuboid_id
narrow_cube-IsCube = record {
  word = omega arith;
  pos = omega arith;
  groups = (narrow_group-IsGroupOf, tt);
}
