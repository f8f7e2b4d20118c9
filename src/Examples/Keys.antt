-- ===== src/Examples/Keys.antt =====
-- The row key of the cube of `Groups`, as it is built.
use husky_kylin.Prelude.{List, ℕ, ◌≡◌, arith, refl, [], ◌∷◌, some, codes, rfind, length}
use mathlib.Core.List.{Memᴰ}
use husky_kylin.Collections.Maps.{find, emplace}
use husky_kylin.Cube.RowKey.{
  RowKeyDesc, build_row_key, init_columns, init_column, set_encoding, parse_encoding_conf,
  insert_columns, or_bits, one_shl, get_column_bit_index, get_col_desc,
}
use husky_kylin.Cube.RowKey.Lookup.{
  IsLookedUp, IsRowKey, build_row_key-IsLookedUp, build_row_key-IsRowKey,
}
use husky_kylin.Cube.AggregationGroup.Init.{init-IsGroupOf}
use husky_kylin.Cube.AggregationGroup.{
  AggregationGroup, bits, bits_loop, init, build_partial_cube_full_mask,
  build_mandatory_column_mask, build_normal_dims_mask, or_dims, is_empty,
}
use husky_kylin.Cube.Cuboid.{translated_id_to_columns, to_cuboid_id}
use husky_kylin.Cube.Cuboid.Columns.{to_cuboid_id-translated_id_to_columns}
use husky_kylin.Collections.Sets.{insert_all}
use husky_kylin.Utils.Bits.Count.{ones_below}
use husky_kylin.Cube.Scheduler.Parents.{IsGroupOf}
use husky_kylin.Examples.Groups.{group, new_column, model, start}

abbrev keyed : RowKeyDesc
keyed = record start {
  row_key_columns =
      record (new_column (codes "A")) {
        bit_index = 2;
        col_ref = 65;
        encoding_name = codes "integer";
        encoding_args = codes "4" ∷ [];
      }
      ∷ record (new_column (codes "B")) {
        bit_index = 1;
        col_ref = 66;
        encoding_name = codes "integer";
        encoding_args = codes "4" ∷ [];
      }
      ∷ record (new_column (codes "C")) {
        bit_index = 0;
        col_ref = 67;
        encoding_name = codes "integer";
        encoding_args = codes "4" ∷ [];
      }
      ∷ [];
  full_mask = 7;
  column_map =
      (
        65,
        record (new_column (codes "A")) {
          bit_index = 2;
          col_ref = 65;
          encoding_name = codes "integer";
          encoding_args = codes "4" ∷ [];
        },
      )
      ∷ (
        66,
        record (new_column (codes "B")) {
          bit_index = 1;
          col_ref = 66;
          encoding_name = codes "integer";
          encoding_args = codes "4" ∷ [];
        },
      )
      ∷ (
        67,
        record (new_column (codes "C")) {
          bit_index = 0;
          col_ref = 67;
          encoding_name = codes "integer";
          encoding_args = codes "4" ∷ [];
        },
      )
      ∷ [];
}

keyed_built : build_row_key model start ≡ some keyed
unfolding build_row_key init_columns init_column set_encoding parse_encoding_conf insert_columns
    or_bits one_shl emplace rfind
keyed_built = refl

build_row_key-IsRowKey_example : IsRowKey keyed
build_row_key-IsRowKey_example =
    build_row_key-IsRowKey model start keyed ((_, refl), ((_, refl), ((_, refl), tt))) (omega arith)
      refl keyed_built

abbrev read_group : AggregationGroup
read_group = record group {
  partial_cube_full_mask = 0;
  mandatory_column_mask = 0;
  normal_dims = [];
}

init-read_group : init model keyed read_group ≡ some group
unfolding init build_partial_cube_full_mask build_mandatory_column_mask build_normal_dims_mask
    or_dims is_empty bits bits_loop get_column_bit_index get_col_desc find one_shl
init-read_group = refl

init-IsGroupOf_example : IsGroupOf 7 group
init-IsGroupOf_example =
    init-IsGroupOf model keyed read_group group
      (build_row_key-IsRowKey model start keyed ((_, refl), ((_, refl), ((_, refl), tt)))
        (omega arith) refl keyed_built)
      (Memᴰ.tail (Memᴰ.tail (Memᴰ.head refl)), tt) init-read_group

build_row_key-IsLookedUp_example : IsLookedUp keyed
build_row_key-IsLookedUp_example =
    build_row_key-IsLookedUp model start keyed ((_, refl), ((_, refl), ((_, refl), tt)))
      (omega arith) refl keyed_built
      (
        ((λ e. omega (arith, e)), ((λ e. omega (arith, e)), tt)),
        (((λ e. omega (arith, e)), tt), (tt, tt)),
      )

keyed-IsLookedUp : IsLookedUp keyed
unfolding get_column_bit_index get_col_desc find
keyed-IsLookedUp = record {
  bits = (refl, (refl, (refl, tt)));
  few = omega arith;
  known = (refl, (refl, (refl, tt)));
}

-- The columns 65 and 67 have the bits 2 and 0.
to_cuboid_id-translated_id_to_columns_example :
    (cols : List ℕ) × (translated_id_to_columns keyed 5 ≡ some cols)
    × (length cols ≡ ones_below 3 5)
    × (to_cuboid_id keyed (insert_all cols []) ≡ some 5)
to_cuboid_id-translated_id_to_columns_example =
    to_cuboid_id-translated_id_to_columns keyed 5 keyed-IsLookedUp (omega arith)
