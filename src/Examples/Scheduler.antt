-- ===== src/Examples/Scheduler.antt =====
-- The tree of the cube of `Groups`: 7 over 5 and 3, and 1 below 3.
use husky_kylin.Prelude.{ℕ, ◌≡◌, ◌≢◌, ◌⊎◌, arith, refl, true, List, [], ◌∷◌, some}
use husky_kylin.Collections.Maps.{at_or_empty}
use husky_kylin.Collections.Sets.{contains}
use husky_kylin.Word.Mask.{Sub}
use husky_kylin.Utils.Bits.{bit_count, bit_count_loop}
use husky_kylin.Collections.Sets.{insert, insert_all}
use husky_kylin.Collections.Maps.{push_back_at, find}
use husky_kylin.Cube.AggregationGroup.{is_on_tree, check_mandatory_columns}
use husky_kylin.Cube.Cuboid.{cuboid_select_comparator, get_base_cuboid_id}
use husky_kylin.Cube.Scheduler.{
  build_tree_bottom_up, get_on_tree_parent, fill_bit, fill_dims, parents_in_group, parents_loop,
  parents_in_groups, groups_of, min_element, check_dim_cap, keep_candidate, keep_candidates,
  get_on_tree_parents, get_lowest_cuboids, parents_of_all, get_on_tree_parents_by_layer,
  get_parent_on_promise, layers_loop, padding_loop,
}
use husky_kylin.Cube.Scheduler.Padding.{children_of}
use husky_kylin.Cube.Scheduler.Build.{
  IsTreeSet, build_tree_bottom_up_returns, build_tree_bottom_up-children,
  build_tree_bottom_up-parent,
}
use husky_kylin.Examples.Groups.{cube, cube-IsCube, narrow_cube}

build_tree_bottom_up_returns_example :
    (ids : List ℕ) × (parent2child : List (ℕ × List ℕ)) × (build_tree_bottom_up cube
      ≡ some (ids, parent2child))
    × IsTreeSet cube ids
build_tree_bottom_up_returns_example = build_tree_bottom_up_returns cube cube-IsCube

abbrev pub ids : List ℕ
ids = 1 ∷ 3 ∷ 5 ∷ 7 ∷ []

abbrev pub tree : List (ℕ × List ℕ)
tree = (3, 1 ∷ []) ∷ (7, 3 ∷ 5 ∷ []) ∷ []

abbrev pub narrow_ids : List ℕ
narrow_ids = 1 ∷ 3 ∷ 7 ∷ []

abbrev pub narrow_tree : List (ℕ × List ℕ)
narrow_tree = (3, 1 ∷ []) ∷ (7, 3 ∷ []) ∷ []

pub cube-tree : build_tree_bottom_up cube ≡ some (ids, tree)
unfolding build_tree_bottom_up get_on_tree_parent fill_bit fill_dims parents_in_group parents_loop
    parents_in_groups groups_of min_element check_dim_cap keep_candidate keep_candidates
    get_on_tree_parents get_lowest_cuboids parents_of_all get_on_tree_parents_by_layer
    get_parent_on_promise layers_loop padding_loop get_base_cuboid_id cuboid_select_comparator
    is_on_tree check_mandatory_columns push_back_at find insert insert_all contains bit_count
    bit_count_loop
cube-tree = refl

pub narrow_cube-tree : build_tree_bottom_up narrow_cube ≡ some (narrow_ids, narrow_tree)
unfolding build_tree_bottom_up get_on_tree_parent fill_bit fill_dims parents_in_group parents_loop
    parents_in_groups groups_of min_element check_dim_cap keep_candidate keep_candidates
    get_on_tree_parents get_lowest_cuboids parents_of_all get_on_tree_parents_by_layer
    get_parent_on_promise layers_loop padding_loop get_base_cuboid_id cuboid_select_comparator
    is_on_tree check_mandatory_columns push_back_at find insert insert_all contains bit_count
    bit_count_loop
narrow_cube-tree = refl

build_tree_bottom_up-children_example : at_or_empty 7 tree ≡ children_of cube 7 ids
build_tree_bottom_up-children_example =
    build_tree_bottom_up-children cube ids tree 7 cube-IsCube cube-tree (omega arith)

build_tree_bottom_up-parent_example :
    ((◌≡◌ {A = ℕ} 3 7) × (get_on_tree_parent cube 3 ≡ 0))
    ⊎ ((◌≢◌ {A = ℕ} 3 7)
        × (contains (get_on_tree_parent cube 3) ids ≡ true)
        × Sub 3 (get_on_tree_parent cube 3)
        × (3 ≢ get_on_tree_parent cube 3))
unfolding get_base_cuboid_id
build_tree_bottom_up-parent_example =
    build_tree_bottom_up-parent cube ids tree 3 cube-IsCube cube-tree (unfold contains in refl)
