-- ===== src/Cube/Scheduler.antt =====
-- src/core-cube/cuboid/cuboid_scheduler: the cuboids that the aggregation groups ask for, and the
-- tree of them by which each is computed from a parent. Sets are `Collections.Sets`, the map from
-- a parent to its children is `Collections.Maps`.
pub mod Parents
pub mod Family
pub mod Exists
pub mod ByLayer
pub mod Layers
pub mod Padding
pub mod Build
pub mod Match
pub mod Miss
use husky_kylin.Prelude.{
  ℕ, zero, suc, ◌+◌, ◌-◌, ◌^◌, bit_and, bit_or, ◌==◌, ltb, leb, if◌then◌else◌, Bool, true, false,
  not, ◌&&◌, ◌||◌, Option, none, some, List, [], ◌∷◌, ◌++◌, ◌>>=◌, ◌>>◌, check, length, map,
}
use husky_kylin.Collections.Sets.{insert, insert_all, contains}
use husky_kylin.Collections.Maps.{push_back_at, find}
use husky_kylin.Cube.AggregationGroup.{AggregationGroup, is_on_tree, translate_to_on_tree_cuboid}
use husky_kylin.Cube.Cuboid.{cuboid_select_comparator, get_base_cuboid_id}
use husky_kylin.Cube.Desc.{CubeDesc}

-- `fill_bit`: the result and the collection afterwards.
unfoldable pub fill_bit : ℕ → ℕ → List ℕ → Bool × List ℕ
fill_bit origin other collection =
    if not (bit_and origin other == other)
    then (true, insert (bit_or origin other) collection)
    else (false, collection)

-- The loop over the normal dimensions.
unfoldable pub fill_dims : ℕ → List ℕ → List ℕ → List ℕ
fill_dims child [] collection = collection
fill_dims child (normal ∷ rest) collection =
    fill_dims child rest (fill_bit child normal collection).1

-- `get_on_tree_parents(child, agg)`.
unfoldable pub parents_in_group : ℕ → AggregationGroup → List ℕ
parents_in_group child agg =
    if child == agg.partial_cube_full_mask
    then []
    else (if not (agg.mandatory_column_mask == 0)
        then (if agg.is_mandatory_only_valid
            then (let (filled, parents) = fill_bit child agg.mandatory_column_mask [] in
                if filled then parents else fill_dims child agg.normal_dims parents)
            else fill_dims (bit_or child agg.mandatory_column_mask) agg.normal_dims [])
        else fill_dims child agg.normal_dims [])

-- The loop of `get_on_tree_parents(child, groups)`.
unfoldable pub parents_loop : ℕ → ℕ → List AggregationGroup → List ℕ → List ℕ
parents_loop base child [] candidates = candidates
parents_loop base child (agg ∷ rest) candidates =
    if child == agg.partial_cube_full_mask
    then insert base candidates
    else parents_loop base child rest (insert_all (parents_in_group child agg) candidates)

unfoldable pub parents_in_groups : ℕ → ℕ → List AggregationGroup → List ℕ
parents_in_groups base child groups =
    if child == base then [] else parents_loop base child groups []

-- The groups on whose tree the child is.
unfoldable pub groups_of : ℕ → ℕ → List AggregationGroup → List AggregationGroup
groups_of base child [] = []
groups_of base child (agg ∷ rest) =
    let others = groups_of base child rest in
    if is_on_tree base agg child then agg ∷ others else others

-- `std::min_element` by `cuboid_select_comparator`, from the best one so far.
unfoldable pub min_element : ℕ → List ℕ → ℕ
min_element best [] = best
min_element best (x ∷ xs) = min_element (if cuboid_select_comparator x best then x else best) xs

unfoldable pub check_dim_cap : AggregationGroup → ℕ → Bool
check_dim_cap agg cuboid_id = true

-- The inner loop of `get_on_tree_parents_by_layer`.
unfoldable pub keep_candidate : ℕ → List AggregationGroup → ℕ → List ℕ → List ℕ
keep_candidate base [] candidate ret = ret
keep_candidate base (agg ∷ rest) candidate ret = keep_candidate base rest candidate (
    if is_on_tree base agg candidate && check_dim_cap agg candidate
    then insert candidate ret
    else ret)

unfoldable pub keep_candidates : ℕ → List AggregationGroup → List ℕ → List ℕ → List ℕ
keep_candidates base groups [] ret = ret
keep_candidates base groups (candidate ∷ rest) ret =
    keep_candidates base groups rest (
      keep_candidate base groups candidate
        (if candidate == base then insert candidate ret else ret))

-- The members of a scheduler.
pub record CuboidScheduler : Type 0 where
  pub max : ℕ
  pub all_cuboid_ids : List ℕ
  pub parent2child : List (ℕ × List ℕ)

module _ (cube_desc : CubeDesc) where
  abbrev pub base_cuboid_id : ℕ
  base_cuboid_id = get_base_cuboid_id cube_desc.row_key

  unfoldable pub get_on_tree_parents : ℕ → List ℕ
  get_on_tree_parents child =
      parents_in_groups base_cuboid_id child
        (groups_of base_cuboid_id child cube_desc.aggregation_groups)

  unfoldable pub get_lowest_cuboids : List ℕ
  get_lowest_cuboids = parents_in_groups base_cuboid_id 0 cube_desc.aggregation_groups

  -- 0 stands for no parent.
  unfoldable pub get_on_tree_parent : ℕ → ℕ
  get_on_tree_parent child = elim (get_on_tree_parents child) [ [] ↦ 0 | c ∷ cs ↦ min_element c cs ]

  unfoldable pub parents_of_all : List ℕ → List ℕ → List ℕ
  parents_of_all [] parents = parents
  parents_of_all (child ∷ rest) parents =
      parents_of_all rest (insert_all (get_on_tree_parents child) parents)

  unfoldable pub get_on_tree_parents_by_layer : List ℕ → List ℕ
  get_on_tree_parents_by_layer children =
      keep_candidates base_cuboid_id cube_desc.aggregation_groups (parents_of_all children []) []

  unfoldable pub get_parent_on_promise : ℕ → List ℕ → ℕ → ℕ
  get_parent_on_promise child coll zero = get_on_tree_parent child
  get_parent_on_promise child coll (suc forward) =
      let parent = get_on_tree_parent child in
      let further = get_parent_on_promise parent coll forward in
      if parent == 0 then 0 else (if contains parent coll then parent else further)

  -- The first loop of `build_tree_bottom_up`. `none` is the throw at too many cuboids, or fuel
  -- that ran out.
  unfoldable pub layers_loop : ℕ → List ℕ → List ℕ → Option (List ℕ)
  layers_loop fuel [] cuboid_ids = some cuboid_ids
  layers_loop zero (c ∷ cs) cuboid_ids = none
  layers_loop (suc fuel) (c ∷ cs) cuboid_ids =
      let children = c ∷ cs in
      let rest =
        layers_loop fuel (get_on_tree_parents_by_layer children) (insert_all children cuboid_ids) in
      if ltb (2 ^ 64 - 1) (length cuboid_ids) then none else rest

  -- The second loop: `scan` is the queue. `none` is fuel that ran out.
  unfoldable pub padding_loop :
      ℕ → List ℕ → List ℕ → List (ℕ × List ℕ) → Option (List ℕ × List (ℕ × List ℕ))
  padding_loop fuel [] cuboid_ids parent2child = some (cuboid_ids, parent2child)
  padding_loop zero (current ∷ scan) cuboid_ids parent2child = none
  padding_loop (suc fuel) (current ∷ scan) cuboid_ids parent2child =
      let parent = get_parent_on_promise current cuboid_ids cube_desc.parent_forward in
      let known = padding_loop fuel scan cuboid_ids (push_back_at parent current parent2child) in
      let added =
        padding_loop fuel (scan ++ parent ∷ []) (insert parent cuboid_ids)
          (push_back_at parent current parent2child) in
      let orphan = padding_loop fuel scan cuboid_ids parent2child in
      if ltb 0 parent then (if contains parent cuboid_ids then known else added) else orphan

  -- A layer is at least one digit above the one before it, so 66 rounds are enough for the first
  -- loop; each round of the second takes one cuboid off the queue.
  unfoldable pub build_tree_bottom_up : Option (List ℕ × List (ℕ × List ℕ))
  build_tree_bottom_up = do
    layers ← layers_loop 66 get_lowest_cuboids []
    let cuboid_ids = insert base_cuboid_id layers
    padding_loop (length cuboid_ids) cuboid_ids cuboid_ids []

  unfoldable pub init_cuboid_tree : CuboidScheduler → Option CuboidScheduler
  init_cuboid_tree s = do
    (ids, children) ← build_tree_bottom_up
    some (record s { all_cuboid_ids = ids; parent2child = children })

  -- The constructor: `pow(2, size) - 1` in `double`, whose 53 digits hold it up to 53 columns; from
  -- there on it is rounded to 2 ^ size. From 64 columns on the conversion to `uint64_t` is
  -- undefined: `none`.
  unfoldable pub new_cuboid_scheduler : Option CuboidScheduler
  new_cuboid_scheduler =
      let size = length cube_desc.row_key.row_key_columns in
      if ltb size 64
      then some (record {
        max = if leb size 53 then 2 ^ size - 1 else 2 ^ size;
        all_cuboid_ids = [];
        parent2child = [];
      })
      else none

-- `none` is the throw at an id out of scope.
unfoldable pub get_spanning_cuboid : CuboidScheduler → ℕ → Option (List ℕ)
get_spanning_cuboid s parent_cuboid =
    if ltb s.max parent_cuboid
    then none
    else some (elim (find parent_cuboid s.parent2child) [ none ↦ [] | some children ↦ children ])

unfoldable pub get_cuboid_count : CuboidScheduler → ℕ
get_cuboid_count s = length s.all_cuboid_ids

unfoldable pub is_valid : CuboidScheduler → ℕ → Bool
is_valid s request = contains request s.all_cuboid_ids

-- The candidates of `find_best_match_cuboid`, one for each group.
unfoldable pub on_tree_candidates : List AggregationGroup → ℕ → List ℕ
on_tree_candidates [] cuboid = []
on_tree_candidates (agg ∷ rest) cuboid =
    translate_to_on_tree_cuboid agg cuboid ∷ on_tree_candidates rest cuboid

-- How a search ends: a cuboid, the exception, or a loop that is still running when its fuel is out.
pub data Search : Type 0 where
  matched : ℕ → Search
  threw : Search
  out_of_fuel : Search

module _ (cube_desc : CubeDesc) (s : CuboidScheduler) where
  -- The loop of `do_find_best_match_cuboid1`, and the throw behind it.
  unfoldable pub find_valid_loop : ℕ → ℕ → Search
  find_valid_loop zero parent = out_of_fuel
  find_valid_loop (suc fuel) parent =
      let further = find_valid_loop fuel (get_on_tree_parent cube_desc parent) in
      if ltb 0 parent then (if is_valid s parent then matched parent else further) else threw

  -- A parent has more digits than its child, so 66 rounds are enough.
  unfoldable pub do_find_best_match_cuboid1 : ℕ → Search
  do_find_best_match_cuboid1 cuboid = find_valid_loop 66 (get_on_tree_parent cube_desc cuboid)

  unfoldable pub find_best_match_cuboid : ℕ → Search
  find_best_match_cuboid cuboid =
      if is_valid s cuboid
      then matched cuboid
      else elim (on_tree_candidates cube_desc.aggregation_groups cuboid) [
        | [] ↦ matched (base_cuboid_id cube_desc)
        | c ∷ cs ↦
            let best = min_element c cs in
            if is_valid s best then matched best else do_find_best_match_cuboid1 best
      ]
