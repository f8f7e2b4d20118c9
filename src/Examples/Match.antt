-- ===== src/Examples/Match.antt =====
-- Requests on the trees of `Scheduler`.
use husky_kylin.Prelude.{ℕ, ◌≡◌, ◌⊎◌, arith, refl, false, subst}
use husky_kylin.Word.Mask.{Sub-le, bit_and-eq_iff}
use husky_kylin.Collections.Sets.{contains}
use husky_kylin.Cube.Cuboid.{get_base_cuboid_id}
use husky_kylin.Cube.Scheduler.{CuboidScheduler, matched, threw, is_valid, find_best_match_cuboid}
use husky_kylin.Cube.Scheduler.Build.{IsTreeSet, build_tree_bottom_up_returns}
use husky_kylin.Cube.Scheduler.Match.{IsAnswer, find_best_match_cuboid_lem}
use husky_kylin.Cube.Scheduler.Miss.{find_best_match_cuboid_throws}
use husky_kylin.Examples.Groups.{cube, cube-IsCube, narrow_cube, narrow_cube-IsCube}
use husky_kylin.Examples.Scheduler.{ids, tree, cube-tree, narrow_ids, narrow_tree, narrow_cube-tree}

abbrev scheduler : CuboidScheduler
scheduler = record { max = 7; all_cuboid_ids = ids; parent2child = tree }

abbrev narrow_scheduler : CuboidScheduler
narrow_scheduler = record { max = 7; all_cuboid_ids = narrow_ids; parent2child = narrow_tree }

ids-IsTreeSet : IsTreeSet cube ids
ids-IsTreeSet =
    let (built, _, e, t) = build_tree_bottom_up_returns cube cube-IsCube in
    subst (IsTreeSet cube) (ground (arith, e, cube-tree)) t

narrow_ids-IsTreeSet : IsTreeSet narrow_cube narrow_ids
narrow_ids-IsTreeSet =
    let (built, _, e, t) = build_tree_bottom_up_returns narrow_cube narrow_cube-IsCube in
    subst (IsTreeSet narrow_cube) (ground (arith, e, narrow_cube-tree)) t

find_best_match_cuboid_lem_example :
    (r : ℕ) × (find_best_match_cuboid cube scheduler 2 ≡ matched r)
    × IsAnswer cube scheduler 2 r
    × ((is_valid scheduler 2 ≡ false) ⊎ (r ≡ 2))
unfolding get_base_cuboid_id
find_best_match_cuboid_lem_example =
    find_best_match_cuboid_lem cube scheduler 2 cube-IsCube ids-IsTreeSet (omega arith)
      ((bit_and-eq_iff 7 2).0 refl)
      (record { alone = refl; includes = (bit_and-eq_iff 7 2).0 refl }, tt)

find_best_match_cuboid_throws_example :
    find_best_match_cuboid narrow_cube narrow_scheduler 4 ≡ threw
find_best_match_cuboid_throws_example =
    find_best_match_cuboid_throws narrow_cube narrow_scheduler 4 narrow_cube-IsCube
      narrow_ids-IsTreeSet (omega arith) (unfold is_valid contains in refl)
      (λ (excluded, _). omega (arith, Sub-le excluded))
