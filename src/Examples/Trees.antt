-- ===== src/Examples/Trees.antt =====
-- A tree of five cuboids over three columns.
use husky_kylin.Prelude.{ℕ, ◌≡◌, ◌⊎◌, arith, false, some, none, List, [], ◌∷◌}
use husky_kylin.Word.Mask.{Sub}
use husky_kylin.Cube.TreeScheduler.{
  CuboidTree, create_from_cuboids, is_valid, find_best_match_cuboid,
}
use husky_kylin.Cube.TreeScheduler.Built.{IsBuilt}
use husky_kylin.Cube.TreeScheduler.Match.{
  create_from_cuboids-IsBuilt, IsMatch, find_best_match_cuboid-IsMatch,
}

abbrev others : List ℕ
others = 7 ∷ 3 ∷ 4 ∷ 1 ∷ []

create_from_cuboids-IsBuilt_example :
    (base : ℕ) × (ids : List ℕ) × (t : CuboidTree) × (create_from_cuboids (5 ∷ others)
      ≡ some (base ∷ ids, t))
    × IsBuilt (5 ∷ others) base t
create_from_cuboids-IsBuilt_example =
    create_from_cuboids-IsBuilt 5 others
      (omega arith, (omega arith, (omega arith, (omega arith, (omega arith, tt)))))

abbrev base : ℕ
base = create_from_cuboids-IsBuilt_example.0

abbrev built : CuboidTree
built = create_from_cuboids-IsBuilt_example.2

find_best_match_cuboid-IsMatch_example :
    (Sub 2 base
      × ((r : ℕ) × (find_best_match_cuboid built 2 ≡ some r)
          × IsMatch built 2 r
          × ((is_valid built 2 ≡ false) ⊎ (r ≡ 2))))
    ⊎ (¬ (Sub 2 base) × (find_best_match_cuboid built 2 ≡ none))
find_best_match_cuboid-IsMatch_example =
    find_best_match_cuboid-IsMatch (5 ∷ others) base built 2 create_from_cuboids-IsBuilt_example.4
      (omega arith)
