-- ===== src/Cube/Scheduler/Match.antt =====
-- `find_best_match_cuboid`, over the cuboids of a tree that was built.
use husky_kylin.Prelude.{
  ℕ, zero, suc, ◌+◌, ◌^◌, ◌≤◌, ◌<◌, ◌≡◌, ◌≢◌, ◌⊎◌, inl, inr, ⊎_elim, arith, refl, true, false,
  Bool-cases, List, [], ◌∷◌, ltb, if◌then◌else◌, bit_or,
}
use husky_kylin.Word.Mask.{
  Sub, Sub-refl, Sub-trans, Sub-le, Sub-bit_or_left, Sub-bit_or_right, bit_or-Sub,
}
use husky_kylin.Word.Shift.{bit_or-lt}
use husky_kylin.Utils.Bits.Count.{ones_below, ones_below-le}
use husky_kylin.Collections.All
use husky_kylin.Collections.All.{All}
use husky_kylin.Cube.AggregationGroup.{AggregationGroup, is_on_tree, translate_to_on_tree_cuboid}
use husky_kylin.Cube.AggregationGroup.Tree.{
  mandatory-lt, is_on_tree_iff, translate_to_on_tree_cuboid_lem,
}
use husky_kylin.Cube.Desc.{CubeDesc}
use husky_kylin.Cube.Scheduler.{
  CuboidScheduler, Search, matched, base_cuboid_id, get_on_tree_parents, get_on_tree_parent,
  min_element, is_valid, on_tree_candidates, find_valid_loop, do_find_best_match_cuboid1,
  find_best_match_cuboid,
}
use husky_kylin.Cube.Scheduler.Parents.{IsGroupOf}
use husky_kylin.Cube.Scheduler.Family.{IsCube, Parent, any_on_tree, get_on_tree_parents-All}
use husky_kylin.Cube.Scheduler.Layers.{IsMember, member_lt, Parent-IsMember, Parent-ones}
use husky_kylin.Cube.Scheduler.Padding.{contains-min_element}
use husky_kylin.Cube.Scheduler.Build.{IsTreeSet, parent_of_member}

-- A group that has all the dimensions of the request, and takes mandatory dimensions alone.
pub record IsServing (c : ℕ) (agg : AggregationGroup) : Type 0 where
  pub alone : agg.is_mandatory_only_valid ≡ true
  pub includes : Sub c agg.partial_cube_full_mask

-- A cuboid of the tree that answers the request.
pub record IsAnswer (d : CubeDesc) (s : CuboidScheduler) (c r : ℕ) : Type 0 where
  pub valid : is_valid s r ≡ true
  pub above : Sub c r

module _ (d : CubeDesc) (cube : IsCube d) (s : CuboidScheduler)
    (t : IsTreeSet d s.all_cuboid_ids) where
  base_valid : is_valid s (base_cuboid_id d) ≡ true
  unfolding is_valid
  base_valid = t.base

  -- The step of the loop: a member that is not valid has a parent above it.
  Parent-above :
      (p : ℕ) → IsMember d p → is_valid s p ≡ false → Parent d cube p (get_on_tree_parent d p)
  Parent-above p m bad =
      let ne : p ≢ base_cuboid_id d = λ e. cc (e, base_valid, bad) in
      All.All-contains (Parent d cube p) (get_on_tree_parent d p) (get_on_tree_parents d p)
        (get_on_tree_parents-All d cube p (member_lt d cube p m)) (parent_of_member d cube p m ne)

  find_valid_loop_lem :
      (fuel k c p : ℕ)
      → 65 < fuel + k
      → IsMember d p
      → Sub c p
      → k ≤ ones_below 64 p
      → (r : ℕ) × (find_valid_loop d s fuel p ≡ matched r) × IsAnswer d s c r
  unfolding find_valid_loop
  find_valid_loop_lem zero k c p enough m sub high = absurd (omega (arith, ones_below-le 64 p))
  find_valid_loop_lem (suc fuel) k c p enough m sub high =
      let pos : ltb 0 p ≡ true = ground (arith, m.pos) in
      elim (Bool-cases (is_valid s p)) [
        | inl good ↦ (p, rw (pos, good) refl, record { valid = good; above = sub })
        | inr bad ↦
            let parent = Parent-above p m bad in
            let (r, e, a) =
              find_valid_loop_lem fuel (suc k) c (get_on_tree_parent d p) (omega arith)
                (Parent-IsMember d cube p (get_on_tree_parent d p) parent)
                (Sub-trans sub parent.above)
                (omega (arith, Parent-ones d cube p (get_on_tree_parent d p) parent)) in
            (r, rw (pos, bad) e, a)
      ]

  record IsCandidate (c x : ℕ) : Type 0 where
    member : IsMember d x
    above : Sub c x

  candidate :
      (c : ℕ) (agg : AggregationGroup)
      → 0 < c
      → IsGroupOf (base_cuboid_id d) agg
      → IsServing c agg
      → (is_on_tree (base_cuboid_id d) agg (translate_to_on_tree_cuboid agg c) ≡ true)
        × Sub c (translate_to_on_tree_cuboid agg c)
        × Sub (translate_to_on_tree_cuboid agg c) (base_cuboid_id d)
  candidate c agg pos g serves =
      let m = agg.mandatory_column_mask in
      let word : c < 2 ^ 64 = omega (arith, Sub-le serves.includes, g.group.full_word) in
      let result : translate_to_on_tree_cuboid agg c ≡ bit_or c m =
        ⊎_elim (λ no. absurd (no.0 serves.includes)) (λ yes'. yes'.1)
          (translate_to_on_tree_cuboid_lem agg c g.group word) in
      let inside = bit_or-Sub serves.includes g.group.mandatory_in_full in
      rw result (
        (is_on_tree_iff (base_cuboid_id d) agg (bit_or c m) g.group
              (bit_or-lt 64 c m word (mandatory-lt agg g.group))).1
            (
              omega (arith, pos, Sub-le (Sub-bit_or_left c m)),
              inside,
              Sub-bit_or_right c m,
              inr (inl serves.alone),
            ),
        Sub-bit_or_left c m,
        Sub-trans inside g.included,
      )

  candidates-All :
      (c : ℕ) (gs : List AggregationGroup)
      → 0 < c
      → ((x : ℕ)
          → any_on_tree (base_cuboid_id d) gs x ≡ true
          → any_on_tree (base_cuboid_id d) d.aggregation_groups x ≡ true)
      → All (IsGroupOf (base_cuboid_id d)) gs
      → All (IsServing c) gs
      → All (IsCandidate c) (on_tree_candidates gs c)
  unfolding on_tree_candidates any_on_tree
  candidates-All c [] pos listed g serves = tt
  candidates-All c (agg ∷ rest) pos listed (g, gs) (serves, more) =
      let (on, above, inside) = candidate c agg pos g serves in
      (
        record {
          member = record {
            pos = omega (arith, Sub-le above);
            inside = inside;
            kept = inr (listed (translate_to_on_tree_cuboid agg c) (rw on refl));
          };
          above = above;
        },
        candidates-All c rest pos (λ x h. listed x (ground arith)) gs more,
      )

  best-IsAnswer :
      (c : ℕ) (first : ℕ) (others : List ℕ)
      → All (IsCandidate c) (first ∷ others)
      → (r : ℕ) × ((if is_valid s (min_element first others)
            then matched (min_element first others)
            else do_find_best_match_cuboid1 d s (min_element first others))
          ≡ matched r)
        × IsAnswer d s c r
  unfolding do_find_best_match_cuboid1
  best-IsAnswer c first others all =
      let best = min_element first others in
      let it =
        All.All-contains (IsCandidate c) best (first ∷ others) all
          (contains-min_element first others) in
      elim (Bool-cases (is_valid s best)) [
        | inl good ↦ (best, rw good refl, record { valid = good; above = it.above })
        | inr bad ↦
            let parent = Parent-above best it.member bad in
            let (r, e, a) =
              find_valid_loop_lem 66 0 c (get_on_tree_parent d best) (omega arith)
                (Parent-IsMember d cube best (get_on_tree_parent d best) parent)
                (Sub-trans it.above parent.above) (omega arith) in
            (r, rw bad e, a)
      ]

  answer :
      (c : ℕ) (candidates : List ℕ)
      → Sub c (base_cuboid_id d)
      → All (IsCandidate c) candidates
      → (r : ℕ) × (elim candidates as (λ x. Search) [
        | [] ↦ matched (base_cuboid_id d)
        | first ∷ others ↦
            let best = min_element first others in
            if is_valid s best then matched best else do_find_best_match_cuboid1 d s best
      ]
          ≡ matched r)
        × IsAnswer d s c r
  answer c [] sub all = (base_cuboid_id d, refl, record { valid = base_valid; above = sub })
  answer c (first ∷ others) sub all = best-IsAnswer c first others all

-- On the set of a tree that was built, for a cube whose groups are as `init` leaves them: a request
-- for one or more of the dimensions of the cube, all of which every group includes, where the groups
-- allow cuboids of mandatory dimensions alone, is answered: the search ends, nothing is thrown, and
-- the result is a cuboid of the tree that has all the dimensions asked for. It is the request itself
-- if that is in the tree.
pub find_best_match_cuboid_lem :
    (d : CubeDesc) (s : CuboidScheduler) (c : ℕ)
    → IsCube d
    → IsTreeSet d s.all_cuboid_ids
    → 0 < c
    → Sub c (base_cuboid_id d)
    → All (IsServing c) d.aggregation_groups
    → (r : ℕ) × (find_best_match_cuboid d s c ≡ matched r)
      × IsAnswer d s c r
      × ((is_valid s c ≡ false) ⊎ (r ≡ c))
unfolding find_best_match_cuboid
find_best_match_cuboid_lem d s c cube t pos sub serves = elim (Bool-cases (is_valid s c)) [
  | inl good ↦ (c, rw good refl, record { valid = good; above = Sub-refl c }, inr refl)
  | inr bad ↦
      let all =
        candidates-All d cube s t c d.aggregation_groups pos (λ x h. h) cube.groups serves in
      let (r, e, a) = answer d cube s t c (on_tree_candidates d.aggregation_groups c) sub all in
      (r, rw bad e, a, inl bad)
]
