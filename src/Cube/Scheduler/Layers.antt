-- ===== src/Cube/Scheduler/Layers.antt =====
-- The first loop of `build_tree_bottom_up`: the layers above the lowest cuboids.
use husky_kylin.Prelude.{
  ℕ, zero, suc, ◌+◌, ◌-◌, ◌^◌, ◌≤◌, ◌<◌, ◌≡◌, ◌⊎◌, inl, inr, arith, refl, true, false, List, [],
  ◌∷◌, ltb, length, some, ◌∙◌,
}
use husky_kylin.Collections.All
use husky_kylin.Collections.All.{All}
use husky_kylin.Collections.Sets.{
  insert_all, contains, contains-insert_all, IsAscending, Above, insert_all-IsAscending,
}
use husky_kylin.Word.Mask.{Sub, Sub-le}
use husky_kylin.Utils.Bits.Count.{ones_below, ones_below-le, ones_below_strict}
use husky_kylin.Cube.Desc.{CubeDesc}
use husky_kylin.Cube.Scheduler.{
  get_on_tree_parents, get_lowest_cuboids, get_on_tree_parents_by_layer, layers_loop,
  base_cuboid_id,
}
use husky_kylin.Cube.Scheduler.Family.{
  any_on_tree, IsCube, Parent, get_on_tree_parents-All, get_lowest_cuboids-All,
}
use husky_kylin.Cube.Scheduler.ByLayer.{
  contains-get_on_tree_parents_by_layer, All-get_on_tree_parents_by_layer,
}

-- A cuboid of the tree has a dimension and none that the cube has not, and is the base cuboid or
-- on the tree of a group.
pub record IsMember (d : CubeDesc) (c : ℕ) : Type 0 where
  pub pos : 0 < c
  pub inside : Sub c (base_cuboid_id d)
  pub kept : (c ≡ base_cuboid_id d) ⊎ (any_on_tree (base_cuboid_id d) d.aggregation_groups c ≡ true)

-- Every parent of a cuboid of `ids` is in `ids` or in `more`.
abbrev pub IsClosed : CubeDesc → List ℕ → List ℕ → Type 0
IsClosed d ids more =
    All
      (λ c. All (λ p. (contains p ids ≡ true) ⊎ (contains p more ≡ true)) (get_on_tree_parents d c))
      ids

length-Above :
    (low bound : ℕ) (s : List ℕ)
    → Above low s
    → All (λ x. x < bound) s
    → low < bound
    → low + length s < bound
length-Above low bound [] a b h = omega arith
length-Above low bound (x ∷ xs) (lt, a) (b, bs) h = omega (arith, length-Above x bound xs a bs b)

ascending_short :
    (bound : ℕ) (s : List ℕ)
    → 0 < bound
    → IsAscending s
    → All (λ x. 0 < x) s
    → All (λ x. x < bound) s
    → length s < bound
ascending_short bound [] pos a p b = pos
ascending_short bound (x ∷ xs) pos a (p, ps) (b, bs) = omega (arith, length-Above x bound xs a bs b)

module _ (d : CubeDesc) (cube : IsCube d) where
  pub member_lt : (c : ℕ) → IsMember d c → c < 2 ^ 64
  member_lt c m = omega (arith, Sub-le m.inside, cube.word)

  pub Parent-IsMember : (c p : ℕ) → Parent d cube c p → IsMember d p
  Parent-IsMember c p parent = record {
    pos = omega (arith, parent.strict, Sub-le parent.above);
    inside = parent.inside;
    kept = parent.kept;
  }

  pub Parent-ones : (c p : ℕ) → Parent d cube c p → ones_below 64 c < ones_below 64 p
  Parent-ones c p parent =
      ones_below_strict c p (omega (arith, Sub-le parent.inside, cube.word)) parent.above
        parent.strict

  -- A cuboid that has at least `k` dimensions.
  record IsHigh (k c : ℕ) : Type 0 where
    member : IsMember d c
    height : k ≤ ones_below 64 c

  -- The state of the loop in round `k`.
  record LayerInv (k : ℕ) (children ids : List ℕ) : Type 0 where
    layer : All (IsHigh k) children
    members : All (IsMember d) ids
    closed : IsClosed d ids children
    ascending : IsAscending ids

  short :
      (ids : List ℕ)
      → IsAscending ids
      → All (IsMember d) ids
      → ltb (2 ^ 64 - 1) (length ids) ≡ false
  short ids a m =
      let bounded =
        ascending_short (2 ^ 64) ids (omega arith) a
          (All.All-map (IsMember d) (λ x. 0 < x) ids (λ x h. h.pos) m)
          (All.All-map (IsMember d) (λ x. x < 2 ^ 64) ids member_lt m) in
      ground arith

  next_layer :
      (k : ℕ) (children : List ℕ)
      → All (IsHigh k) children
      → All (IsHigh (suc k)) (get_on_tree_parents_by_layer d children)
  next_layer k children layer = All-get_on_tree_parents_by_layer d (IsHigh (suc k)) children (
      All.All-map (IsHigh k) (λ c. All (IsHigh (suc k)) (get_on_tree_parents d c)) children
        (λ c h.
          All.All-map (Parent d cube c) (IsHigh (suc k)) (get_on_tree_parents d c)
            (λ p parent. record {
              member = Parent-IsMember c p parent;
              height = omega (arith, h.height, Parent-ones c p parent);
            })
            (get_on_tree_parents-All d cube c (member_lt c h.member)))
        layer)

  still_there :
      (p : ℕ) (children ids : List ℕ)
      → (contains p ids ≡ true) ⊎ (contains p children ≡ true)
      → contains p (insert_all children ids) ≡ true
  still_there p children ids h = ground (arith, contains-insert_all p children ids)

  next-IsClosed :
      (k : ℕ) (children ids : List ℕ)
      → LayerInv k children ids
      → IsClosed d (insert_all children ids) (get_on_tree_parents_by_layer d children)
  next-IsClosed k children ids inv =
      let all' = insert_all children ids in
      let next' = get_on_tree_parents_by_layer d children in
      All.All-insert_all
        (λ c.
          All (λ p. (contains p all' ≡ true) ⊎ (contains p next' ≡ true)) (get_on_tree_parents d c))
        children ids
        (All.All-of_contains _ children λ c hc.
          let high = All.All-contains (IsHigh k) c children inv.layer hc in
          All.All-of_contains _ (get_on_tree_parents d c) λ p hp. inr (
            contains-get_on_tree_parents_by_layer d cube p c children (member_lt c high.member) hc
              hp))
        (All.All-map _ _ ids
          (λ c a.
            All.All-map _ _ (get_on_tree_parents d c) (λ p h. inl (still_there p children ids h)) a)
          inv.closed)

  LayerInv-next :
      (k : ℕ) (children ids : List ℕ)
      → LayerInv k children ids
      → LayerInv (suc k) (get_on_tree_parents_by_layer d children) (insert_all children ids)
  LayerInv-next k children ids inv = record {
    layer = next_layer k children inv.layer;
    members =
        All.All-insert_all (IsMember d) children ids
          (All.All-map (IsHigh k) (IsMember d) children (λ c h. h.member) inv.layer) inv.members;
    closed = next-IsClosed k children ids inv;
    ascending = insert_all-IsAscending children ids inv.ascending;
  }

  -- What the loop returns: members of the tree, closed under parents, with all that it was given.
  pub record IsLayered (start out : List ℕ) : Type 0 where
    pub members : All (IsMember d) out
    pub closed : IsClosed d out []
    pub ascending : IsAscending out
    pub lowest : All (λ c. contains c out ≡ true) start

  layers_loop_lem :
      (fuel k : ℕ) (children ids : List ℕ)
      → 65 < fuel + k
      → LayerInv k children ids
      → (out : List ℕ) × (layers_loop d fuel children ids ≡ some out)
        × IsLayered (insert_all children ids) out
  unfolding layers_loop insert_all
  layers_loop_lem fuel k [] ids enough inv = (
    ids,
    refl,
    record {
      members = inv.members;
      closed = inv.closed;
      ascending = inv.ascending;
      lowest = All.All-of_contains (λ c. contains c ids ≡ true) ids (λ x h. h);
    },
  )
  layers_loop_lem zero k (c ∷ cs) ids enough inv =
      absurd (omega (arith, inv.layer.0.height, ones_below-le 64 c))
  layers_loop_lem (suc fuel) k (c ∷ cs) ids enough inv =
      let now = insert_all (c ∷ cs) ids in
      let next' = get_on_tree_parents_by_layer d (c ∷ cs) in
      let (out, e, done) =
        layers_loop_lem fuel (suc k) next' now (omega arith) (LayerInv-next k (c ∷ cs) ids inv) in
      (
        out,
        rw (short ids inv.ascending inv.members) e,
        record {
          members = done.members;
          closed = done.closed;
          ascending = done.ascending;
          lowest =
              All.All-of_contains (λ x. contains x out ≡ true) now
                λ x h.
                  All.All-contains (λ y. contains y out ≡ true) x (insert_all next' now) done.lowest
                    (contains-insert_all x next' now ∙ rw h (ground arith));
        },
      )

  lowest-IsHigh : All (IsHigh 0) (get_lowest_cuboids d)
  lowest-IsHigh =
      All.All-map (Parent d cube 0) (IsHigh 0) (get_lowest_cuboids d)
        (λ p parent. record { member = Parent-IsMember 0 p parent; height = omega arith })
        (get_lowest_cuboids-All d cube)

  -- The loop ends by its test within the fuel, with a set that is closed under parents.
  pub layers_loop_returns :
      (out : List ℕ) × (layers_loop d 66 (get_lowest_cuboids d) [] ≡ some out)
      × IsLayered (insert_all (get_lowest_cuboids d) []) out
  layers_loop_returns =
      layers_loop_lem 66 0 (get_lowest_cuboids d) [] (omega arith)
        (record { layer = lowest-IsHigh; members = tt; closed = tt; ascending = tt })
