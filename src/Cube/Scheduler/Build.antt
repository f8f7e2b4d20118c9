-- ===== src/Cube/Scheduler/Build.antt =====
-- `build_tree_bottom_up` as a whole.
use husky_kylin.Prelude.{
  ℕ, ◌<◌, ◌≡◌, ◌≢◌, ◌⊎◌, inl, inr, ⊎_elim, arith, refl, ◌==◌, true, eq_or_ne, List, [], ◌∷◌, some,
  ◌∙◌, subst,
}
use husky_kylin.Collections.All
use husky_kylin.Collections.All.{All}
use husky_kylin.Collections.Sets.{
  insert, insert_all, contains, contains-nil, contains-insert_self, contains-insert_mono,
  IsAscending, insert-IsAscending, contains-insert_all,
}
use husky_kylin.Collections.Maps.{at_or_empty, find}
use husky_kylin.Word.Mask.{Sub, Sub-refl}
use husky_kylin.Cube.Desc.{CubeDesc}
use husky_kylin.Cube.Scheduler.{
  get_on_tree_parents, get_on_tree_parent, get_lowest_cuboids, build_tree_bottom_up, base_cuboid_id,
  min_element, parents_in_groups,
}
use husky_kylin.Cube.Scheduler.Family.{IsCube, Parent, get_on_tree_parents-All}
use husky_kylin.Cube.Scheduler.Exists.{get_on_tree_parents-ne-nil}
use husky_kylin.Cube.Scheduler.Layers.{IsMember, IsLayered, layers_loop_returns, member_lt}
use husky_kylin.Cube.Scheduler.Padding.{
  IsSettled, give_all, padding_loop_lem, children_of, at_or_empty-give_all, contains-min_element,
}

-- What a successful build has as its set of cuboids.
pub record IsTreeSet (d : CubeDesc) (ids : List ℕ) : Type 0 where
  pub members : All (IsMember d) ids
  pub ascending : IsAscending ids
  pub base : contains (base_cuboid_id d) ids ≡ true
  pub lowest : All (λ c. contains c ids ≡ true) (get_lowest_cuboids d)
  pub parents : All (λ c. All (λ p. contains p ids ≡ true) (get_on_tree_parents d c)) ids

module _ (d : CubeDesc) (cube : IsCube d) where
  base_parents_empty : get_on_tree_parents d (base_cuboid_id d) ≡ []
  unfolding get_on_tree_parents parents_in_groups
  base_parents_empty =
      let same : (base_cuboid_id d == base_cuboid_id d) ≡ true = ground arith in rw same refl

  base_has_no_parent : get_on_tree_parent d (base_cuboid_id d) ≡ 0
  unfolding get_on_tree_parent
  base_has_no_parent = rw (base_parents_empty, get_on_tree_parent) refl

  -- The parent that the tree gives to a cuboid is one of its parents.
  pub parent_of_member :
      (c : ℕ)
      → IsMember d c
      → c ≢ base_cuboid_id d
      → contains (get_on_tree_parent d c) (get_on_tree_parents d c) ≡ true
  unfolding get_on_tree_parent
  parent_of_member c m ne =
      let on = ⊎_elim (λ e. absurd (ne e)) (λ k. k) m.kept in
      let some_parent = get_on_tree_parents-ne-nil d c cube (member_lt d cube c m) ne on in
      chosen (get_on_tree_parents d c) some_parent
    where
      chosen :
          (ps : List ℕ)
          → ps ≢ []
          → contains (elim ps as (λ x. ℕ) [ [] ↦ 0 | q ∷ qs ↦ min_element q qs ]) ps ≡ true
      chosen [] h = absurd (h refl)
      chosen (q ∷ qs) h = contains-min_element q qs

  abbrev ids_of : List ℕ → List ℕ
  ids_of layers = insert (base_cuboid_id d) layers

  base-IsMember : IsMember d (base_cuboid_id d)
  base-IsMember = record { pos = cube.pos; inside = Sub-refl (base_cuboid_id d); kept = inl refl }

  tree_set :
      (layers : List ℕ)
      → IsLayered d cube (insert_all (get_lowest_cuboids d) []) layers
      → IsTreeSet d (ids_of layers)
  tree_set layers l = record {
    members = All.All-insert (IsMember d) (base_cuboid_id d) layers base-IsMember l.members;
    ascending = insert-IsAscending (base_cuboid_id d) layers l.ascending;
    base = contains-insert_self (base_cuboid_id d) layers;
    lowest =
        All.All-of_contains (λ c. contains c (ids_of layers) ≡ true) (get_lowest_cuboids d)
          λ c h. contains-insert_mono c (base_cuboid_id d) layers (
            All.All-contains (λ x. contains x layers ≡ true) c
              (insert_all (get_lowest_cuboids d) []) l.lowest
              (contains-insert_all c (get_lowest_cuboids d) [] ∙ rw h refl));
    parents =
        All.All-insert (λ c. All (λ p. contains p (ids_of layers) ≡ true) (get_on_tree_parents d c))
          (base_cuboid_id d) layers (rw base_parents_empty tt)
          (All.All-map _ _ layers
            (λ c a.
              All.All-map _ _ (get_on_tree_parents d c)
                (λ p h.
                  contains-insert_mono p (base_cuboid_id d) layers
                    (⊎_elim (λ k. k) (λ k. absurd (contains-nil p k)) h))
                a)
            l.closed);
  }

  settled : (ids : List ℕ) → IsTreeSet d ids → All (IsSettled d ids) ids
  settled ids t = All.All-of_contains (IsSettled d ids) ids λ c h.
      elim (eq_or_ne c (base_cuboid_id d)) [
        | inl e ↦ inl (rw e base_has_no_parent)
        | inr ne ↦ inr (
            All.All-contains (λ p. contains p ids ≡ true) (get_on_tree_parent d c)
              (get_on_tree_parents d c)
              (All.All-contains (λ x. All (λ p. contains p ids ≡ true) (get_on_tree_parents d x)) c
                ids t.parents h)
              (parent_of_member c (All.All-contains (IsMember d) c ids t.members h) ne))
      ]

  -- The build returns: both loops end by their tests, and the second one adds no cuboid.
  build_lem :
      (ids : List ℕ) × (build_tree_bottom_up d ≡ some (ids, give_all d ids [])) × IsTreeSet d ids
  unfolding build_tree_bottom_up
  build_lem =
      let (layers, e, l) = layers_loop_returns d cube in
      let t = tree_set layers l in
      (
        ids_of layers,
        rw e (padding_loop_lem d (ids_of layers) (ids_of layers) [] (settled (ids_of layers) t)),
        t,
      )

-- For a cube whose groups are as `init` leaves them, both loops end by their tests and nothing is
-- thrown. The cuboids are distinct, each has a dimension, none that the base cuboid has not, and is
-- the base cuboid or on the tree of a group; the base cuboid and the lowest cuboids are there, and
-- with a cuboid all its parents.
pub build_tree_bottom_up_returns :
    (d : CubeDesc)
    → IsCube d
    → (ids : List ℕ) × (parent2child : List (ℕ × List ℕ)) × (build_tree_bottom_up d
        ≡ some (ids, parent2child))
      × IsTreeSet d ids
build_tree_bottom_up_returns d cube =
    let (ids, e, t) = build_lem d cube in (ids, give_all d ids [], e, t)

build_inversion :
    (d : CubeDesc) (cube : IsCube d) (ids : List ℕ) (parent2child : List (ℕ × List ℕ))
    → build_tree_bottom_up d ≡ some (ids, parent2child)
    → (parent2child ≡ give_all d ids []) × IsTreeSet d ids
build_inversion d cube ids parent2child h =
    let (ids', e, t) = build_lem d cube in
    let same : ids' ≡ ids = ground arith in (ground arith, subst (IsTreeSet d) same t)

-- For a cube whose groups are as `init` leaves them, and the tree that the build returns: the children
-- that the tree gives to a cuboid `p`, which is not 0, are the cuboids of the set whose parent is `p`,
-- each once and in ascending order.
pub build_tree_bottom_up-children :
    (d : CubeDesc) (ids : List ℕ) (parent2child : List (ℕ × List ℕ)) (p : ℕ)
    → IsCube d
    → build_tree_bottom_up d ≡ some (ids, parent2child)
    → 0 < p
    → at_or_empty p parent2child ≡ children_of d p ids
build_tree_bottom_up-children d ids parent2child p cube h pos =
    let (e, _) = build_inversion d cube ids parent2child h in
    rw e (at_or_empty-give_all d p ids [] pos tt ∙ unfold find in refl)

-- For a cube whose groups are as `init` leaves them, and the tree that the build returns: every cuboid
-- of the tree but the base cuboid has a parent in the tree, which is a strict superset; the base
-- cuboid has none.
pub build_tree_bottom_up-parent :
    (d : CubeDesc) (ids : List ℕ) (parent2child : List (ℕ × List ℕ)) (c : ℕ)
    → IsCube d
    → build_tree_bottom_up d ≡ some (ids, parent2child)
    → contains c ids ≡ true
    → ((c ≡ base_cuboid_id d) × (get_on_tree_parent d c ≡ 0))
      ⊎ ((c ≢ base_cuboid_id d)
          × (contains (get_on_tree_parent d c) ids ≡ true)
          × Sub c (get_on_tree_parent d c)
          × (c ≢ get_on_tree_parent d c))
build_tree_bottom_up-parent d ids parent2child c cube h inside =
    let (_, t) = build_inversion d cube ids parent2child h in
    let member = All.All-contains (IsMember d) c ids t.members inside in
    elim (eq_or_ne c (base_cuboid_id d)) [
      | inl e ↦ inl (e, rw e (base_has_no_parent d cube))
      | inr ne ↦
          let mine = parent_of_member d cube c member ne in
          let parent =
            All.All-contains (Parent d cube c) (get_on_tree_parent d c) (get_on_tree_parents d c)
              (get_on_tree_parents-All d cube c (member_lt d cube c member)) mine in
          inr (
            ne,
            All.All-contains (λ p. contains p ids ≡ true) (get_on_tree_parent d c)
                (get_on_tree_parents d c)
                (All.All-contains (λ x. All (λ p. contains p ids ≡ true) (get_on_tree_parents d x))
                  c ids t.parents inside)
                mine,
            parent.above,
            parent.strict,
          )
    ]
