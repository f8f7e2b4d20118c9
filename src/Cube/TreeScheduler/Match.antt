-- ===== src/Cube/TreeScheduler/Match.antt =====
-- `create_from_cuboids` and `find_best_match_cuboid` of the tree scheduler.
use husky_kylin.Prelude.{
  ℕ, ◌^◌, ◌≤◌, ◌<◌, ◌≡◌, ◌⊎◌, inl, inr, arith, refl, sym, ◌∙◌, ap, true, false, Bool-cases, none,
  some, List, ◌∷◌, subst,
}
use husky_kylin.Collections.All
use husky_kylin.Collections.All.{All}
use husky_kylin.Collections.Sets.{contains}
use husky_kylin.Word.Mask.{Sub, Sub-le, Sub-refl}
use husky_kylin.Cube.TreeScheduler.{
  can_derive, CuboidTree, set_root, add_cuboids, build_index, build_sorted, sort_descending,
  create_from_cuboids, is_valid, find_best_match_cuboid,
}
use husky_kylin.Cube.TreeScheduler.Nodes.{
  can_derive_iff, has-Sub, do_find_best_parent-IsFound, do_find_best_parent-none,
  do_find_best_parent-some,
}
use husky_kylin.Cube.TreeScheduler.Growth.{good_word}
use husky_kylin.Cube.TreeScheduler.Sorting.{
  IsTopped, All-sort_descending, contains-sort_descending, sort_descending-IsTopped,
  insert_descending-cons,
}
use husky_kylin.Cube.TreeScheduler.Index.{add_cuboids-IsGrown}
use husky_kylin.Cube.TreeScheduler.Built.{IsBuilt, single-IsTree, build_index-IsBuilt}

created :
    (given : List ℕ) (base : ℕ) (ids : List ℕ) (t : CuboidTree)
    → sort_descending given ≡ base ∷ ids
    → build_index (add_cuboids (base ∷ ids) (set_root base)) ≡ some t
    → create_from_cuboids given ≡ some (base ∷ ids, t)
unfolding create_from_cuboids build_sorted
created given base ids t e built = ap build_sorted e ∙ rw built refl

sorted-IsBuilt :
    (given : List ℕ) (base : ℕ) (ids : List ℕ)
    → sort_descending given ≡ base ∷ ids
    → All (λ x. x < 2 ^ 64) given
    → (t : CuboidTree) × (create_from_cuboids given ≡ some (base ∷ ids, t)) × IsBuilt given base t
sorted-IsBuilt given base ids e words =
    let (word, more) : All (λ x. x < 2 ^ 64) (base ∷ ids) =
      subst (All (λ x. x < 2 ^ 64)) e (All-sort_descending _ given words) in
    let same : (x : ℕ) → contains x (base ∷ ids) ≡ contains x given =
      λ x. ap (contains x) (sym e) ∙ contains-sort_descending x given in
    let top : All (λ x. x ≤ base) given = All.All-of_contains _ given λ x h.
      All.All-contains (λ x. x ≤ base) x (base ∷ ids)
        (omega arith, subst IsTopped e (sort_descending-IsTopped given)) (same x ∙ h) in
    let grown =
      add_cuboids-IsGrown (base ∷ ids) (set_root base) (word, more) (single-IsTree base word) in
    let (t, built, b) =
      build_index-IsBuilt base ids given (add_cuboids (base ∷ ids) (set_root base)) word same top
        grown in
    (t, created given base ids t e built, b)

-- With at least one cuboid, all of them words, the tree is built: its root is the greatest of them;
-- the cuboids of the tree, of its index and of the set of all ids are those that have no column
-- that the root has not; each stands in the tree once, and a child has fewer columns than its
-- parent, and is one level below it.
pub create_from_cuboids-IsBuilt :
    (first : ℕ) (others : List ℕ)
    → All (λ x. x < 2 ^ 64) (first ∷ others)
    → (base : ℕ) × (ids : List ℕ) × (t : CuboidTree) × (create_from_cuboids (first ∷ others)
        ≡ some (base ∷ ids, t))
      × IsBuilt (first ∷ others) base t
unfolding sort_descending
create_from_cuboids-IsBuilt first others words =
    let (base, ids, e) = insert_descending-cons first (sort_descending others) in
    let (t, created, b) = sorted-IsBuilt (first ∷ others) base ids e words in
    (base, ids, t, created, b)

-- A match: a cuboid of the tree that has all the columns asked for.
pub record IsMatch (t : CuboidTree) (c r : ℕ) : Type 0 where
  pub valid : is_valid t r ≡ true
  pub above : Sub c r

-- On a tree that was built, a request that is a word and has only columns of the root is answered
-- by a cuboid of the tree that has all of them, and by itself if it is in the tree. For one with
-- another column a null pointer is read.
pub find_best_match_cuboid-IsMatch :
    (ids : List ℕ) (base : ℕ) (t : CuboidTree) (c : ℕ)
    → IsBuilt ids base t
    → c < 2 ^ 64
    → (Sub c base
        × ((r : ℕ) × (find_best_match_cuboid t c ≡ some r)
            × IsMatch t c r
            × ((is_valid t c ≡ false) ⊎ (r ≡ c))))
      ⊎ (¬ (Sub c base) × (find_best_match_cuboid t c ≡ none))
unfolding find_best_match_cuboid
find_best_match_cuboid-IsMatch ids base t c b word =
    let top : base < 2 ^ 64 = subst (λ x. x < 2 ^ 64) b.root (good_word t.root b.tree.good) in
    let derives = can_derive_iff c base word top in
    elim (Bool-cases (can_derive c base)) [
      | inr no' ↦
          let missing : is_valid t c ≡ false = ground (arith, b.valid c, no') in
          let none_found =
            do_find_best_parent-none c t.root
              (subst (λ x. can_derive c x ≡ false) (sym b.root) no') in
          inr ((λ s. ground (arith, derives.1 s, no')), rw (missing, none_found) refl)
      | inl yes' ↦
          let sub = derives.0 yes' in
          elim (Bool-cases (is_valid t c)) [
            | inl here ↦
                inl (sub, (c, rw here refl, record { valid = here; above = Sub-refl c }, inr refl))
            | inr away ↦
                let (r, p, e) =
                  do_find_best_parent-some c t.root
                    (subst (λ x. can_derive c x ≡ true) (sym b.root) yes') in
                let f = do_find_best_parent-IsFound c r p t.root e in
                let small = Sub-le (has-Sub r t.root b.tree.good f.there) in
                inl (
                  sub,
                  (
                    r,
                    rw (away, e) refl,
                    record {
                      valid = sym (b.nodes r) ∙ f.there;
                      above =
                          (can_derive_iff c r word
                              (omega (arith, small, good_word t.root b.tree.good))).0
                            f.derives;
                    },
                    inl away,
                  ),
                )
          ]
    ]
