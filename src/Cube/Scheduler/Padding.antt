-- ===== src/Cube/Scheduler/Padding.antt =====
-- The second loop of `build_tree_bottom_up`: each cuboid is given to its parent.
use husky_kylin.Prelude.{
  ℕ, zero, suc, ◌<◌, ◌≡◌, ◌⊎◌, inl, inr, ⊎_elim, arith, refl, ◌==◌, true, false, Bool-cases, List,
  [], ◌∷◌, ◌++◌, if◌then◌else◌, ltb, length, some, ap, sym, ◌∙◌,
}
use mathlib.Core.List.{append-nil, append_assoc}
use husky_kylin.Collections.All.{All}
use husky_kylin.Collections.Sets.{contains, contains-head, contains-tail}
use husky_kylin.Collections.Maps.{
  push_back_at, at_or_empty, at_or_empty-push_back_at, HasKeysAscending,
  push_back_at-HasKeysAscending,
}
use husky_kylin.Cube.Cuboid.{cuboid_select_comparator}
use husky_kylin.Cube.Desc.{CubeDesc}
use husky_kylin.Cube.Scheduler.{
  get_on_tree_parent, get_parent_on_promise, padding_loop, min_element,
}

contains_skip :
    (y b x : ℕ) (xs : List ℕ) → contains y (b ∷ xs) ≡ true → contains y (b ∷ x ∷ xs) ≡ true
unfolding contains
contains_skip y b x xs h = ground arith

pub contains-min_element :
    (best : ℕ) (xs : List ℕ) → contains (min_element best xs) (best ∷ xs) ≡ true
unfolding min_element
contains-min_element best [] = contains-head best []
contains-min_element best (x ∷ xs) = elim (Bool-cases (cuboid_select_comparator x best)) [
  | inl better ↦
      rw better (contains-tail (min_element x xs) best (x ∷ xs) (contains-min_element x xs))
  | inr worse ↦
      rw worse (contains_skip (min_element best xs) best x xs (contains-min_element best xs))
]

-- The cuboids of a list whose parent is `p`, in the order of the list.
unfoldable pub children_of : CubeDesc → ℕ → List ℕ → List ℕ
children_of d p [] = []
children_of d p (c ∷ cs) =
    if get_on_tree_parent d c == p then c ∷ children_of d p cs else children_of d p cs

unfoldable pub give_all : CubeDesc → List ℕ → List (ℕ × List ℕ) → List (ℕ × List ℕ)
give_all d [] m = m
give_all d (c ∷ cs) m =
    give_all d cs
      (if ltb 0 (get_on_tree_parent d c) then push_back_at (get_on_tree_parent d c) c m else m)

module _ (d : CubeDesc) where
  -- The parent is known, or there is none.
  abbrev pub IsSettled : List ℕ → ℕ → Type 0
  IsSettled ids c = (get_on_tree_parent d c ≡ 0) ⊎ (contains (get_on_tree_parent d c) ids ≡ true)

  -- Then no step is jumped over.
  get_parent_on_promise_lem :
      (forward c : ℕ) (ids : List ℕ)
      → IsSettled ids c
      → get_parent_on_promise d c ids forward ≡ get_on_tree_parent d c
  unfolding get_parent_on_promise
  get_parent_on_promise_lem zero c ids h = refl
  get_parent_on_promise_lem (suc forward) c ids h = ground arith

  pub padding_loop_lem :
      (scan ids : List ℕ) (m : List (ℕ × List ℕ))
      → All (IsSettled ids) scan
      → padding_loop d (length scan) scan ids m ≡ some (ids, give_all d scan m)
  unfolding padding_loop give_all
  padding_loop_lem [] ids m h = refl
  padding_loop_lem (c ∷ cs) ids m (h, hs) =
      rw (get_parent_on_promise_lem d.parent_forward c ids h)
        (elim (Bool-cases (ltb 0 (get_on_tree_parent d c))) [
          | inl some_parent ↦
              let known : contains (get_on_tree_parent d c) ids ≡ true =
                ⊎_elim (λ e. absurd (ground arith)) (λ k. k) h in
              rw (some_parent, known)
                (padding_loop_lem cs ids (push_back_at (get_on_tree_parent d c) c m) hs)
          | inr no_parent ↦ rw no_parent (padding_loop_lem cs ids m hs)
        ])

  pub at_or_empty-give_all :
      (p : ℕ) (cs : List ℕ) (m : List (ℕ × List ℕ))
      → 0 < p
      → HasKeysAscending m
      → at_or_empty p (give_all d cs m) ≡ at_or_empty p m ++ children_of d p cs
  unfolding give_all children_of
  at_or_empty-give_all p [] m pos a = sym (append-nil (at_or_empty p m))
  at_or_empty-give_all p (c ∷ cs) m pos a =
      let q = get_on_tree_parent d c in
      elim (Bool-cases (ltb 0 q)) [
        | inr no_parent ↦
            let other : (q == p) ≡ false = ground arith in
            rw (no_parent, other) (at_or_empty-give_all p cs m pos a)
        | inl some_parent ↦
            let rest =
              at_or_empty-give_all p cs (push_back_at q c m) pos
                (push_back_at-HasKeysAscending q c m a) in
            let pushed = at_or_empty-push_back_at p q c m a in
            elim (Bool-cases (q == p)) [
              | inl same ↦
                  let same' : (p == q) ≡ true = ground arith in
                  rw (some_parent, same)
                    (rest
                      ∙ ap (λ (l : List ℕ). l ++ children_of d p cs) (pushed ∙ rw same')
                      ∙ append_assoc (at_or_empty p m) (c ∷ []) (children_of d p cs))
              | inr other ↦
                  let other' : (p == q) ≡ false = ground arith in
                  rw (some_parent, other)
                    (rest ∙ ap (λ (l : List ℕ). l ++ children_of d p cs) (pushed ∙ rw other'))
            ]
      ]
