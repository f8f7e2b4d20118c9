-- ===== src/Cube/TreeScheduler/Nodes.antt =====
-- Which node `find_best_parent` returns.
use husky_kylin.Prelude.{
  ℕ, zero, suc, ◌^◌, ◌≤◌, ◌<◌, ◌≡◌, ◌≢◌, ◌⊎◌, inl, inr, arith, refl, sym, ◌∙◌, leb, ◌==◌, ==_iff,
  true, false, Bool, ◌||◌, Bool-cases, Option-cases, Option, none, some, List, [], ◌∷◌, eq_or_ne,
  subst, ap,
}
use husky_kylin.Word.Mask.{Sub, Sub-refl, Sub-trans, bit_and-not_64-eq-zero_iff}
use husky_kylin.Cube.TreeScheduler.{
  TreeNode, node, TreeNodes, nil, cons, get_cuboid_id, can_derive, min_candidate, in_first,
  in_later, or_itself, do_find_best_parent, min_candidates,
}

abbrev pub get_level : TreeNode → ℕ
get_level (node i level children) = level

-- The id is that of a node.
unfoldable mutual
  pub has : ℕ → TreeNode → Bool
  has x (node i level children) = x == i || has_below x children

  pub has_below : ℕ → TreeNodes → Bool
  has_below x nil = false
  has_below x (cons c cs) = has x c || has_below x cs

-- The id of the node that a pointer leads to.
unfoldable mutual
  pub id_at : List ℕ → TreeNode → Option ℕ
  id_at [] (node i level children) = some i
  id_at (k ∷ p) (node i level children) = id_below k p children

  pub id_below : ℕ → List ℕ → TreeNodes → Option ℕ
  id_below k p nil = none
  id_below zero p (cons c cs) = id_at p c
  id_below (suc k) p (cons c cs) = id_below k p cs

-- The ids are words; a child has fewer columns than its parent, and is one level below it.
unfoldable mutual
  pub IsGood : TreeNode → Type 0
  IsGood (node i level children) = (i < 2 ^ 64) × AreGood i level children

  pub AreGood : ℕ → ℕ → TreeNodes → Type 0
  AreGood i level nil = Unit
  AreGood i level (cons c cs) =
      (Sub (get_cuboid_id c) i × (get_cuboid_id c ≢ i) × (get_level c ≡ suc level) × IsGood c)
      × AreGood i level cs

pub can_derive_iff :
    (c p : ℕ)
    → c < 2 ^ 64
    → p < 2 ^ 64
    → (can_derive c p ≡ true → Sub c p) × (Sub c p → can_derive c p ≡ true)
unfolding can_derive
can_derive_iff c p hc hp =
    let both = bit_and-not_64-eq-zero_iff c p hc hp in
    (λ e. both.0 ((==_iff _ 0).0 e), λ s. (==_iff _ 0).1 (both.1 s))

mutual
  unfolding has IsGood

  pub has-Sub : (x : ℕ) (t : TreeNode) → IsGood t → has x t ≡ true → Sub x (get_cuboid_id t)
  has-Sub x (node i level children) (word, good) h = elim (eq_or_ne x i) [
    | inl e ↦ subst (λ y. Sub y i) (sym e) (Sub-refl i)
    | inr ne ↦ has_below-Sub x i level children good (ground arith)
  ]

  pub has_below-Sub :
      (x i level : ℕ) (cs : TreeNodes) → AreGood i level cs → has_below x cs ≡ true → Sub x i
  has_below-Sub x i level nil good h = absurd (ground arith)
  has_below-Sub x i level (cons c cs) ((sub, ne, l, g), gs) h = elim (Bool-cases (has x c)) [
    | inl here ↦ Sub-trans (has-Sub x c g here) sub
    | inr there ↦ has_below-Sub x i level cs gs (ground arith)
  ]

min_candidate-cases :
    (a b : Option (ℕ × List ℕ)) (x : ℕ × List ℕ)
    → min_candidate a b ≡ some x
    → (a ≡ some x) ⊎ (b ≡ some x)
unfolding min_candidate
min_candidate-cases none b x h = inr h
min_candidate-cases (some a) none x h = inl h
min_candidate-cases (some (i, p)) (some (j, q)) x h = elim (Bool-cases (leb i j)) [
  | inl e ↦ inl (ground (arith, h, e))
  | inr e ↦ inr (ground (arith, h, e))
]

-- A pointer that is found leads to a node that has the columns.
pub record IsFound (c r : ℕ) (p : List ℕ) (t : TreeNode) : Type 0 where
  pub derives : can_derive c r ≡ true
  pub there : has r t ≡ true
  pub leads : id_at p t ≡ some r

pub record IsFoundBelow (c r : ℕ) (p : List ℕ) (cs : TreeNodes) : Type 0 where
  pub child : ℕ
  pub way : List ℕ
  pub path : p ≡ child ∷ way
  pub derives : can_derive c r ≡ true
  pub there : has_below r cs ≡ true
  pub leads : id_below child way cs ≡ some r

abbrev just : ℕ → List ℕ → Option (ℕ × List ℕ)
just i p = some (i, p)

some-pair : (i r : ℕ) (q p : List ℕ) → just i q ≡ just r p → (i ≡ r) × (q ≡ p)
some-pair i r q p h = ground arith

in_first-below :
    (c r : ℕ) (p : List ℕ) (t : TreeNode) (cs : TreeNodes) (m : Option (ℕ × List ℕ))
    → ((i : ℕ) (q : List ℕ) → m ≡ some (i, q) → IsFound c i q t)
    → in_first m ≡ some (r, p)
    → IsFoundBelow c r p (cons t cs)
unfolding in_first has id_at
in_first-below c r p t cs none f h = absurd (ground arith)
in_first-below c r p t cs (some (i, q)) f h =
    let (same, path) = some-pair i r (0 ∷ q) p h in
    let at = f i q refl in
    record {
      child = 0;
      way = q;
      path = sym path;
      derives = subst (λ x. can_derive c x ≡ true) same at.derives;
      there = subst (λ x. (has x t || has_below x cs) ≡ true) same (rw at.there refl);
      leads = at.leads ∙ ap some same;
    }

in_later-below :
    (c r : ℕ) (p : List ℕ) (t : TreeNode) (cs : TreeNodes) (m : Option (ℕ × List ℕ))
    → ((i : ℕ) (q : List ℕ) → m ≡ some (i, q) → IsFoundBelow c i q cs)
    → in_later m ≡ some (r, p)
    → IsFoundBelow c r p (cons t cs)
unfolding in_later has id_at
in_later-below c r p t cs none f h = absurd (ground arith)
in_later-below c r p t cs (some (i, [])) f h = absurd (ground (arith, (f i [] refl).path))
in_later-below c r p t cs (some (i, k ∷ q)) f h =
    let (same, path) = some-pair i r (suc k ∷ q) p h in
    let at = f i (k ∷ q) refl in
    let heads : (k ≡ at.child) × (q ≡ at.way) = ground (arith, at.path) in
    record {
      child = suc k;
      way = q;
      path = sym path;
      derives = subst (λ x. can_derive c x ≡ true) same at.derives;
      there = subst (λ x. (has x t || has_below x cs) ≡ true) same (ground (arith, at.there));
      leads =
          subst (λ z. id_below z q cs ≡ some i) (sym (heads.0))
            (subst (λ z. id_below at.child z cs ≡ some i) (sym (heads.1)) at.leads)
          ∙ ap some same;
    }

mutual
  unfolding do_find_best_parent has id_at or_itself

  pub do_find_best_parent-IsFound :
      (c r : ℕ) (p : List ℕ) (t : TreeNode)
      → do_find_best_parent c t ≡ some (r, p)
      → IsFound c r p t
  do_find_best_parent-IsFound c r p (node i level children) h = elim (Bool-cases (can_derive c i)) [
    | inr no' ↦ absurd (ground (arith, no', h))
    | inl yes' ↦ elim (Option-cases (min_candidates c children)) [
      | inl e ↦
          let (same, path) = some-pair i r [] p (ground (arith, yes', e, h)) in
          record {
            derives = subst (λ x. can_derive c x ≡ true) same yes';
            there = ground (arith, same);
            leads = subst (λ q. id_at q (node i level children) ≡ some r) path (ap some same);
          }
      | inr ((j, q), e) ↦
          let (same, path) = some-pair j r q p (ground (arith, yes', e, h)) in
          let at = min_candidates-IsFound c j q children e in
          record {
            derives = subst (λ x. can_derive c x ≡ true) same at.derives;
            there =
                subst (λ x. (x == i || has_below x children) ≡ true) same
                  (ground (arith, at.there));
            leads =
                subst (λ z. id_at z (node i level children) ≡ some r) (sym at.path ∙ path)
                  (at.leads ∙ ap some same);
          }
    ]
  ]

  pub min_candidates-IsFound :
      (c r : ℕ) (p : List ℕ) (cs : TreeNodes)
      → min_candidates c cs ≡ some (r, p)
      → IsFoundBelow c r p cs
  min_candidates-IsFound c r p nil h = absurd (ground arith)
  min_candidates-IsFound c r p (cons t cs) h =
      elim (min_candidate-cases (in_first (do_find_best_parent c t))
        (in_later (min_candidates c cs)) (r, p) h) [
          | inl e ↦
              in_first-below c r p t cs (do_find_best_parent c t)
                (λ i q g. do_find_best_parent-IsFound c i q t g) e
          | inr e ↦
              in_later-below c r p t cs (min_candidates c cs)
                (λ i q g. min_candidates-IsFound c i q cs g) e
        ]

-- There is a node above the request exactly if the root is.
pub do_find_best_parent-none :
    (c : ℕ) (t : TreeNode) → can_derive c (get_cuboid_id t) ≡ false → do_find_best_parent c t ≡ none
unfolding do_find_best_parent
do_find_best_parent-none c (node i level children) h = ground (arith, h)

pub do_find_best_parent-some :
    (c : ℕ) (t : TreeNode)
    → can_derive c (get_cuboid_id t) ≡ true
    → (r : ℕ) × (p : List ℕ) × (do_find_best_parent c t ≡ some (r, p))
unfolding do_find_best_parent
do_find_best_parent-some c (node i level children) h =
    let found = or_itself i (min_candidates c children) in (found.0, found.1, rw h refl)

-- The pointer leads to the node of that id.
pub record Finds (c : ℕ) (m : Option (ℕ × List ℕ)) : Type 0 where
  pub way : List ℕ
  pub found : m ≡ some (c, way)

-- Every candidate is at least `c`.
pub record IsAtLeast (c : ℕ) (m : Option (ℕ × List ℕ)) : Type 0 where
  pub bound : (r : ℕ) (p : List ℕ) → m ≡ some (r, p) → c ≤ r

pub min_candidate-left :
    (c : ℕ) (a b : Option (ℕ × List ℕ)) → Finds c a → IsAtLeast c b → Finds c (min_candidate a b)
unfolding min_candidate
min_candidate-left c a none f g = rw f.found (record { way = f.way; found = refl })
min_candidate-left c a (some (j, q)) f g =
    rw f.found (record { way = f.way; found = ground (arith, g.bound j q refl) })

pub min_candidate-right :
    (c : ℕ) (a b : Option (ℕ × List ℕ)) → IsAtLeast c a → Finds c b → Finds c (min_candidate a b)
unfolding min_candidate
min_candidate-right c none b g f = f
min_candidate-right c (some (i, p)) b g f = elim (eq_or_ne i c) [
  | inl e ↦ rw (f.found) (record { way = p; found = ground (arith, e) })
  | inr ne ↦ rw (f.found) (record { way = f.way; found = ground (arith, ne, g.bound i p refl) })
]
