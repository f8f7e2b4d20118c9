-- ===== src/Cube/TreeScheduler/Growth.antt =====
-- What `add_cuboid` does to the tree.
use husky_kylin.Prelude.{
  ℕ, zero, suc, ◌+◌, ◌^◌, ◌<◌, ◌≡◌, ◌≢◌, inl, inr, arith, refl, sym, ◌∙◌, ◌==◌, true, false, ◌||◌,
  Bool-cases, Option, none, some, List, [], ◌∷◌, if◌then◌else◌, eq_or_ne, subst,
}
use husky_kylin.Word.Mask.{Sub, Sub-le, Sub-antisymm}
use husky_kylin.Cube.TreeScheduler.{
  TreeNode, node, TreeNodes, nil, cons, get_cuboid_id, push_back, can_derive, min_candidate,
  in_first, in_later, or_itself, do_find_best_parent, min_candidates, add_child, add_child_below,
}
use husky_kylin.Cube.TreeScheduler.Nodes.{
  get_level, has, has_below, id_at, id_below, IsGood, AreGood, can_derive_iff, has-Sub,
  has_below-Sub, do_find_best_parent-IsFound, min_candidates-IsFound, do_find_best_parent-none,
  Finds, IsAtLeast, min_candidate-left, min_candidate-right,
}

pub good_word : (t : TreeNode) → IsGood t → get_cuboid_id t < 2 ^ 64
unfolding IsGood
good_word (node i level children) g = g.0

in_first-Finds : (c : ℕ) (m : Option (ℕ × List ℕ)) → Finds c m → Finds c (in_first m)
unfolding in_first
in_first-Finds c m f = rw f.found (record { way = 0 ∷ f.way; found = refl })

in_later-Finds : (c : ℕ) (m : Option (ℕ × List ℕ)) → Finds c m → Finds c (in_later m)
unfolding in_later
in_later-Finds c none f = absurd (ground (arith, f.found))
in_later-Finds c (some (i, [])) f = record { way = []; found = ground (arith, f.found) }
in_later-Finds c (some (i, k ∷ p)) f = record { way = suc k ∷ p; found = ground (arith, f.found) }

in_first-IsAtLeast : (c : ℕ) (m : Option (ℕ × List ℕ)) → IsAtLeast c m → IsAtLeast c (in_first m)
unfolding in_first
in_first-IsAtLeast c none f = record { bound = λ r p e. absurd (ground (arith, e)) }
in_first-IsAtLeast c (some (i, q)) f = record {
  bound = λ r p e. ground (arith, e, f.bound i q refl);
}

in_later-IsAtLeast : (c : ℕ) (m : Option (ℕ × List ℕ)) → IsAtLeast c m → IsAtLeast c (in_later m)
unfolding in_later
in_later-IsAtLeast c none f = record { bound = λ r p e. absurd (ground (arith, e)) }
in_later-IsAtLeast c (some (i, [])) f = record {
  bound = λ r p e. ground (arith, e, f.bound i [] refl);
}
in_later-IsAtLeast c (some (i, k ∷ q)) f = record {
  bound = λ r p e. ground (arith, e, f.bound i (k ∷ q) refl);
}

module _ (c : ℕ) (word : c < 2 ^ 64) where
  node-IsAtLeast : (t : TreeNode) → IsGood t → IsAtLeast c (do_find_best_parent c t)
  node-IsAtLeast t g = record {
    bound = λ r p e.
        let f = do_find_best_parent-IsFound c r p t e in
        let small = Sub-le (has-Sub r t g f.there) in
        Sub-le ((can_derive_iff c r word (omega (arith, small, good_word t g))).0 f.derives);
  }

  nodes-IsAtLeast :
      (i level : ℕ) (cs : TreeNodes)
      → i < 2 ^ 64
      → AreGood i level cs
      → IsAtLeast c (min_candidates c cs)
  nodes-IsAtLeast i level cs top g = record {
    bound = λ r p e.
        let f = min_candidates-IsFound c r p cs e in
        let small = Sub-le (has_below-Sub r i level cs g f.there) in
        Sub-le ((can_derive_iff c r word (omega (arith, small, top))).0 f.derives);
  }

  -- No child of a node has all the node's columns.
  none_below : (level : ℕ) (cs : TreeNodes) → AreGood c level cs → min_candidates c cs ≡ none
  unfolding AreGood min_candidates min_candidate in_first in_later
  none_below level nil g = refl
  none_below level (cons t cs) ((sub, ne, l, g), gs) =
      elim (Bool-cases (can_derive c (get_cuboid_id t))) [
        | inl yes' ↦ absurd (
            ne (
              Sub-antisymm (get_cuboid_id t) c sub
                ((can_derive_iff c (get_cuboid_id t) word (good_word t g)).0 yes')))
        | inr no' ↦ rw (do_find_best_parent-none c t no', none_below level cs gs) refl
      ]

  -- A cuboid of the tree is found itself.
  mutual
    unfolding has IsGood do_find_best_parent or_itself

    pub has-Finds : (t : TreeNode) → IsGood t → has c t ≡ true → Finds c (do_find_best_parent c t)
    has-Finds (node i level children) g h =
        let above = has-Sub c (node i level children) g h in
        let derives = (can_derive_iff c i word (g.0)).1 above in
        elim (eq_or_ne c i) [
          | inl e ↦
              let alone : min_candidates c children ≡ none =
                none_below level children (subst (λ x. AreGood x level children) (sym e) (g.1)) in
              rw (derives, alone) (record { way = []; found = ground (arith, e) })
          | inr ne ↦
              let f = has_below-Finds i level children (g.0) (g.1) (ground (arith, h, ne)) in
              rw (derives, f.found) (record { way = f.way; found = refl })
        ]

    has_below-Finds :
        (i level : ℕ) (cs : TreeNodes)
        → i < 2 ^ 64
        → AreGood i level cs
        → has_below c cs ≡ true
        → Finds c (min_candidates c cs)
    has_below-Finds i level nil top g h = absurd (ground (arith, h))
    has_below-Finds i level (cons t cs) top ((sub, ne, l, g), gs) h = elim (Bool-cases (has c t)) [
      | inl here ↦
          min_candidate-left c (in_first (do_find_best_parent c t)) (in_later (min_candidates c cs))
            (in_first-Finds c (do_find_best_parent c t) (has-Finds t g here))
            (in_later-IsAtLeast c (min_candidates c cs) (nodes-IsAtLeast i level cs top gs))
      | inr there ↦
          min_candidate-right c (in_first (do_find_best_parent c t))
            (in_later (min_candidates c cs))
            (in_first-IsAtLeast c (do_find_best_parent c t) (node-IsAtLeast t g))
            (in_later-Finds c (min_candidates c cs)
              (has_below-Finds i level cs top gs (ground (arith, h, there))))
    ]

has_below-push_back :
    (x : ℕ) (cs : TreeNodes) (n : TreeNode)
    → has_below x (push_back cs n) ≡ (has_below x cs || has x n)
unfolding has push_back
has_below-push_back x nil n = ground arith
has_below-push_back x (cons c cs) n = ground (arith, has_below-push_back x cs n)

mutual
  unfolding has id_at add_child

  -- The tree gains the new node.
  pub has-add_child :
      (x c r : ℕ) (p : List ℕ) (t : TreeNode)
      → id_at p t ≡ some r
      → has x (add_child p c t) ≡ (has x t || x == c)
  has-add_child x c r [] (node i level children) h =
      ground (arith, has_below-push_back x children (node c (suc level) nil))
  has-add_child x c r (k ∷ p) (node i level children) h =
      ground (arith, has_below-add_child x c r k p children h)

  has_below-add_child :
      (x c r k : ℕ) (p : List ℕ) (cs : TreeNodes)
      → id_below k p cs ≡ some r
      → has_below x (add_child_below k p c cs) ≡ (has_below x cs || x == c)
  has_below-add_child x c r k p nil h = absurd (ground (arith, h))
  has_below-add_child x c r zero p (cons t cs) h = ground (arith, has-add_child x c r p t h)
  has_below-add_child x c r (suc k) p (cons t cs) h =
      ground (arith, has_below-add_child x c r k p cs h)

pub get_cuboid_id-add_child :
    (c : ℕ) (p : List ℕ) (t : TreeNode) → get_cuboid_id (add_child p c t) ≡ get_cuboid_id t
unfolding add_child
get_cuboid_id-add_child c [] (node i level children) = refl
get_cuboid_id-add_child c (k ∷ p) (node i level children) = refl

get_level-add_child :
    (c : ℕ) (p : List ℕ) (t : TreeNode) → get_level (add_child p c t) ≡ get_level t
unfolding add_child
get_level-add_child c [] (node i level children) = refl
get_level-add_child c (k ∷ p) (node i level children) = refl

push_back-AreGood :
    (i level c : ℕ) (cs : TreeNodes)
    → Sub c i
    → c ≢ i
    → c < 2 ^ 64
    → AreGood i level cs
    → AreGood i level (push_back cs (node c (suc level) nil))
unfolding IsGood push_back
push_back-AreGood i level c nil sub ne word g = ((sub, ne, refl, (word, tt)), tt)
push_back-AreGood i level c (cons t cs) sub ne word (g, gs) =
    (g, push_back-AreGood i level c cs sub ne word gs)

mutual
  unfolding id_at add_child IsGood

  -- A child with fewer columns than its parent keeps the tree well-formed.
  pub add_child-IsGood :
      (c r : ℕ) (p : List ℕ) (t : TreeNode)
      → id_at p t ≡ some r
      → Sub c r
      → c ≢ r
      → c < 2 ^ 64
      → IsGood t
      → IsGood (add_child p c t)
  add_child-IsGood c r [] (node i level children) h sub ne word (top, g) =
      let same : i ≡ r = ground (arith, h) in
      (
        top,
        push_back-AreGood i level c children (subst (Sub c) (sym same) sub) (λ e. ne (e ∙ same))
            word g,
      )
  add_child-IsGood c r (k ∷ p) (node i level children) h sub ne word (top, g) =
      (top, add_child_below-AreGood c r i level k p children h sub ne word g)

  add_child_below-AreGood :
      (c r i level k : ℕ) (p : List ℕ) (cs : TreeNodes)
      → id_below k p cs ≡ some r
      → Sub c r
      → c ≢ r
      → c < 2 ^ 64
      → AreGood i level cs
      → AreGood i level (add_child_below k p c cs)
  add_child_below-AreGood c r i level k p nil h sub ne word g = absurd (ground (arith, h))
  add_child_below-AreGood c r i level zero p (cons t cs) h sub ne word ((s, n, l, g), gs) =
      let kept = get_cuboid_id-add_child c p t in
      (
        (
          subst (λ x. Sub x i) (sym kept) s,
          (λ e. n (sym kept ∙ e)),
          get_level-add_child c p t ∙ l,
          add_child-IsGood c r p t h sub ne word g,
        ),
        gs,
      )
  add_child_below-AreGood c r i level (suc k) p (cons t cs) h sub ne word (g, gs) =
      (g, add_child_below-AreGood c r i level k p cs h sub ne word gs)

-- How often an id stands in the tree.
unfoldable mutual
  pub occurrences : ℕ → TreeNode → ℕ
  occurrences x (node i level children) = (if x == i then 1 else 0) + occurrences_below x children

  pub occurrences_below : ℕ → TreeNodes → ℕ
  occurrences_below x nil = 0
  occurrences_below x (cons c cs) = occurrences x c + occurrences_below x cs

mutual
  unfolding has occurrences

  pub occurrences-zero : (x : ℕ) (t : TreeNode) → has x t ≡ false → occurrences x t ≡ 0
  occurrences-zero x (node i level children) h =
      ground (arith, h, occurrences_below-zero x children)

  occurrences_below-zero :
      (x : ℕ) (cs : TreeNodes) → has_below x cs ≡ false → occurrences_below x cs ≡ 0
  occurrences_below-zero x nil h = refl
  occurrences_below-zero x (cons c cs) h =
      ground (arith, h, occurrences-zero x c, occurrences_below-zero x cs)

occurrences_below-push_back :
    (x : ℕ) (cs : TreeNodes) (n : TreeNode)
    → occurrences_below x (push_back cs n) ≡ occurrences_below x cs + occurrences x n
unfolding occurrences push_back
occurrences_below-push_back x nil n = omega arith
occurrences_below-push_back x (cons c cs) n = omega (arith, occurrences_below-push_back x cs n)

mutual
  unfolding occurrences id_at add_child

  pub occurrences-add_child :
      (x c r : ℕ) (p : List ℕ) (t : TreeNode)
      → id_at p t ≡ some r
      → occurrences x (add_child p c t) ≡ occurrences x t + (if x == c then 1 else 0)
  occurrences-add_child x c r [] (node i level children) h =
      ground (arith, occurrences_below-push_back x children (node c (suc level) nil))
  occurrences-add_child x c r (k ∷ p) (node i level children) h =
      omega (arith, occurrences_below-add_child x c r k p children h)

  occurrences_below-add_child :
      (x c r k : ℕ) (p : List ℕ) (cs : TreeNodes)
      → id_below k p cs ≡ some r
      → occurrences_below x (add_child_below k p c cs)
        ≡ occurrences_below x cs + (if x == c then 1 else 0)
  occurrences_below-add_child x c r k p nil h = absurd (ground (arith, h))
  occurrences_below-add_child x c r zero p (cons t cs) h =
      omega (arith, occurrences-add_child x c r p t h)
  occurrences_below-add_child x c r (suc k) p (cons t cs) h =
      omega (arith, occurrences_below-add_child x c r k p cs h)
