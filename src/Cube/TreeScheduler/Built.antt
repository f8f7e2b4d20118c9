-- ===== src/Cube/TreeScheduler/Built.antt =====
-- The index of the tree, and the searches that `TreeCuboidScheduler` offers.
use husky_kylin.Prelude.{
  ℕ, zero, suc, ◌+◌, ◌^◌, ◌≤◌, ◌<◌, ◌≡◌, inl, inr, arith, refl, sym, ◌∙◌, ap, ◌==◌, true, false,
  Bool, ◌||◌, ◌&&◌, none, some, List, [], ◌∷◌, ◌++◌, eq_or_ne,
}
use husky_kylin.Collections.All.{All}
use husky_kylin.Collections.Sets.{contains, insert, contains-insert}
use husky_kylin.Collections.Maps.{find, emplace}
use husky_kylin.Word.Mask.{Sub-refl}
use husky_kylin.Cube.TreeScheduler.{
  TreeNode, node, TreeNodes, nil, cons, get_cuboid_id, can_derive, CuboidTree, set_root, push_all,
  index_loop, node_count, node_counts, build_index, keys_of, get_all_cuboid_ids, is_valid,
}
use husky_kylin.Cube.TreeScheduler.Nodes.{has, has_below, IsGood, can_derive_iff}
use husky_kylin.Cube.TreeScheduler.Growth.{occurrences}
use husky_kylin.Cube.TreeScheduler.Index.{IsTree, IsGrown}

-- The key is in the index.
unfoldable known : ℕ → List (ℕ × TreeNode) → Bool
known k [] = false
known k ((j, n) ∷ m) = k == j || known k m

known-emplace :
    (k j : ℕ) (n : TreeNode) (m : List (ℕ × TreeNode))
    → known k (emplace j n m) ≡ (k == j || known k m)
unfolding known emplace
known-emplace k j n [] = ground arith
known-emplace k j n ((i, w) ∷ m) = ground (arith, known-emplace k j n m)

unfoldable any_has : ℕ → List TreeNode → Bool
any_has k [] = false
any_has k (n ∷ queue) = has k n || any_has k queue

unfoldable total : List TreeNode → ℕ
total [] = 0
total (n ∷ queue) = node_count n + total queue

any_has-append :
    (k : ℕ) (queue : List TreeNode) (n : TreeNode)
    → any_has k (queue ++ n ∷ []) ≡ (any_has k queue || has k n)
unfolding any_has
any_has-append k [] n = ground arith
any_has-append k (q ∷ queue) n = ground (arith, any_has-append k queue n)

total-append :
    (queue : List TreeNode) (n : TreeNode) → total (queue ++ n ∷ []) ≡ total queue + node_count n
unfolding total
total-append [] n = omega arith
total-append (q ∷ queue) n = omega (arith, total-append queue n)

any_has-push_all :
    (k : ℕ) (queue : List TreeNode) (cs : TreeNodes)
    → any_has k (push_all queue cs) ≡ (any_has k queue || has_below k cs)
unfolding push_all has
any_has-push_all k queue nil = ground arith
any_has-push_all k queue (cons c cs) =
    ground (arith, any_has-push_all k (queue ++ c ∷ []) cs, any_has-append k queue c)

total-push_all :
    (queue : List TreeNode) (cs : TreeNodes)
    → total (push_all queue cs) ≡ total queue + node_counts cs
unfolding push_all node_count
total-push_all queue nil = omega arith
total-push_all queue (cons c cs) =
    omega (arith, total-push_all (queue ++ c ∷ []) cs, total-append queue c)

index_loop_lem :
    (fuel : ℕ) (queue : List TreeNode) (m : List (ℕ × TreeNode))
    → total queue ≤ fuel
    → (out : List (ℕ × TreeNode)) × (index_loop fuel queue m ≡ some out)
      × ((k : ℕ) → known k out ≡ (known k m || any_has k queue))
unfolding index_loop total any_has has node_count
index_loop_lem fuel [] m enough = (m, refl, λ k. ground arith)
index_loop_lem zero (node i level children ∷ queue) m enough = absurd (omega (arith, enough))
index_loop_lem (suc fuel) (node i level children ∷ queue) m enough =
    let (out, e, keys) =
      index_loop_lem fuel (push_all queue children) (emplace i (node i level children) m)
        (omega (arith, enough, total-push_all queue children)) in
    (
      out,
      e,
      λ k. ground (
        arith,
        keys k,
        known-emplace k i (node i level children) m,
        any_has-push_all k queue children,
      ),
    )

known-find :
    (k : ℕ) (m : List (ℕ × TreeNode))
    → known k m ≡ (elim (find k m) as (λ x. Bool) [ none ↦ false | some n ↦ true ])
unfolding known find
known-find k [] = refl
known-find k ((j, n) ∷ m) = ground (arith, known-find k m)

contains-keys_of :
    (k : ℕ) (m : List (ℕ × TreeNode)) (keys : List ℕ)
    → contains k (keys_of m keys) ≡ (known k m || contains k keys)
unfolding known keys_of
contains-keys_of k [] keys = refl
contains-keys_of k ((j, n) ∷ m) keys =
    ground (arith, contains-keys_of k m (insert j keys), contains-insert k j keys)

-- A tree that was built of these ids.
pub record IsBuilt (ids : List ℕ) (base : ℕ) (t : CuboidTree) : Type 0 where
  pub tree : IsTree t.root
  pub root : get_cuboid_id t.root ≡ base
  pub valid : (x : ℕ) → is_valid t x ≡ (contains x ids && can_derive x base)
  pub all : (x : ℕ) → contains x (get_all_cuboid_ids t) ≡ is_valid t x
  pub nodes : (x : ℕ) → has x t.root ≡ is_valid t x
  pub listed : contains base ids ≡ true
  pub greatest : All (λ x. x ≤ base) ids

pub single-IsTree : (base : ℕ) → base < 2 ^ 64 → IsTree (set_root base).root
unfolding set_root IsGood occurrences
single-IsTree base word = record { good = (word, tt); once = λ x. ground arith }

-- What the tree has after `add_cuboids`, which gets the root as the first id.
grown-members :
    (base : ℕ) (ids : List ℕ) (t : CuboidTree) (x : ℕ)
    → base < 2 ^ 64
    → IsGrown (base ∷ ids) (set_root base) t
    → has x t.root ≡ (contains x (base ∷ ids) && can_derive x base)
unfolding set_root has contains
grown-members base ids t x word g =
    let self = (can_derive_iff base base word word).1 (Sub-refl base) in
    elim (eq_or_ne x base) [
      | inl e ↦ rw (g.members x, e, self) (ground arith)
      | inr ne ↦ rw (g.members x) (ground (arith, ne))
    ]

pub build_index-IsBuilt :
    (base : ℕ) (ids given : List ℕ) (t : CuboidTree)
    → base < 2 ^ 64
    → ((x : ℕ) → contains x (base ∷ ids) ≡ contains x given)
    → All (λ x. x ≤ base) given
    → IsGrown (base ∷ ids) (set_root base) t
    → (u : CuboidTree) × (build_index t ≡ some u) × IsBuilt given base u
unfolding build_index is_valid get_all_cuboid_ids any_has total
build_index-IsBuilt base ids given t word same top g =
    let (out, e, keys) = index_loop_lem (node_count t.root) (t.root ∷ []) t.index (ground arith) in
    let fresh : t.index ≡ [] = unfold set_root in g.same_index in
    let nodes : (x : ℕ) → has x t.root ≡ known x out =
      λ x. unfold known in ground (arith, keys x, ap (known x) fresh) in
    let members : (x : ℕ) → has x t.root ≡ (contains x given && can_derive x base) =
      λ x. grown-members base ids t x word g ∙ ap (λ b. b && can_derive x base) (same x) in
    (
      record t { index = out },
      rw e refl,
      record {
        tree = g.tree;
        root = unfold set_root in g.same_root;
        valid = λ x. sym (known-find x out) ∙ sym (nodes x) ∙ members x;
        all = λ x. unfold contains in ground (arith, contains-keys_of x out [], known-find x out);
        nodes = λ x. nodes x ∙ known-find x out;
        listed = unfold contains in (sym (same base) ∙ ground arith);
        greatest = top;
      },
    )
