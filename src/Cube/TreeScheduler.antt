-- ===== src/Cube/TreeScheduler.antt =====
-- src/core-cube/cuboid/tree_cuboid_scheduler: the scheduler that knows no aggregation groups.
pub mod Nodes
pub mod Growth
pub mod Index
pub mod Sorting
pub mod Built
pub mod Match
use husky_kylin.Prelude.{
  ℕ, zero, suc, ◌+◌, bit_and, ltb, leb, ◌==◌, max, if◌then◌else◌, Bool, true, false, Option, none,
  some, List, [], ◌∷◌, ◌++◌, ◌>>=◌,
}
use husky_kylin.Word.{not_64}
use husky_kylin.Collections.Sets.{insert}
use husky_kylin.Collections.Maps.{find, emplace}

mutual
  pub data TreeNode : Type 0 where
    node : ℕ → ℕ → TreeNodes → TreeNode

  pub data TreeNodes : Type 0 where
    nil : TreeNodes
    cons : TreeNode → TreeNodes → TreeNodes

abbrev pub get_cuboid_id : TreeNode → ℕ
get_cuboid_id (node cuboid_id level children) = cuboid_id

abbrev pub get_children : TreeNode → TreeNodes
get_children (node cuboid_id level children) = children

-- `children_.push_back(child)`.
unfoldable pub push_back : TreeNodes → TreeNode → TreeNodes
push_back nil child = cons child nil
push_back (cons c cs) child = cons c (push_back cs child)

unfoldable pub can_derive : ℕ → ℕ → Bool
can_derive cuboid_id parent_cuboid = bit_and cuboid_id (not_64 parent_cuboid) == 0

-- A pointer to a node is its id and the way to it: the number of a child, one of its children, ...
-- `sort` puts the least id in front; of equal ones the first is taken here.
unfoldable pub min_candidate : Option (ℕ × List ℕ) → Option (ℕ × List ℕ) → Option (ℕ × List ℕ)
min_candidate none b = b
min_candidate (some a) none = some a
min_candidate (some (i, p)) (some (j, q)) = if leb i j then some (i, p) else some (j, q)

unfoldable pub in_first : Option (ℕ × List ℕ) → Option (ℕ × List ℕ)
in_first none = none
in_first (some (i, p)) = some (i, 0 ∷ p)

unfoldable pub in_later : Option (ℕ × List ℕ) → Option (ℕ × List ℕ)
in_later none = none
in_later (some (i, [])) = some (i, [])
in_later (some (i, k ∷ p)) = some (i, suc k ∷ p)

unfoldable pub or_itself : ℕ → Option (ℕ × List ℕ) → ℕ × List ℕ
or_itself i none = (i, [])
or_itself i (some candidate) = candidate

unfoldable mutual
  pub do_find_best_parent : ℕ → TreeNode → Option (ℕ × List ℕ)
  do_find_best_parent cuboid_id (node i level children) =
      let candidate = min_candidates cuboid_id children in
      if can_derive cuboid_id i then some (or_itself i candidate) else none

  pub min_candidates : ℕ → TreeNodes → Option (ℕ × List ℕ)
  min_candidates cuboid_id nil = none
  min_candidates cuboid_id (cons child children) =
      min_candidate (in_first (do_find_best_parent cuboid_id child))
        (in_later (min_candidates cuboid_id children))

-- `add_child` at the node that a pointer leads to, with the level of that node.
unfoldable mutual
  pub add_child : List ℕ → ℕ → TreeNode → TreeNode
  add_child [] child_id (node i level children) =
      node i level (push_back children (node child_id (suc level) nil))
  add_child (k ∷ p) child_id (node i level children) =
      node i level (add_child_below k p child_id children)

  pub add_child_below : ℕ → List ℕ → ℕ → TreeNodes → TreeNodes
  add_child_below k p child_id nil = nil
  add_child_below zero p child_id (cons c cs) = cons (add_child p child_id c) cs
  add_child_below (suc k) p child_id (cons c cs) = cons c (add_child_below k p child_id cs)

-- The level of the node that a pointer leads to.
unfoldable mutual
  pub level_at : List ℕ → TreeNode → ℕ
  level_at [] (node i level children) = level
  level_at (k ∷ p) (node i level children) = level_below k p children

  pub level_below : ℕ → List ℕ → TreeNodes → ℕ
  level_below k p nil = 0
  level_below zero p (cons c cs) = level_at p c
  level_below (suc k) p (cons c cs) = level_below k p cs

-- `index_` points into the tree, which does not change once it is built.
pub record CuboidTree : Type 0 where
  pub tree_levels : ℕ
  pub root : TreeNode
  pub index : List (ℕ × TreeNode)

unfoldable pub set_root : ℕ → CuboidTree
set_root basic_cuboid_id = record { tree_levels = 0; root = node basic_cuboid_id 0 nil; index = [] }

unfoldable pub add_cuboid : ℕ → CuboidTree → CuboidTree
add_cuboid cuboid_id t = elim (do_find_best_parent cuboid_id t.root) [
  | none ↦ t
  | some (parent, p) ↦ if parent == cuboid_id then t else record t {
    tree_levels = max t.tree_levels (level_at p t.root + 1);
    root = add_child p cuboid_id t.root;
  }
]

unfoldable pub add_cuboids : List ℕ → CuboidTree → CuboidTree
add_cuboids [] t = t
add_cuboids (cuboid_id ∷ rest) t = add_cuboids rest (add_cuboid cuboid_id t)

-- The nodes are pushed at the end of the queue.
unfoldable pub push_all : List TreeNode → TreeNodes → List TreeNode
push_all queue nil = queue
push_all queue (cons c cs) = push_all (queue ++ c ∷ []) cs

unfoldable pub index_loop : ℕ → List TreeNode → List (ℕ × TreeNode) → Option (List (ℕ × TreeNode))
index_loop fuel [] index = some index
index_loop zero (n ∷ queue) index = none
index_loop (suc fuel) (n ∷ queue) index =
    index_loop fuel (push_all queue (get_children n)) (emplace (get_cuboid_id n) n index)

-- The number of nodes, which bounds the rounds of `build_index`.
unfoldable mutual
  pub node_count : TreeNode → ℕ
  node_count (node i level children) = suc (node_counts children)

  pub node_counts : TreeNodes → ℕ
  node_counts nil = 0
  node_counts (cons c cs) = node_count c + node_counts cs

unfoldable pub build_index : CuboidTree → Option CuboidTree
build_index t = do
  index ← index_loop (node_count t.root) (t.root ∷ []) t.index
  some (record t { index = index })

-- `std::sort` in descending order.
unfoldable pub insert_descending : ℕ → List ℕ → List ℕ
insert_descending x [] = x ∷ []
insert_descending x (y ∷ ys) =
    let rest = insert_descending x ys in if ltb y x then x ∷ y ∷ ys else y ∷ rest

unfoldable pub sort_descending : List ℕ → List ℕ
sort_descending [] = []
sort_descending (x ∷ xs) = insert_descending x (sort_descending xs)

unfoldable pub build_sorted : List ℕ → Option (List ℕ × CuboidTree)
build_sorted [] = none
build_sorted (basic_cuboid_id ∷ rest) = do
  tree ← build_index (add_cuboids (basic_cuboid_id ∷ rest) (set_root basic_cuboid_id))
  some (basic_cuboid_id ∷ rest, tree)

-- The input is sorted in place. An empty one has no element 0.
unfoldable pub create_from_cuboids : List ℕ → Option (List ℕ × CuboidTree)
create_from_cuboids all_cuboid_ids = build_sorted (sort_descending all_cuboid_ids)

unfoldable pub keys_of : List (ℕ × TreeNode) → List ℕ → List ℕ
keys_of [] keys = keys
keys_of ((k, n) ∷ index) keys = keys_of index (insert k keys)

unfoldable pub get_all_cuboid_ids : CuboidTree → List ℕ
get_all_cuboid_ids t = keys_of t.index []

unfoldable pub ids_of : TreeNodes → List ℕ
ids_of nil = []
ids_of (cons c cs) = get_cuboid_id c ∷ ids_of cs

-- A failed CHECK for an id that is not in the index.
unfoldable pub get_spanning_cuboid : CuboidTree → ℕ → Option (List ℕ)
get_spanning_cuboid t cuboid_id = do n ← find cuboid_id t.index; some (ids_of (get_children n))

unfoldable pub is_valid : CuboidTree → ℕ → Bool
is_valid t cuboid_id = elim (find cuboid_id t.index) [ none ↦ false | some n ↦ true ]

-- The parent's id is read through a pointer that can be null.
unfoldable pub find_best_match_cuboid : CuboidTree → ℕ → Option ℕ
find_best_match_cuboid t cuboid_id =
    if is_valid t cuboid_id
    then some cuboid_id
    else (do (parent, p) ← do_find_best_parent cuboid_id t.root; some parent)
