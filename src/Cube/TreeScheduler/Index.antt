-- ===== src/Cube/TreeScheduler/Index.antt =====
-- `create_from_cuboids`: the ids in the tree and in its index.
use husky_kylin.Prelude.{
  ℕ, ◌^◌, ◌≤◌, ◌<◌, ◌≡◌, ◌≢◌, inl, inr, arith, refl, sym, ◌∙◌, ◌==◌, ==_iff, true, false, ◌||◌,
  ◌&&◌, Bool-cases, some, List, [], ◌∷◌, eq_or_ne, subst,
}
use husky_kylin.Collections.All.{All}
use husky_kylin.Collections.Sets.{contains}
use husky_kylin.Word.Mask.{Sub-le}
use husky_kylin.Cube.TreeScheduler.{
  TreeNode, get_cuboid_id, can_derive, do_find_best_parent, CuboidTree, add_cuboid, add_cuboids,
}
use husky_kylin.Cube.TreeScheduler.Nodes.{
  has, IsGood, can_derive_iff, has-Sub, do_find_best_parent-IsFound, do_find_best_parent-none,
  do_find_best_parent-some,
}
use husky_kylin.Cube.TreeScheduler.Growth.{
  good_word, has-Finds, has-add_child, get_cuboid_id-add_child, add_child-IsGood, occurrences,
  occurrences-zero, occurrences-add_child,
}

-- The tree is well-formed, and no id stands in it twice.
pub record IsTree (t : TreeNode) : Type 0 where
  pub good : IsGood t
  pub once : (x : ℕ) → occurrences x t ≤ 1

-- The tree after `add_cuboids`, for these ids.
pub record IsGrown (ids : List ℕ) (t u : CuboidTree) : Type 0 where
  pub tree : IsTree u.root
  pub same_root : get_cuboid_id u.root ≡ get_cuboid_id t.root
  pub same_index : u.index ≡ t.index
  pub members :
      (x : ℕ)
      → has x u.root ≡ (has x t.root || (contains x ids && can_derive x (get_cuboid_id t.root)))

absent_before :
    (c : ℕ) (t : CuboidTree) (r : ℕ) (p : List ℕ)
    → c < 2 ^ 64
    → IsGood t.root
    → do_find_best_parent c t.root ≡ some (r, p)
    → r ≢ c
    → has c t.root ≡ false
absent_before c t r p word good e ne = elim (Bool-cases (has c t.root)) [
  | inr no' ↦ no'
  | inl yes' ↦ absurd (ne (ground (arith, e, (has-Finds c word t.root good yes').found)))
]

add_cuboid-IsGrown :
    (c : ℕ) (t : CuboidTree) → c < 2 ^ 64 → IsTree t.root → IsGrown (c ∷ []) t (add_cuboid c t)
unfolding add_cuboid contains
add_cuboid-IsGrown c t word tree = elim (Bool-cases (can_derive c (get_cuboid_id t.root))) [
  | inr no' ↦
      rw (add_cuboid, do_find_best_parent-none c t.root no')
        (record {
          tree = tree;
          same_root = refl;
          same_index = refl;
          members = λ x. elim (eq_or_ne x c) [
            | inl e ↦ rw (e, no') (ground arith)
            | inr ne ↦ ground (arith, ne)
          ];
        })
  | inl yes' ↦
      let (r, p, e) = do_find_best_parent-some c t.root yes' in
      let f = do_find_best_parent-IsFound c r p t.root e in
      let small = has-Sub r t.root tree.good f.there in
      elim (eq_or_ne r c) [
        | inl same ↦
            let there : has c t.root ≡ true = subst (λ y. has y t.root ≡ true) same f.there in
            rw (add_cuboid, e, (==_iff r c).1 same)
              (record {
                tree = tree;
                same_root = refl;
                same_index = refl;
                members = λ x. elim (eq_or_ne x c) [
                  | inl at ↦ rw (at, there) (ground arith)
                  | inr away ↦ ground (arith, away)
                ];
              })
        | inr ne ↦
            let miss : (r == c) ≡ false = ground (arith, ne) in
            let sub =
              (can_derive_iff c r word (omega (arith, Sub-le small, good_word t.root tree.good))).0
                f.derives in
            let new : has c t.root ≡ false = absent_before c t r p word tree.good e ne in
            rw (add_cuboid, e, miss)
              (record {
                tree = record {
                  good = add_child-IsGood c r p t.root f.leads sub (λ q. ne (sym q)) word tree.good;
                  once = λ x. elim (eq_or_ne x c) [
                    | inl at ↦ ground (
                      arith,
                      at,
                      occurrences-add_child x c r p t.root f.leads,
                      subst (λ y. occurrences y t.root ≡ 0) (sym at)
                          (occurrences-zero c t.root new),
                    )
                    | inr away ↦
                        ground
                          (arith, away, occurrences-add_child x c r p t.root f.leads, tree.once x)
                  ];
                };
                same_root = get_cuboid_id-add_child c p t.root;
                same_index = refl;
                members = λ x. elim (eq_or_ne x c) [
                  | inl at ↦ rw (at, has-add_child c c r p t.root f.leads, yes') (ground arith)
                  | inr away ↦ rw (has-add_child x c r p t.root f.leads) (ground (arith, away))
                ];
              })
      ]
]

pub add_cuboids-IsGrown :
    (ids : List ℕ) (t : CuboidTree)
    → All (λ x. x < 2 ^ 64) ids
    → IsTree t.root
    → IsGrown ids t (add_cuboids ids t)
unfolding add_cuboids contains
add_cuboids-IsGrown [] t words tree = record {
  tree = tree;
  same_root = refl;
  same_index = refl;
  members = λ x. ground arith;
}
add_cuboids-IsGrown (c ∷ ids) t (word, words) tree =
    let first = add_cuboid-IsGrown c t word tree in
    let more = add_cuboids-IsGrown ids (add_cuboid c t) words first.tree in
    record {
      tree = more.tree;
      same_root = more.same_root ∙ first.same_root;
      same_index = more.same_index ∙ first.same_index;
      members = λ x. more.members x ∙ rw (first.same_root, first.members x) (ground arith);
    }
