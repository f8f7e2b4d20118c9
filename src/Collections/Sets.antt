-- ===== src/Collections/Sets.antt =====
-- `std::set<uint64_t>` as the list of its elements in ascending order.
use husky_kylin.Prelude.{
  ℕ, suc, ◌≤◌, ◌<◌, ◌≡◌, arith, refl, Bool, true, false, ◌||◌, List, [], ◌∷◌, ltb, ◌==◌,
  if◌then◌else◌, length, inl, inr, ◌⊎◌, Bool-cases, ==_iff,
}

-- `find` and `count`.
unfoldable pub contains : ℕ → List ℕ → Bool
contains x [] = false
contains x (y ∷ ys) = x == y || contains x ys

unfoldable pub insert : ℕ → List ℕ → List ℕ
insert x [] = x ∷ []
insert x (y ∷ ys) = if ltb x y then x ∷ y ∷ ys else (if x == y then y ∷ ys else y ∷ insert x ys)

-- `insert(first, last)`: the elements of the range one after the other.
unfoldable pub insert_all : List ℕ → List ℕ → List ℕ
insert_all [] s = s
insert_all (x ∷ xs) s = insert_all xs (insert x s)

-- The elements ascend, and the first one is above `low` (or any number, if `low` is not there).
abbrev pub Above : ℕ → List ℕ → Type 0
Above low [] = Unit
Above low (x ∷ xs) = (low < x) × Above x xs

abbrev pub IsAscending : List ℕ → Type 0
IsAscending [] = Unit
IsAscending (x ∷ xs) = Above x xs

pub contains-insert : (y x : ℕ) (s : List ℕ) → contains y (insert x s) ≡ (y == x || contains y s)
unfolding contains insert
contains-insert y x [] = refl
contains-insert y x (z ∷ zs) = ground (arith, contains-insert y x zs)

pub contains-insert_all :
    (y : ℕ) (xs s : List ℕ) → contains y (insert_all xs s) ≡ (contains y xs || contains y s)
unfolding contains insert_all
contains-insert_all y [] s = refl
contains-insert_all y (x ∷ xs) s =
    ground (arith, contains-insert_all y xs (insert x s), contains-insert y x s)

insert-Above : (low x : ℕ) (s : List ℕ) → low < x → Above low s → Above low (insert x s)
unfolding insert
insert-Above low x [] h a = (h, tt)
insert-Above low x (y ∷ ys) h a = ground (arith, insert-Above y x ys)

pub insert-IsAscending : (x : ℕ) (s : List ℕ) → IsAscending s → IsAscending (insert x s)
unfolding insert
insert-IsAscending x [] a = tt
insert-IsAscending x (y ∷ ys) a = ground (arith, insert-Above y x ys)

pub insert_all-IsAscending : (xs s : List ℕ) → IsAscending s → IsAscending (insert_all xs s)
unfolding insert_all
insert_all-IsAscending [] s a = a
insert_all-IsAscending (x ∷ xs) s a =
    insert_all-IsAscending xs (insert x s) (insert-IsAscending x s a)

pub contains-nil : (x : ℕ) → contains x [] ≡ true → ⊥
unfolding contains
contains-nil x h = cc

pub contains-head : (x : ℕ) (xs : List ℕ) → contains x (x ∷ xs) ≡ true
unfolding contains
contains-head x xs = ground arith

pub contains-tail : (y x : ℕ) (xs : List ℕ) → contains y xs ≡ true → contains y (x ∷ xs) ≡ true
unfolding contains
contains-tail y x xs h = ground arith

pub contains-cons :
    (y x : ℕ) (xs : List ℕ) → contains y (x ∷ xs) ≡ true → (y ≡ x) ⊎ (contains y xs ≡ true)
unfolding contains
contains-cons y x xs h = elim (Bool-cases (y == x)) [
  | inl e ↦ inl ((==_iff y x).0 e)
  | inr e ↦ inr (ground arith)
]

-- What is inserted is there, and what was there stays.
pub contains-insert_self : (x : ℕ) (s : List ℕ) → contains x (insert x s) ≡ true
contains-insert_self x s = ground (arith, contains-insert x x s)

pub contains-insert_mono :
    (y x : ℕ) (s : List ℕ) → contains y s ≡ true → contains y (insert x s) ≡ true
contains-insert_mono y x s h = ground (arith, contains-insert y x s)

Above-not-contains : (low y : ℕ) (s : List ℕ) → y ≤ low → Above low s → contains y s ≡ false
unfolding contains
Above-not-contains low y [] h a = refl
Above-not-contains low y (x ∷ xs) h a = ground (arith, Above-not-contains x y xs)

-- The size grows by one exactly if the element is new.
pub length-insert :
    (x : ℕ) (s : List ℕ)
    → IsAscending s
    → length (insert x s) ≡ (if contains x s then length s else suc (length s))
unfolding contains insert
length-insert x [] a = refl
length-insert x (y ∷ []) a = ground arith
length-insert x (y ∷ z ∷ zs) a = ground (arith, length-insert x (z ∷ zs), Above-not-contains z x zs)
