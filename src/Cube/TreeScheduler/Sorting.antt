-- ===== src/Cube/TreeScheduler/Sorting.antt =====
-- Sorting the ids in descending order puts the greatest in front.
use husky_kylin.Prelude.{
  ℕ, ◌≤◌, ◌≡◌, inl, inr, arith, refl, ltb, ◌==◌, ◌||◌, Bool-cases, List, [], ◌∷◌,
}
use husky_kylin.Collections.All
use husky_kylin.Collections.All.{All}
use husky_kylin.Collections.Sets.{contains}
use husky_kylin.Cube.TreeScheduler.{insert_descending, sort_descending}

contains-insert_descending :
    (k x : ℕ) (xs : List ℕ) → contains k (insert_descending x xs) ≡ (k == x || contains k xs)
unfolding contains insert_descending
contains-insert_descending k x [] = refl
contains-insert_descending k x (y ∷ ys) = ground (arith, contains-insert_descending k x ys)

pub contains-sort_descending :
    (k : ℕ) (xs : List ℕ) → contains k (sort_descending xs) ≡ contains k xs
unfolding contains sort_descending
contains-sort_descending k [] = refl
contains-sort_descending k (x ∷ xs) =
    ground
      (arith, contains-insert_descending k x (sort_descending xs), contains-sort_descending k xs)

All-insert_descending :
    (P : ℕ → Type 0) (x : ℕ) (xs : List ℕ) → P x → All P xs → All P (insert_descending x xs)
unfolding insert_descending
All-insert_descending P x [] p a = (p, tt)
All-insert_descending P x (y ∷ ys) p (q, a) = elim (Bool-cases (ltb y x)) [
  | inl e ↦ rw e (p, (q, a))
  | inr e ↦ rw e (q, All-insert_descending P x ys p a)
]

pub All-sort_descending : (P : ℕ → Type 0) (xs : List ℕ) → All P xs → All P (sort_descending xs)
unfolding sort_descending
All-sort_descending P [] a = tt
All-sort_descending P (x ∷ xs) (p, a) =
    All-insert_descending P x (sort_descending xs) p (All-sort_descending P xs a)

-- None is above the first.
abbrev pub IsTopped : List ℕ → Type 0
IsTopped [] = Unit
IsTopped (x ∷ xs) = All (λ y. y ≤ x) xs

insert_descending-IsTopped : (x : ℕ) (xs : List ℕ) → IsTopped xs → IsTopped (insert_descending x xs)
unfolding insert_descending
insert_descending-IsTopped x [] t = tt
insert_descending-IsTopped x (y ∷ ys) t = elim (Bool-cases (ltb y x)) [
  | inl e ↦ rw e (ground (arith, e), All.All-map _ _ ys (λ z h. ground (arith, e, h)) t)
  | inr e ↦ rw e (All-insert_descending (λ z. z ≤ y) x ys (ground (arith, e)) t)
]

pub sort_descending-IsTopped : (xs : List ℕ) → IsTopped (sort_descending xs)
unfolding sort_descending
sort_descending-IsTopped [] = tt
sort_descending-IsTopped (x ∷ xs) =
    insert_descending-IsTopped x (sort_descending xs) (sort_descending-IsTopped xs)

pub insert_descending-cons :
    (x : ℕ) (xs : List ℕ) → (y : ℕ) × (ys : List ℕ) × (insert_descending x xs ≡ y ∷ ys)
unfolding insert_descending
insert_descending-cons x [] = (x, [], refl)
insert_descending-cons x (y ∷ ys) = elim (Bool-cases (ltb y x)) [
  | inl e ↦ (x, y ∷ ys, rw e refl)
  | inr e ↦ (y, insert_descending x ys, rw e refl)
]
