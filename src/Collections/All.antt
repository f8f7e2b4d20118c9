-- ===== src/Collections/All.antt =====
-- A property of every element of a set.
use husky_kylin.Prelude.{ℕ, ◌≡◌, true, List, [], ◌∷◌, ◌++◌, ltb, ◌==◌, inl, inr, Bool-cases}
use husky_kylin.Collections.Sets.{
  contains, insert, insert_all, contains-cons, contains-head, contains-tail,
}

module _ {ℓ κ} {A : Type ℓ} (P : A → Type κ) where
  abbrev pub All : List A → Type κ
  All [] = Unit
  All (x ∷ xs) = P x × All xs

  pub All-append : (xs ys : List A) → All xs → All ys → All (xs ++ ys)
  All-append [] ys p q = q
  All-append (x ∷ xs) ys (p, ps) q = (p, All-append xs ys ps q)

pub All-map {ℓ κ μ} :
    {A : Type ℓ} (P : A → Type κ) (Q : A → Type μ) (xs : List A)
    → ((x : A) → P x → Q x)
    → All P xs
    → All Q xs
All-map P Q [] f p = tt
All-map P Q (x ∷ xs) f (p, ps) = (f x p, All-map P Q xs f ps)

module _ {κ} (P : ℕ → Type κ) where
  pub All-insert : (x : ℕ) (s : List ℕ) → P x → All P s → All P (insert x s)
  unfolding insert
  All-insert x [] p a = (p, tt)
  All-insert x (y ∷ ys) p (q, qs) = elim (Bool-cases (ltb x y)) [
    | inl lt ↦ rw lt (p, (q, qs))
    | inr ge ↦ elim (Bool-cases (x == y)) [
      | inl e ↦ rw (ge, e) (q, qs)
      | inr ne ↦ rw (ge, ne) (q, All-insert x ys p qs)
    ]
  ]

  pub All-insert_all : (xs s : List ℕ) → All P xs → All P s → All P (insert_all xs s)
  unfolding insert_all
  All-insert_all [] s a b = b
  All-insert_all (x ∷ xs) s (p, a) b = All-insert_all xs (insert x s) a (All-insert x s p b)

  pub All-contains : (x : ℕ) (s : List ℕ) → All P s → contains x s ≡ true → P x
  All-contains x [] a h = unfold contains in cc h
  All-contains x (y ∷ ys) (p, ps) h = elim (contains-cons x y ys h) [
    | inl e ↦ rw e p
    | inr rest ↦ All-contains x ys ps rest
  ]

  pub All-of_contains : (s : List ℕ) → ((x : ℕ) → contains x s ≡ true → P x) → All P s
  All-of_contains [] h = tt
  All-of_contains (x ∷ xs) h =
      (h x (contains-head x xs), All-of_contains xs (λ y m. h y (contains-tail y x xs m)))
