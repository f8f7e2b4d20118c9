-- ===== src/Prelude/Texts.antt =====
-- The equality and the order of `std::string`.
use mathlib.Core.Path.{◌≡◌, refl, subst}
use mathlib.Core.Logic.{◌≢◌, ◌⊎◌, inl, inr}
use mathlib.Core.Bool.{Bool, true, false, ◌||◌, ◌&&◌}
use mathlib.Core.List.{[], ◌∷◌}
use native.Mathlib.Omega.{arith}
use husky_kylin.Prelude.Tests.{◌==◌, ltb, Bool-cases}
use husky_kylin.Prelude.Strings.{Text, text_eq}

-- `a < b`, byte by byte.
unfoldable pub text_lt : Text → Text → Bool
text_lt a [] = false
text_lt [] (y ∷ ys) = true
text_lt (x ∷ xs) (y ∷ ys) = ltb x y || (x == y && text_lt xs ys)

pub text_eq_refl : (a : Text) → text_eq a a ≡ true
unfolding text_eq
text_eq_refl [] = refl
text_eq_refl (x ∷ xs) = ground (arith, text_eq_refl xs)

pub text_eq-true : (a b : Text) → text_eq a b ≡ true → a ≡ b
unfolding text_eq
text_eq-true [] [] h = refl
text_eq-true [] (y ∷ ys) h = absurd (ground arith)
text_eq-true (x ∷ xs) [] h = absurd (ground arith)
text_eq-true (x ∷ xs) (y ∷ ys) h = ground (arith, text_eq-true xs ys)

pub text_eq-ne : (a b : Text) → a ≢ b → text_eq a b ≡ false
text_eq-ne a b ne = elim (Bool-cases (text_eq a b)) [
  | inl e ↦ absurd (ne (text_eq-true a b e))
  | inr e ↦ e
]

-- Two strings are the same, or they are told apart both ways round.
pub text_same_or_ne : (a b : Text) → (a ≡ b) ⊎ (a ≢ b)
text_same_or_ne a b = elim (Bool-cases (text_eq a b)) [
  | inl e ↦ inl (text_eq-true a b e)
  | inr e ↦
      inr λ same. absurd (ground (arith, e, subst (λ c. text_eq a c ≡ true) same (text_eq_refl a)))
]

-- The order is strict, transitive and total.
pub text_lt_irrefl : (a : Text) → text_lt a a ≡ false
unfolding text_lt
text_lt_irrefl [] = refl
text_lt_irrefl (x ∷ xs) = ground (arith, text_lt_irrefl xs)

pub text_lt_trans : (a b c : Text) → text_lt a b ≡ true → text_lt b c ≡ true → text_lt a c ≡ true
unfolding text_lt
text_lt_trans a [] c h g = absurd (ground arith)
text_lt_trans [] (y ∷ ys) [] h g = absurd (ground arith)
text_lt_trans [] (y ∷ ys) (z ∷ zs) h g = refl
text_lt_trans (x ∷ xs) (y ∷ ys) [] h g = absurd (ground arith)
text_lt_trans (x ∷ xs) (y ∷ ys) (z ∷ zs) h g = ground (arith, text_lt_trans xs ys zs)

pub text_lt-total : (a b : Text) → text_eq a b ≡ false → text_lt a b ≡ false → text_lt b a ≡ true
unfolding text_lt text_eq
text_lt-total [] [] h g = absurd (ground arith)
text_lt-total [] (y ∷ ys) h g = absurd (ground arith)
text_lt-total (x ∷ xs) [] h g = refl
text_lt-total (x ∷ xs) (y ∷ ys) h g = ground (arith, text_lt-total xs ys)
