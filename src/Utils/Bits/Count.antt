-- ===== src/Utils/Bits/Count.antt =====
-- `bit_count` against the number of ones among the digits.
use husky_kylin.Prelude.{
  ℕ, zero, suc, ◌+◌, ◌/◌, ◌%◌, ◌^◌, ◌≤◌, ◌<◌, ◌≡◌, ◌≢◌, arith, refl, ◌∙◌, bit_and, inl, inr,
  lt_or_ge, ◌==◌, ==_iff, Bool-cases,
}
use native.Mathlib.Nat.{pow-suc}
use husky_kylin.Word.Digit.{bit, bit-zero, bit-high, bit-le-one, bit_ext}
use husky_kylin.Word.Mask.{Sub}
use husky_kylin.Word.Fields.{bit_and_mask}
use husky_kylin.Utils.Bits.{bit_count, bit_count_loop}

-- The number of ones among the `k` lowest digits.
unfoldable pub ones_below : ℕ → ℕ → ℕ
ones_below zero n = 0
ones_below (suc k) n = ones_below k n + bit n k

ones_below-suc : (k n : ℕ) → ones_below (suc k) n ≡ n % 2 + ones_below k (n / 2)
unfolding ones_below bit
ones_below-suc zero n = omega arith
ones_below-suc (suc k) n = omega (arith, ones_below-suc k n)

pub ones_below-zero : (k : ℕ) → ones_below k 0 ≡ 0
unfolding ones_below
ones_below-zero zero = refl
ones_below-zero (suc k) = omega (arith, ones_below-zero k, bit-zero k)

bit_count_loop_lem :
    (k fuel n count : ℕ)
    → k < fuel
    → n < 2 ^ k
    → bit_count_loop fuel n count ≡ count + ones_below k n
unfolding bit_count_loop
bit_count_loop_lem k zero n count enough h = absurd (omega arith)
bit_count_loop_lem zero (suc fuel) n count enough h =
    let none_left : n ≡ 0 = omega arith in rw none_left (omega (arith, ones_below-zero 0))
bit_count_loop_lem (suc k) (suc fuel) n count enough h = elim (Bool-cases (n == 0)) [
  | inl done ↦
      let none_left : n ≡ 0 = (==_iff n 0).0 done in
      rw none_left (omega (arith, ones_below-zero (suc k)))
  | inr more ↦ ground (
    arith,
    bit_count_loop_lem k fuel (n / 2) (count + bit_and n 1) (omega arith)
        (omega (arith, pow-suc 2 k)),
    ones_below-suc k n,
    bit_and_mask 1 n,
  )
]

-- The loop ends by its test, and the result is the number of ones among the 64 digits.
pub bit_count_lem : (n : ℕ) → n < 2 ^ 64 → bit_count n ≡ ones_below 64 n
unfolding bit_count
bit_count_lem n h = bit_count_loop_lem 64 65 n 0 (omega arith) h ∙ omega arith

pub ones_below-le : (k n : ℕ) → ones_below k n ≤ k
unfolding ones_below
ones_below-le zero n = omega arith
ones_below-le (suc k) n = omega (arith, ones_below-le k n, bit-le-one n k)

ones_below_mono : (k a b : ℕ) → Sub a b → ones_below k a ≤ ones_below k b
unfolding ones_below
ones_below_mono zero a b s = omega arith
ones_below_mono (suc k) a b s = omega (arith, ones_below_mono k a b s, s.digit k)

same_digits : (k a b j : ℕ) → Sub a b → ones_below k b ≤ ones_below k a → j < k → bit a j ≡ bit b j
unfolding ones_below
same_digits zero a b j s h lt = absurd (omega arith)
same_digits (suc k) a b j s h lt = elim (lt_or_ge j k) [
  | inl low ↦ same_digits k a b j s (omega (arith, ones_below_mono k a b s, s.digit k)) low
  | inr high ↦
      let e : k ≡ j = omega arith in rw (← e) (omega (arith, ones_below_mono k a b s, s.digit k))
]

-- A strict superset has more digits.
pub ones_below_strict : (a b : ℕ) → b < 2 ^ 64 → Sub a b → a ≢ b → ones_below 64 a < ones_below 64 b
ones_below_strict a b word s ne = elim (lt_or_ge (ones_below 64 a) (ones_below 64 b)) [
  | inl lt ↦ lt
  | inr ge ↦ absurd (
      ne (
        bit_ext a b λ j. elim (lt_or_ge j 64) [
          | inl low ↦ same_digits 64 a b j s ge low
          | inr high ↦ omega (arith, s.digit j, bit-high 64 b j word high)
        ]))
]
