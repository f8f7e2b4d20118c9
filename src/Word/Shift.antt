-- ===== src/Word/Shift.antt =====
-- Powers of two and bounds of the bit operations.
use native.Mathlib.Nat.{pow-suc}
use husky_kylin.Prelude.{ℕ, zero, suc, ◌+◌, ◌*◌, ◌^◌, ◌<◌, bit_and, bit_or, ◌≡◌, arith, ap}
use husky_kylin.Word.Digit.{bit-bit_or, bit-bit_and, bit-high, lt_of_bits}

pub pow-add : (a b : ℕ) → 2 ^ (a + b) ≡ 2 ^ a * 2 ^ b
pow-add a zero = let e : a + 0 ≡ a = omega arith in rw e (omega arith)
pow-add a (suc b) =
    let e : a + suc b ≡ suc (a + b) = omega arith in
    rw e (omega (arith, pow-suc 2 (a + b), pow-add a b, ap (λ (t : ℕ). 2 ^ a * t) (pow-suc 2 b)))

pub bit_or-lt : (k a b : ℕ) → a < 2 ^ k → b < 2 ^ k → bit_or a b < 2 ^ k
bit_or-lt k a b p q =
    lt_of_bits k (bit_or a b)
      λ i le. omega (arith, bit-bit_or a b i, bit-high k a i p le, bit-high k b i q le)

pub bit_and-lt : (k a b : ℕ) → a < 2 ^ k → bit_and a b < 2 ^ k
bit_and-lt k a b p =
    lt_of_bits k (bit_and a b) λ i le. omega (arith, bit-bit_and a b i, bit-high k a i p le)
