-- ===== src/Word/Step.antt =====
-- The bit operations, one equation for the lowest digit. The native operations mean a recursion
-- on binary digits with fuel; here the fuel is dropped.
use Prim.Native.Nat.{
  min, max, differ, digits, bitwise, bit_and-bitwise, bit_or-bitwise, bit_xor-bitwise,
}
use husky_kylin.Prelude.{
  ℕ, zero, suc, ◌+◌, ◌-◌, ◌*◌, ◌/◌, ◌%◌, ◌≤◌, bit_and, bit_or, bit_xor, ◌≡◌, refl, arith,
}

module _ (rest : ℕ → ℕ) (digit : ℕ → ℕ → ℕ) where
  digits-zero : (fuel y : ℕ) → digits rest digit fuel 0 y ≡ rest y
  digits-zero zero y = refl
  digits-zero (suc fuel) y = refl

  -- More fuel than the first number changes nothing.
  digits_settle :
      (x y fuel more : ℕ)
      → x ≤ more
      → x ≤ fuel
      → digits rest digit more x y ≡ digits rest digit fuel x y
  digits_settle zero y fuel more h k = rw (digits-zero more y, digits-zero fuel y) refl
  digits_settle (suc x) y (suc fuel) (suc more) h k =
      let halves = digits_settle (suc x / 2) (y / 2) fuel more (omega arith) (omega arith) in
      rw halves refl
  digits_settle (suc x) y zero more h k = absurd (omega arith)
  digits_settle (suc x) y (suc fuel) zero h k = absurd (omega arith)

  lowest_digit :
      (x y : ℕ)
      → bitwise rest digit (suc x) y
        ≡ digit (suc x % 2) (y % 2) + 2 * bitwise rest digit (suc x / 2) (y / 2)
  lowest_digit x y =
      let short = digits_settle (suc x / 2) (y / 2) (suc x / 2) x (omega arith) (omega arith) in
      omega (arith, short)

pub bit_and_step : (x y : ℕ) → bit_and x y ≡ min (x % 2) (y % 2) + 2 * bit_and (x / 2) (y / 2)
bit_and_step zero y = simp bit_and-bitwise (omega arith)
bit_and_step (suc x) y = simp bit_and-bitwise (lowest_digit (λ rest. 0) min x y)

pub bit_or_step : (x y : ℕ) → bit_or x y ≡ max (x % 2) (y % 2) + 2 * bit_or (x / 2) (y / 2)
bit_or_step zero y = simp bit_or-bitwise (omega arith)
bit_or_step (suc x) y = simp bit_or-bitwise (lowest_digit (λ rest. rest) max x y)

differ_lem : (x y : ℕ) → differ x y ≡ max x y - min x y
differ_lem zero y = omega arith
differ_lem (suc x) zero = omega arith
differ_lem (suc x) (suc y) = omega (arith, differ_lem x y)

pub bit_xor_step :
    (x y : ℕ)
    → bit_xor x y ≡ (max (x % 2) (y % 2) - min (x % 2) (y % 2)) + 2 * bit_xor (x / 2) (y / 2)
bit_xor_step zero y = simp bit_xor-bitwise (omega arith)
bit_xor_step (suc x) y =
    rw (← differ_lem (suc x % 2) (y % 2))
      (simp bit_xor-bitwise (lowest_digit (λ rest. rest) differ x y))
