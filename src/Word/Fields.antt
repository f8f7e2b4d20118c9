-- ===== src/Word/Fields.antt =====
-- `|` of disjoint fields and `&` with a mask of low ones, as arithmetic.
use native.Mathlib.Nat.{pow-suc, one-le-pow, div-add-mod', mod-lt}
use husky_kylin.Prelude.{
  ℕ, zero, suc, ◌+◌, ◌*◌, ◌-◌, ◌/◌, ◌%◌, ◌^◌, ◌<◌, bit_and, bit_or, ◌≡◌, arith, ap, ◌∙◌,
}
use husky_kylin.Word.Step.{bit_or_step, bit_and_step}
use husky_kylin.Word.Digit.{bit_ext, bit-bit_or, bit-bit_and, bit-zero}

pub bit_or-zero : (a : ℕ) → bit_or a 0 ≡ a
bit_or-zero a = bit_ext (bit_or a 0) a (λ i. omega (arith, bit-bit_or a 0 i, bit-zero i))

pub zero-bit_or : (a : ℕ) → bit_or 0 a ≡ a
zero-bit_or a = bit_ext (bit_or 0 a) a (λ i. omega (arith, bit-bit_or 0 a i, bit-zero i))

bit_and-zero : (a : ℕ) → bit_and a 0 ≡ 0
bit_and-zero a = bit_ext (bit_and a 0) 0 (λ i. omega (arith, bit-bit_and a 0 i, bit-zero i))

times-pow-suc : (q k : ℕ) → q * 2 ^ suc k ≡ 2 * (q * 2 ^ k)
times-pow-suc q k = omega (arith, ap (λ (t : ℕ). q * t) (pow-suc 2 k))

-- `(q << k) | r` is a sum where `r` has `k` digits.
pub bit_or_fields : (k q r : ℕ) → r < 2 ^ k → bit_or (q * 2 ^ k) r ≡ q * 2 ^ k + r
bit_or_fields zero q r fits =
    let none_left : r ≡ 0 = omega arith in
    let whole : q * 1 ≡ q = omega arith in rw (none_left, whole, bit_or-zero) (omega arith)
bit_or_fields (suc k) q r fits =
    let halved : q * 2 ^ suc k / 2 ≡ q * 2 ^ k = omega (arith, times-pow-suc q k) in
    let rest = bit_or_fields k q (r / 2) (omega (arith, pow-suc 2 k)) in
    bit_or_step (q * 2 ^ suc k) r ∙ rw halved (omega (arith, rest, times-pow-suc q k))

low_fields : (k q r : ℕ) → r < 2 ^ k → bit_and (q * 2 ^ k + r) (2 ^ k - 1) ≡ r
low_fields zero q r fits = bit_and-zero (q * 1 + r) ∙ omega arith
low_fields (suc k) q r fits =
    let ones : (2 ^ suc k - 1) / 2 ≡ 2 ^ k - 1 = omega (arith, pow-suc 2 k) in
    let halved : (q * 2 ^ suc k + r) / 2 ≡ q * 2 ^ k + r / 2 = omega (arith, times-pow-suc q k) in
    let rest = low_fields k q (r / 2) (omega (arith, pow-suc 2 k)) in
    bit_and_step (q * 2 ^ suc k + r) (2 ^ suc k - 1)
    ∙ rw (ones, halved)
        (omega (arith, rest, times-pow-suc q k, pow-suc 2 k, one-le-pow k 2 (omega arith)))

-- `x & 0xFF` is the remainder by 256, and so for any mask of low ones.
pub bit_and_mask : (k a : ℕ) → bit_and a (2 ^ k - 1) ≡ a % 2 ^ k
bit_and_mask k a =
    let whole : a / 2 ^ k * 2 ^ k + a % 2 ^ k ≡ a = div-add-mod' a (2 ^ k) in
    let low = low_fields k (a / 2 ^ k) (a % 2 ^ k) (mod-lt a (one-le-pow k 2 (omega arith))) in
    rw whole at low
