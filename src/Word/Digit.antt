-- ===== src/Word/Digit.antt =====
-- The binary digits of a number, and the digits of the bit operations.
use husky_kylin.Prelude.{
  ℕ, zero, suc, ◌+◌, ◌*◌, ◌-◌, ◌/◌, ◌%◌, ◌^◌, ◌≤◌, ◌<◌, min, max, bit_and, bit_or, bit_xor, ◌≡◌,
  refl, arith, ap, ◌∙◌, sym, ◌≡⟨◌⟩◌, ◌∎,
}
use native.Mathlib.Nat.{pow-suc, pow-succ', div-div-eq-div-mul, one-le-pow}
use husky_kylin.Word.Step.{bit_and_step, bit_or_step, bit_xor_step}

-- Digit `i` of `n`, 0 or 1.
unfoldable pub bit : ℕ → ℕ → ℕ
bit n zero = n % 2
bit n (suc i) = bit (n / 2) i

pub bit-le-one : (n i : ℕ) → bit n i ≤ 1
unfolding bit
bit-le-one n zero = omega arith
bit-le-one n (suc i) = bit-le-one (n / 2) i

pub bit-bit_and : (a b i : ℕ) → bit (bit_and a b) i ≡ min (bit a i) (bit b i)
unfolding bit
bit-bit_and a b zero = omega (arith, bit_and_step a b)
bit-bit_and a b (suc i) =
    let halved : bit_and a b / 2 ≡ bit_and (a / 2) (b / 2) = omega (arith, bit_and_step a b) in
    rw halved (bit-bit_and (a / 2) (b / 2) i)

pub bit-bit_or : (a b i : ℕ) → bit (bit_or a b) i ≡ max (bit a i) (bit b i)
unfolding bit
bit-bit_or a b zero = omega (arith, bit_or_step a b)
bit-bit_or a b (suc i) =
    let halved : bit_or a b / 2 ≡ bit_or (a / 2) (b / 2) = omega (arith, bit_or_step a b) in
    rw halved (bit-bit_or (a / 2) (b / 2) i)

pub bit-bit_xor :
    (a b i : ℕ) → bit (bit_xor a b) i ≡ max (bit a i) (bit b i) - min (bit a i) (bit b i)
unfolding bit
bit-bit_xor a b zero = omega (arith, bit_xor_step a b)
bit-bit_xor a b (suc i) =
    let halved : bit_xor a b / 2 ≡ bit_xor (a / 2) (b / 2) = omega (arith, bit_xor_step a b) in
    rw halved (bit-bit_xor (a / 2) (b / 2) i)

pub bit-zero : (i : ℕ) → bit 0 i ≡ 0
unfolding bit
bit-zero zero = refl
bit-zero (suc i) = bit-zero i

ext_below : (n a b : ℕ) → a ≤ n → b ≤ n → ((i : ℕ) → bit a i ≡ bit b i) → a ≡ b
unfolding bit
ext_below zero a b p q h = omega arith
ext_below (suc n) a b p q h =
    omega (arith, h 0, ext_below n (a / 2) (b / 2) (omega arith) (omega arith) (λ i. h (suc i)))

-- Two numbers with the same digits are one.
pub bit_ext : (a b : ℕ) → ((i : ℕ) → bit a i ≡ bit b i) → a ≡ b
bit_ext a b h = ext_below (a + b) a b (omega arith) (omega arith) h

le_below : (n a b : ℕ) → a ≤ n → ((i : ℕ) → bit a i ≤ bit b i) → a ≤ b
unfolding bit
le_below zero a b p h = omega arith
le_below (suc n) a b p h =
    omega (arith, h 0, le_below n (a / 2) (b / 2) (omega arith) (λ i. h (suc i)))

-- Digit by digit below is below.
pub le_of_bits : (a b : ℕ) → ((i : ℕ) → bit a i ≤ bit b i) → a ≤ b
le_of_bits a b h = le_below a a b (omega arith) h

-- A number below 2 ^ k has no digit from `k` on.
pub bit-high : (k a i : ℕ) → a < 2 ^ k → k ≤ i → bit a i ≡ 0
unfolding bit
bit-high zero a i h le = let e : a ≡ 0 = omega arith in rw e (bit-zero i)
bit-high (suc k) a zero h le = absurd (omega arith)
bit-high (suc k) a (suc i) h le = bit-high k (a / 2) i (omega (arith, pow-suc 2 k)) (omega arith)

-- A number without a digit from `k` on is below 2 ^ k.
pub lt_of_bits : (k a : ℕ) → ((i : ℕ) → k ≤ i → bit a i ≡ 0) → a < 2 ^ k
unfolding bit
lt_of_bits zero a h =
    let e : a ≡ 0 = bit_ext a 0 (λ i. h i (omega arith) ∙ sym (bit-zero i)) in omega arith
lt_of_bits (suc k) a h =
    omega (arith, pow-suc 2 k, lt_of_bits k (a / 2) (λ i le. h (suc i) (omega arith)))

-- The digits of a shift to the right.
pub bit-shr : (k a i : ℕ) → bit (a / 2 ^ k) i ≡ bit a (i + k)
unfolding bit
bit-shr zero a i =
    let none_left : i ≡ i + 0 = omega arith in
    let whole : a / 1 ≡ a = omega arith in rw whole (ap (bit a) none_left)
bit-shr (suc k) a i =
    bit (a / 2 ^ suc k) i
    ≡⟨ ap (λ (d : ℕ). bit (a / d) i) (pow-succ' 2 k) ⟩ bit (a / (2 * 2 ^ k)) i
    ≡⟨ ap (λ (q : ℕ). bit q i) (sym (div-div-eq-div-mul a 2 (2 ^ k))) ⟩ bit (a / 2 / 2 ^ k) i
    ≡⟨ bit-shr k (a / 2) i ⟩ bit a (suc (i + k))
    ≡⟨ (let moved : suc (i + k) ≡ i + suc k = omega arith in ap (bit a) moved) ⟩ bit a (i + suc k) ∎

-- A power of two has its own digit alone.
pub bit-pow_self : (k : ℕ) → bit (2 ^ k) k ≡ 1
unfolding bit
bit-pow_self zero = refl
bit-pow_self (suc k) =
    let halved : 2 ^ suc k / 2 ≡ 2 ^ k = omega (arith, pow-suc 2 k) in rw halved (bit-pow_self k)

pub bit-pow_ne : (k i : ℕ) → (k ≡ i → ⊥) → bit (2 ^ k) i ≡ 0
unfolding bit
bit-pow_ne zero zero ne = absurd (ne refl)
bit-pow_ne zero (suc i) ne = bit-zero i
bit-pow_ne (suc k) zero ne = omega (arith, pow-suc 2 k)
bit-pow_ne (suc k) (suc i) ne =
    let halved : 2 ^ suc k / 2 ≡ 2 ^ k = omega (arith, pow-suc 2 k) in
    rw halved (bit-pow_ne k i (λ e. ne (ap suc e)))

-- The digits of a complement within `k` digits.
pub bit-complement : (k a i : ℕ) → a < 2 ^ k → i < k → bit (2 ^ k - 1 - a) i ≡ 1 - bit a i
unfolding bit
bit-complement zero a i h lt = absurd (omega arith)
bit-complement (suc k) a zero h lt = omega (arith, pow-suc 2 k)
bit-complement (suc k) a (suc i) h lt =
    let halved : (2 ^ suc k - 1 - a) / 2 ≡ 2 ^ k - 1 - a / 2 = omega (arith, pow-suc 2 k) in
    rw halved (bit-complement k (a / 2) i (omega (arith, pow-suc 2 k)) (omega arith))

-- The digits of a mask of `k` ones.
pub bit-ones : (k i : ℕ) → i < k → bit (2 ^ k - 1) i ≡ 1
bit-ones k i lt =
    let whole : 2 ^ k - 1 - 0 ≡ 2 ^ k - 1 = omega arith in
    rw (← whole) (omega (arith, bit-complement k 0 i (one-le-pow k 2 (omega arith)) lt, bit-zero i))
