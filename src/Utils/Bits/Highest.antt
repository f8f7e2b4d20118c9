-- ===== src/Utils/Bits/Highest.antt =====
-- `highest_one_bit`: what smearing makes of the digits.
use husky_kylin.Prelude.{
  ℕ, suc, ◌+◌, ◌-◌, ◌/◌, ◌^◌, ◌≤◌, ◌<◌, ◌≡◌, arith, refl, ◌∙◌, inl, inr, lt_or_ge,
}
use husky_kylin.Word.Digit.{
  bit, bit-bit_or, bit-shr, bit-high, bit-le-one, bit_ext, bit-ones, lt_of_bits,
}
use native.Mathlib.Nat.{pow-suc, one-le-pow}
use husky_kylin.Utils.Bits.{smear, highest_one_bit}

-- Digit `k` is the topmost one, and the `w` digits from it down are ones.
record IsSmeared (k w n : ℕ) : Type 0 where
  ones : (j : ℕ) → j ≤ k → k < j + w → bit n j ≡ 1
  zeros : (j : ℕ) → k < j → bit n j ≡ 0

smear-IsSmeared : (k w n : ℕ) → IsSmeared k w n → IsSmeared k (w + w) (smear w n)
unfolding smear
smear-IsSmeared k w n h = record {
  ones = λ j le lt. elim (lt_or_ge k (j + w)) [
    | inl near ↦
        omega
          (arith, bit-bit_or n (n / 2 ^ w) j, h.ones j le near, bit-shr w n j, bit-le-one n (j + w))
    | inr far ↦ omega (
      arith,
      bit-bit_or n (n / 2 ^ w) j,
      bit-le-one n j,
      bit-shr w n j,
      h.ones (j + w) far (omega arith),
    )
  ];
  zeros = λ j lt. omega (
    arith,
    bit-bit_or n (n / 2 ^ w) j,
    h.zeros j lt,
    bit-shr w n j,
    h.zeros (j + w) (omega arith),
  );
}

-- A number between 2 ^ k and 2 ^ (k + 1) has digit `k`.
pub bit_top : (k n : ℕ) → 2 ^ k ≤ n → n < 2 ^ suc k → bit n k ≡ 1
bit_top k n lo hi = elim (lt_or_ge (bit n k) 1) [
  | inl none_there ↦ absurd (
      let below : n < 2 ^ k = lt_of_bits k n λ j le. elim (lt_or_ge k j) [
        | inl above ↦ bit-high (suc k) n j hi above
        | inr upto ↦ let e : j ≡ k = omega arith in rw e (omega arith)
      ] in
      omega arith)
  | inr there ↦ omega (arith, bit-le-one n k)
]

start-IsSmeared : (k n : ℕ) → 2 ^ k ≤ n → n < 2 ^ suc k → IsSmeared k 1 n
start-IsSmeared k n lo hi = record {
  ones = λ j le lt. let e : j ≡ k = omega arith in rw e (bit_top k n lo hi);
  zeros = λ j lt. bit-high (suc k) n j hi lt;
}

all_ones : (k w n : ℕ) → k < w → IsSmeared k w n → n ≡ 2 ^ suc k - 1
all_ones k w n lt h = bit_ext n (2 ^ suc k - 1) λ j. elim (lt_or_ge k j) [
  | inl above ↦
      h.zeros j above
      ∙ (rw (
          bit-high (suc k) (2 ^ suc k - 1) j (omega (arith, one-le-pow (suc k) 2 (omega arith)))
            above))
  | inr upto ↦ h.ones j upto (omega arith) ∙ (rw (bit-ones (suc k) j (omega arith)))
]

-- For a word whose topmost digit is `k`, that is one from 2 ^ k up and below 2 ^ (k + 1), the
-- result is 2 ^ k.
pub highest_one_bit_lem : (n k : ℕ) → k < 64 → 2 ^ k ≤ n → n < 2 ^ suc k → highest_one_bit n ≡ 2 ^ k
unfolding highest_one_bit
highest_one_bit_lem n k small lo hi =
    let smeared : IsSmeared k 64 _ = smear-IsSmeared k 32 _ (
      smear-IsSmeared k 16 _ (
        smear-IsSmeared k 8 _ (
          smear-IsSmeared k 4 _
            (smear-IsSmeared k 2 _ (smear-IsSmeared k 1 n (start-IsSmeared k n lo hi)))))) in
    rw (all_ones k 64 _ small smeared) (omega (arith, pow-suc 2 k, one-le-pow k 2 (omega arith)))

-- Of no digit there is no highest one.
highest_one_bit-zero : highest_one_bit 0 ≡ 0
unfolding highest_one_bit smear
highest_one_bit-zero = refl
