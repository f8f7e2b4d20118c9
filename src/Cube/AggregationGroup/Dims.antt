-- ===== src/Cube/AggregationGroup/Dims.antt =====
-- `bits`, which takes a mask apart into its digits.
use husky_kylin.Prelude.{
  ℕ, zero, suc, ◌+◌, ◌-◌, ◌/◌, ◌%◌, ◌^◌, ◌≤◌, ◌<◌, ◌≡◌, ◌≢◌, inl, inr, arith, bit_and, bit_xor,
  ◌==◌, true, false, List, [], ◌∷◌, ◌++◌, if◌then◌else◌, refl, ◌∙◌, ap, sym, lt_or_ge, eq_or_ne,
}
use mathlib.Core.List.{append-nil, append_assoc}
use native.Mathlib.Nat.{pow-suc}
use husky_kylin.Word.{not_64, u64}
use husky_kylin.Word.Digit.{
  bit, bit-bit_and, bit-bit_xor, bit-complement, bit-high, bit-zero, bit-le-one, bit_ext,
  bit-pow_self, bit-pow_ne, lt_of_bits,
}
use husky_kylin.Word.Step.{bit_and_step}
use husky_kylin.Cube.AggregationGroup.{bits, bits_loop}

-- The digits of `x` from `i` on, `left` of them, as powers of two in ascending order.
unfoldable pub powers_from : ℕ → ℕ → ℕ → List ℕ
powers_from x i zero = []
powers_from x i (suc left) =
    if bit x i == 1 then 2 ^ i ∷ powers_from x (suc i) left else powers_from x (suc i) left

complement_disjoint : (k l : ℕ) → l < 2 ^ k → bit_and l (2 ^ k - 1 - l) ≡ 0
complement_disjoint k l h = bit_ext _ 0 λ i. elim (lt_or_ge i k) [
  | inl low ↦ omega (
    arith,
    bit-bit_and l (2 ^ k - 1 - l) i,
    bit-complement k l i h low,
    bit-zero i,
    bit-le-one l i,
  )
  | inr high ↦ omega (arith, bit-bit_and l (2 ^ k - 1 - l) i, bit-high k l i h high, bit-zero i)
]

-- `l & -l` is the lowest digit.
low_bit_lem :
    (i k l : ℕ)
    → l < 2 ^ k
    → ((j : ℕ) → j < i → bit l j ≡ 0)
    → bit l i ≡ 1
    → bit_and l (2 ^ k - l) ≡ 2 ^ i
unfolding bit
low_bit_lem i zero l h zeros one = absurd (omega (arith, bit-high 0 l i h (omega arith)))
low_bit_lem zero (suc k) l h zeros one =
    let halved : (2 ^ suc k - l) / 2 ≡ 2 ^ k - 1 - l / 2 = omega (arith, pow-suc 2 k) in
    bit_and_step l (2 ^ suc k - l)
    ∙ rw (halved, complement_disjoint k (l / 2) (omega (arith, pow-suc 2 k)))
        (omega (arith, pow-suc 2 k))
low_bit_lem (suc i) (suc k) l h zeros one =
    let even : l % 2 ≡ 0 = zeros 0 (omega arith) in
    let halved : (2 ^ suc k - l) / 2 ≡ 2 ^ k - l / 2 = omega (arith, pow-suc 2 k) in
    bit_and_step l (2 ^ suc k - l)
    ∙ rw halved (
        omega (
          arith,
          low_bit_lem i k (l / 2) (omega (arith, pow-suc 2 k)) (λ j lt. zeros (suc j) (omega arith))
              one,
          pow-suc 2 i,
        ))

module _ (x : ℕ) (word : x < 2 ^ 64) where
  -- `l` is what is left of `x` once its digits below `i` are taken.
  record IsRest (i l : ℕ) : Type 0 where
    taken : (j : ℕ) → j < i → bit l j ≡ 0
    left : (j : ℕ) → i ≤ j → bit l j ≡ bit x j

  IsRest-lt : (i l : ℕ) → IsRest i l → l < 2 ^ 64
  IsRest-lt i l r = lt_of_bits 64 l λ j le. elim (lt_or_ge j i) [
    | inl low ↦ r.taken j low
    | inr high ↦ r.left j high ∙ bit-high 64 x j word le
  ]

  IsRest-end : (l : ℕ) → IsRest 64 l → l ≡ 0
  IsRest-end l r = bit_ext l 0 λ j. elim (lt_or_ge j 64) [
    | inl low ↦ r.taken j low ∙ sym (bit-zero j)
    | inr high ↦ r.left j high ∙ bit-high 64 x j word high ∙ sym (bit-zero j)
  ]

  IsRest-skip : (i l : ℕ) → bit x i ≡ 0 → IsRest i l → IsRest (suc i) l
  IsRest-skip i l none_there r = record {
    taken = λ j lt. elim (lt_or_ge j i) [
      | inl low ↦ r.taken j low
      | inr high ↦ let e : i ≡ j = omega arith in rw (← e) (r.left i (omega arith) ∙ none_there)
    ];
    left = λ j le. r.left j (omega arith);
  }

  IsRest-take : (i l : ℕ) → bit x i ≡ 1 → IsRest i l → IsRest (suc i) (bit_xor l (2 ^ i))
  IsRest-take i l there r = record {
    taken = λ j lt. elim (lt_or_ge j i) [
      | inl low ↦
          omega (arith, bit-bit_xor l (2 ^ i) j, r.taken j low, bit-pow_ne i j (λ e. omega arith))
      | inr high ↦
          let e : i ≡ j = omega arith in
          rw (← e) (omega (arith, bit-bit_xor l (2 ^ i) i, r.left i (omega arith), bit-pow_self i))
    ];
    left = λ j le. omega (
      arith,
      bit-bit_xor l (2 ^ i) j,
      r.left j (omega arith),
      bit-pow_ne i j (λ e. omega arith),
      bit-le-one x j,
    );
  }

  bits_loop-zero : (fuel : ℕ) (ret : List ℕ) → bits_loop (suc fuel) 0 ret ≡ ret
  unfolding bits_loop
  bits_loop-zero fuel ret = refl

  bits_loop_step :
      (i fuel l : ℕ) (ret : List ℕ)
      → IsRest i l
      → bit x i ≡ 1
      → bits_loop (suc fuel) l ret ≡ bits_loop fuel (bit_xor l (2 ^ i)) (ret ++ 2 ^ i ∷ [])
  unfolding bits_loop
  bits_loop_step i fuel l ret r there =
      let one = r.left i (omega arith) ∙ there in
      let word_l = IsRest-lt i l r in
      let nonzero : l ≢ 0 = λ e. omega (arith, one, ap (λ (t : ℕ). bit t i) e, bit-zero i) in
      let negated : u64 (not_64 l + 1) ≡ 2 ^ 64 - l = omega (arith, nonzero) in
      let low = low_bit_lem i 64 l word_l r.taken one in
      let test : (l == 0) ≡ false = ground arith in rw (test, bits_loop, negated, low) refl

  bits_loop_lem :
      (left i fuel l : ℕ) (ret : List ℕ)
      → i + left ≡ 64
      → left < fuel
      → IsRest i l
      → bits_loop fuel l ret ≡ ret ++ powers_from x i left
  unfolding powers_from
  bits_loop_lem left i zero l ret sum enough r = absurd (omega arith)
  bits_loop_lem zero i (suc fuel) l ret sum enough r =
      let last : i ≡ 64 = omega arith in
      rw (IsRest-end l (rw last at r)) (bits_loop-zero fuel ret ∙ sym (append-nil ret))
  bits_loop_lem (suc left) i (suc fuel) l ret sum enough r = elim (eq_or_ne (bit x i) 1) [
    | inl there ↦
        let test : (bit x i == 1) ≡ true = ground arith in
        rw (bits_loop_step i fuel l ret r there, test)
          (bits_loop_lem left (suc i) fuel (bit_xor l (2 ^ i)) (ret ++ 2 ^ i ∷ []) (omega arith)
              (omega arith) (IsRest-take i l there r)
            ∙ append_assoc ret (2 ^ i ∷ []) (powers_from x (suc i) left))
    | inr ne ↦
        let none_there : bit x i ≡ 0 = omega (arith, bit-le-one x i, ne) in
        let test : (bit x i == 1) ≡ false = ground arith in
        rw test (
          bits_loop_lem left (suc i) (suc fuel) l ret (omega arith) (omega arith)
            (IsRest-skip i l none_there r))
  ]

-- The loop ends by its test, and `bits` returns the powers of two that make up the mask, each one
-- once and in ascending order.
pub bits_lem : (x : ℕ) → x < 2 ^ 64 → bits x ≡ powers_from x 0 64
unfolding bits
bits_lem x word =
    bits_loop_lem x word 64 0 65 x [] refl (omega arith)
      (record { taken = λ j lt. absurd (omega arith); left = λ j le. refl })
