-- ===== src/Utils/Bits/Leading.antt =====
-- `number_of_leading_zeros`: how the halving finds the topmost digit, and what the signed shift at
-- the end makes of it.
use husky_kylin.Prelude.{
  ℕ, suc, ◌+◌, ◌-◌, ◌*◌, ◌%◌, ◌^◌, ◌≤◌, ◌<◌, ◌≡◌, arith, refl, ◌∙◌, inl, inr, lt_or_ge, ◌==◌, ltb,
  if◌then◌else◌, true, false, ap,
}
use native.Mathlib.Nat.{pow-suc, one-le-pow, pow-le-pow_right}
use husky_kylin.Word.{sar_32, u32, sign_extend}
use husky_kylin.Word.Shift.{pow-add}
use husky_kylin.Utils.Bits.{Halving, skip_zeros, first_half, number_of_leading_zeros}

-- `half` is the part of a word with topmost digit `top` that is still looked at; its own topmost
-- digit is `at`, and `ret - 1` zeros have been skipped.
record IsHalved (top at : ℕ) (h : Halving) : Type 0 where
  lower : 2 ^ at ≤ h.half
  upper : h.half < 2 ^ suc at
  fits : at < 32
  counted : h.ret + 31 + top ≡ 64 + at
  parity : at % 2 ≡ top % 2

mono : (a b : ℕ) → a ≤ b → 2 ^ a ≤ 2 ^ b
mono a b h = pow-le-pow_right (omega arith) h

lt_of_pow : (a b x : ℕ) → 2 ^ a ≤ x → x < 2 ^ b → a < b
lt_of_pow a b x lo hi = elim (lt_or_ge a b) [
  | inl lt ↦ lt
  | inr ge ↦ absurd (omega (arith, mono b a ge))
]

first_half-IsHalved :
    (top n : ℕ)
    → top < 64
    → 2 ^ top ≤ n
    → n < 2 ^ suc top
    → (at : ℕ) × IsHalved top at (first_half n)
unfolding first_half
first_half-IsHalved top n small lo hi = elim (lt_or_ge top 32) [
  | inl low ↦
      let bound = mono (suc top) 32 low in
      (
        top,
        record {
          lower = ground arith;
          upper = ground arith;
          fits = low;
          counted = ground arith;
          parity = refl;
        },
      )
  | inr high ↦
      let at = top - 32 in
      let split : 2 ^ top ≡ 2 ^ at * 2 ^ 32 =
        rw (← pow-add at 32) (let e : top ≡ at + 32 = omega arith in ap (λ (t : ℕ). 2 ^ t) e) in
      let bound = mono (suc top) 64 small in
      let pos = one-le-pow at 2 (omega arith) in
      let two_at = pow-suc 2 at in
      let two_top = pow-suc 2 top in
      (
        at,
        record {
          lower = ground arith;
          upper = ground arith;
          fits = omega arith;
          counted = ground arith;
          parity = omega arith;
        },
      )
]

scale_le : (a b p : ℕ) → a ≤ b → a * p ≤ b * p
scale_le a b p h = grind arith

scale_lt : (a b p : ℕ) → a < b → 0 < p → a * p < b * p
scale_lt a b p h q = grind arith

shifted-IsHalved :
    (by top at : ℕ) (h : Halving)
    → at + by < 32
    → by % 2 ≡ 0
    → IsHalved top at h
    → IsHalved top (at + by) (record { ret = h.ret + by; half = u32 (h.half * 2 ^ by) })
shifted-IsHalved by top at h fits even inv =
    let low = scale_le (2 ^ at) h.half (2 ^ by) inv.lower in
    let high = scale_lt h.half (2 ^ suc at) (2 ^ by) inv.upper (one-le-pow by 2 (omega arith)) in
    let room = mono (suc at + by) 32 (omega arith) in
    let low_pow = pow-add at by in
    let high_pow = pow-add (suc at) by in
    let next : suc at + by ≡ suc (at + by) = omega arith in
    let next_pow : 2 ^ (suc at + by) ≡ 2 ^ suc (at + by) = ap (λ (t : ℕ). 2 ^ t) next in
    record {
      lower = omega arith;
      upper = omega arith;
      fits = fits;
      counted = omega (arith, inv.counted);
      parity = omega (arith, inv.parity);
    }

-- A stage keeps this, and leaves no zero above digit `cut`.
skip_zeros-IsHalved :
    (cut by top at : ℕ) (h : Halving)
    → ((sar_32 h.half cut == 0) ≡ ltb h.half (2 ^ cut))
    → cut + by ≡ 32
    → by % 2 ≡ 0
    → cut ≤ at + by
    → IsHalved top at h
    → (at' : ℕ) × (cut ≤ at') × IsHalved top at' (skip_zeros cut by h)
unfolding skip_zeros
skip_zeros-IsHalved cut by top at h test sum even near inv = elim (lt_or_ge h.half (2 ^ cut)) [
  | inl below ↦
      let at_lt : at < cut = lt_of_pow at cut h.half inv.lower below in
      let taken : (sar_32 h.half cut == 0) ≡ true = test ∙ ground arith in
      (at + by, near, rw taken (shifted-IsHalved by top at h (omega arith) even inv))
  | inr above ↦
      let kept : (sar_32 h.half cut == 0) ≡ false = test ∙ ground arith in
      let at_ge : cut < suc at = lt_of_pow cut (suc at) h.half above inv.upper in
      (at, omega arith, rw kept inv)
]

zero_test_16 : (x : ℕ) → x < 2 ^ 32 → (sar_32 x 16 == 0) ≡ ltb x (2 ^ 16)
zero_test_16 x h = ground arith

zero_test_24 : (x : ℕ) → x < 2 ^ 32 → (sar_32 x 24 == 0) ≡ ltb x (2 ^ 24)
zero_test_24 x h = ground arith

zero_test_28 : (x : ℕ) → x < 2 ^ 32 → (sar_32 x 28 == 0) ≡ ltb x (2 ^ 28)
zero_test_28 x h = ground arith

zero_test_30 : (x : ℕ) → x < 2 ^ 32 → (sar_32 x 30 == 0) ≡ ltb x (2 ^ 30)
zero_test_30 x h = ground arith

half-lt : (top at : ℕ) (h : Halving) → IsHalved top at h → h.half < 2 ^ 32
half-lt top at h inv = omega (arith, inv.upper, mono (suc at) 32 inv.fits)

-- After the last stage the topmost digit of `half` is digit 30 or 31. In the first case the zeros
-- are counted right; in the second the shifted `half` is -1, and they are two too many.
last_step :
    (top at : ℕ) (h : Halving)
    → top < 64
    → 30 ≤ at
    → IsHalved top at h
    → sign_extend (u32 (h.ret + 2 ^ 32 - sar_32 h.half 31))
      ≡ (if top % 2 == 0 then 63 - top else 65 - top)
last_step top at h small ge inv = elim (lt_or_ge 30 at) [
  | inl above ↦
      let e : at ≡ 31 = omega (arith, inv.fits) in
      let inv' : IsHalved top 31 h = rw e at inv in
      let low : 2 ^ 31 ≤ h.half = inv'.lower in
      let high : h.half < 2 ^ 32 = inv'.upper in ground (arith, inv'.counted, inv'.parity)
  | inr upto ↦
      let e : at ≡ 30 = omega arith in
      let inv' : IsHalved top 30 h = rw e at inv in
      let low : 2 ^ 30 ≤ h.half = inv'.lower in
      let high : h.half < 2 ^ 31 = inv'.upper in ground (arith, inv'.counted, inv'.parity)
]

-- For a word whose topmost digit is `top`, the result is the number of zeros above it, 63 - top,
-- if `top` is even, and two more than that if `top` is odd.
pub number_of_leading_zeros_lem :
    (n top : ℕ)
    → top < 64
    → 2 ^ top ≤ n
    → n < 2 ^ suc top
    → number_of_leading_zeros n ≡ (if top % 2 == 0 then 63 - top else 65 - top)
unfolding number_of_leading_zeros
number_of_leading_zeros_lem n top small lo hi =
    let (a, inv) = first_half-IsHalved top n small lo hi in
    let h = first_half n in
    let (a16, ge16, inv16) =
      skip_zeros-IsHalved 16 16 top a h (zero_test_16 h.half (half-lt top a h inv)) refl refl
        (omega arith) inv in
    let h16 = skip_zeros 16 16 h in
    let (a24, ge24, inv24) =
      skip_zeros-IsHalved 24 8 top a16 h16 (zero_test_24 h16.half (half-lt top a16 h16 inv16)) refl
        refl (omega arith) inv16 in
    let h24 = skip_zeros 24 8 h16 in
    let (a28, ge28, inv28) =
      skip_zeros-IsHalved 28 4 top a24 h24 (zero_test_28 h24.half (half-lt top a24 h24 inv24)) refl
        refl (omega arith) inv24 in
    let h28 = skip_zeros 28 4 h24 in
    let (a30, ge30, inv30) =
      skip_zeros-IsHalved 30 2 top a28 h28 (zero_test_30 h28.half (half-lt top a28 h28 inv28)) refl
        refl (omega arith) inv28 in
    let nonzero : (n == 0) ≡ false = ground (arith, one-le-pow top 2 (omega arith)) in
    rw nonzero (last_step top a30 (skip_zeros 30 2 h28) small ge30 inv30)
