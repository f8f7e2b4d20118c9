-- ===== src/Word/Mask.antt =====
-- Words as sets of digits: `Sub a b` says that every digit of `a` is one of `b`.
use husky_kylin.Prelude.{
  ℕ, ◌-◌, ◌^◌, ◌≤◌, ◌<◌, bit_and, bit_or, ◌≡◌, ◌↔◌, arith, ap, inl, inr, lt_or_ge, eq_or_ne,
}
use husky_kylin.Word.{not_64}
use husky_kylin.Word.Digit.{
  bit, bit-le-one, bit-bit_and, bit-bit_or, bit-zero, bit_ext, le_of_bits, bit-high, bit-complement,
  bit-pow_ne,
}

pub record Sub (a b : ℕ) : Type 0 where
  pub digit : (i : ℕ) → bit a i ≤ bit b i

pub Sub-refl : (a : ℕ) → Sub a a
Sub-refl a = record { digit = λ i. omega arith }

pub Sub-trans : {a b c : ℕ} → Sub a b → Sub b c → Sub a c
Sub-trans p q = record { digit = λ i. omega (arith, p.digit i, q.digit i) }

pub Sub-antisymm : (a b : ℕ) → Sub a b → Sub b a → a ≡ b
Sub-antisymm a b p q = bit_ext a b (λ i. omega (arith, p.digit i, q.digit i))

pub Sub-le : {a b : ℕ} → Sub a b → a ≤ b
Sub-le {a} {b} p = le_of_bits a b p.digit

pub Sub-zero : (a : ℕ) → Sub 0 a
Sub-zero a = record { digit = λ i. omega (arith, bit-zero i) }

pub Sub-bit_or_left : (a b : ℕ) → Sub a (bit_or a b)
Sub-bit_or_left a b = record { digit = λ i. omega (arith, bit-bit_or a b i) }

pub Sub-bit_or_right : (a b : ℕ) → Sub b (bit_or a b)
Sub-bit_or_right a b = record { digit = λ i. omega (arith, bit-bit_or a b i) }

pub bit_or-Sub : {a b c : ℕ} → Sub a c → Sub b c → Sub (bit_or a b) c
bit_or-Sub {a} {b} p q = record {
  digit = λ i. omega (arith, bit-bit_or a b i, p.digit i, q.digit i);
}

-- `(c & m) == m` says that `c` has every digit of `m`.
pub bit_and-eq_iff : (c m : ℕ) → (bit_and c m ≡ m) ↔ Sub m c
bit_and-eq_iff c m = (
  λ e. record { digit = λ i. omega (arith, bit-bit_and c m i, ap (λ (x : ℕ). bit x i) e) },
  λ p. bit_ext (bit_and c m) m (λ i. omega (arith, bit-bit_and c m i, p.digit i)),
)

pub bit-not_64_low : (m i : ℕ) → m < 2 ^ 64 → i < 64 → bit (not_64 m) i ≡ 1 - bit m i
bit-not_64_low m i h lt = bit-complement 64 m i h lt

-- `(c & ~m) == 0` says that `m` has every digit of `c`.
pub bit_and-not_64-eq-zero_iff :
    (c m : ℕ) → c < 2 ^ 64 → m < 2 ^ 64 → (bit_and c (not_64 m) ≡ 0) ↔ Sub c m
bit_and-not_64-eq-zero_iff c m hc hm = (
  λ e. record {
    digit = λ i. elim (lt_or_ge i 64) [
      | inl lt ↦ omega (
        arith,
        bit-bit_and c (not_64 m) i,
        bit-not_64_low m i hm lt,
        ap (λ (x : ℕ). bit x i) e,
        bit-zero i,
        bit-le-one c i,
        bit-le-one m i,
      )
      | inr ge ↦ omega (arith, bit-high 64 c i hc ge)
    ];
  },
  λ p. bit_ext (bit_and c (not_64 m)) 0 (λ i. elim (lt_or_ge i 64) [
    | inl lt ↦ omega (
      arith,
      bit-bit_and c (not_64 m) i,
      bit-not_64_low m i hm lt,
      p.digit i,
      bit-zero i,
      bit-le-one m i,
    )
    | inr ge ↦ omega (arith, bit-bit_and c (not_64 m) i, bit-high 64 c i hc ge, bit-zero i)
  ]),
)

pub Sub-pow : (i m : ℕ) → bit m i ≡ 1 → Sub (2 ^ i) m
Sub-pow i m there = record {
  digit = λ j. elim (eq_or_ne i j) [
    | inl e ↦ omega (arith, bit-le-one (2 ^ i) j, ap (bit m) e, there)
    | inr ne ↦ omega (arith, bit-pow_ne i j ne)
  ];
}
