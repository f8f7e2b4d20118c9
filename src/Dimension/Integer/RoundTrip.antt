-- ===== src/Dimension/Integer/RoundTrip.antt =====
-- `encode` and then `decode`.
use husky_kylin.Prelude.{
  ℕ, zero, suc, ◌+◌, ◌-◌, ◌*◌, ◌/◌, ◌%◌, ◌^◌, ◌≤◌, ◌<◌, ◌≡◌, ◌⊎◌, inr, arith, refl, bit_and, bit_or,
  ltb, ◌==◌, if◌then◌else◌, true, false, some, List, [], ◌∷◌, length, get_elem?, Text, ◌∙◌, ap, sym,
}
use native.Mathlib.Nat.{pow-suc, pow-succ', div-div-eq-div-mul, mod-lt, one-le-pow}
use husky_kylin.Word.{u64, not_64}
use husky_kylin.Word.Step.{bit_and_step}
use husky_kylin.Word.Digit.{bit_ext, bit-bit_or}
use husky_kylin.Word.Fields.{bit_and_mask, bit_or_fields}
use husky_kylin.Utils.Bytes.Long.{read_long-write_long_inside}
use husky_kylin.Dimension.Integer.{Numerals, cap, mask, widen, encode, decode}

-- `x & (1 << k)`.
bit_and-pow : (k x : ℕ) → bit_and x (2 ^ k) ≡ x / 2 ^ k % 2 * 2 ^ k
bit_and-pow zero x = bit_and_mask 1 x ∙ omega arith
bit_and-pow (suc k) x =
    let half : 2 ^ suc k / 2 ≡ 2 ^ k = omega (arith, pow-suc 2 k) in
    let even : 2 ^ suc k % 2 ≡ 0 = omega (arith, pow-suc 2 k) in
    let rest = bit_and-pow k (x / 2) in
    let halves : x / 2 / 2 ^ k ≡ x / 2 ^ suc k =
      div-div-eq-div-mul x 2 (2 ^ k) ∙ ap (λ (d : ℕ). x / d) (sym (pow-succ' 2 k)) in
    let scale = ap (λ (t : ℕ). x / 2 ^ suc k % 2 * t) (pow-suc 2 k) in
    let rest' = rest ∙ ap (λ (d : ℕ). d % 2 * 2 ^ k) halves in
    bit_and_step x (2 ^ suc k) ∙ rw (half, even) (omega (arith, rest', scale))

bit_or_comm : (x y : ℕ) → bit_or x y ≡ bit_or y x
bit_or_comm x y =
    bit_ext (bit_or x y) (bit_or y x) (λ i. omega (arith, bit-bit_or x y i, bit-bit_or y x i))

-- `x | ~mask` behind `k` digits.
bit_or-above : (k q x : ℕ) → x < 2 ^ k → bit_or x (q * 2 ^ k) ≡ q * 2 ^ k + x
bit_or-above k q x small = bit_or_comm x (q * 2 ^ k) ∙ bit_or_fields k q x small

-- The two's complement patterns of the numbers that fit `fixed_len` bytes.
abbrev pub Fits : ℕ → ℕ → Type 0
Fits fixed_len v =
    (v < 2 ^ (8 * fixed_len - 1)) ⊎ ((2 ^ 64 - 2 ^ (8 * fixed_len - 1) ≤ v) × (v < 2 ^ 64))

abbrev read_back : ℕ → ℕ → ℕ → ℕ → ℕ
read_back fixed_len cap_of start v =
    (start * 2 ^ (8 * fixed_len) + u64 (v + cap_of) % 2 ^ (8 * fixed_len)) % 2 ^ 64

-- `widen` with the mask of `k + 1` digits, whose complement is `q * 2 ^ (k + 1)`.
widen_lem :
    (fixed_len k q cap_of mask_of read v : ℕ)
    → mask_of ≡ 2 ^ suc k - 1
    → not_64 mask_of ≡ q * 2 ^ suc k
    → u64 (0x80 * 2 ^ ((fixed_len - 1) * 8)) ≡ 2 ^ k
    → u64 (read + 2 ^ 64 - cap_of) % 2 ^ suc k ≡ v % 2 ^ suc k
    → widen fixed_len cap_of mask_of read ≡ (
        if v % 2 ^ suc k / 2 ^ k % 2 * 2 ^ k == 0
        then (true, v % 2 ^ suc k)
        else (false, q * 2 ^ suc k + v % 2 ^ suc k))
unfolding widen
widen_lem fixed_len k q cap_of mask_of read v ones high top same =
    let low = bit_and_mask (suc k) (u64 (read + 2 ^ 64 - cap_of)) in
    let sign = bit_and-pow k (v % 2 ^ suc k) in
    let above =
      bit_or-above (suc k) q (v % 2 ^ suc k) (mod-lt v (one-le-pow (suc k) 2 (omega arith))) in
    rw (high, top, ones, low, same, sign, above) refl

-- The number that was encoded comes back as its pattern, printed as a signed one if it is negative.
widen-read_back :
    (fixed_len cap_of mask_of start v : ℕ)
    → 0 < fixed_len
    → get_elem? cap fixed_len ≡ some cap_of
    → get_elem? mask fixed_len ≡ some mask_of
    → Fits fixed_len v
    → widen fixed_len cap_of mask_of (read_back fixed_len cap_of start v) ≡ (ltb v (2 ^ 63), v)
widen-read_back zero c m start v pos hc hm fits = absurd (omega arith)
widen-read_back (suc zero) c m start v pos hc hm fits =
    let cap_is : c ≡ 0x7f = ground arith in
    let mask_is : m ≡ 0xff = ground arith in
    rw (cap_is, mask_is)
      (widen_lem 1 7 0xffffffffffffff 0x7f 0xff (read_back 1 0x7f start v) v refl refl refl
          (omega arith)
        ∙ ground arith)
widen-read_back (suc (suc zero)) c m start v pos hc hm fits =
    let cap_is : c ≡ 0x7fff = ground arith in
    let mask_is : m ≡ 0xffff = ground arith in
    rw (cap_is, mask_is)
      (widen_lem 2 15 0xffffffffffff 0x7fff 0xffff (read_back 2 0x7fff start v) v refl refl refl
          (omega arith)
        ∙ ground arith)
widen-read_back (suc (suc (suc zero))) c m start v pos hc hm fits =
    let cap_is : c ≡ 0x7fffff = ground arith in
    let mask_is : m ≡ 0xffffff = ground arith in
    rw (cap_is, mask_is)
      (widen_lem 3 23 0xffffffffff 0x7fffff 0xffffff (read_back 3 0x7fffff start v) v refl refl refl
          (omega arith)
        ∙ ground arith)
widen-read_back (suc (suc (suc (suc zero)))) c m start v pos hc hm fits =
    let cap_is : c ≡ 0x7fffffff = ground arith in
    let mask_is : m ≡ 0xffffffff = ground arith in
    rw (cap_is, mask_is)
      (widen_lem 4 31 0xffffffff 0x7fffffff 0xffffffff (read_back 4 0x7fffffff start v) v refl refl
          refl (omega arith)
        ∙ ground arith)
widen-read_back (suc (suc (suc (suc (suc zero))))) c m start v pos hc hm fits =
    let cap_is : c ≡ 0x7fffffffff = ground arith in
    let mask_is : m ≡ 0xffffffffff = ground arith in
    rw (cap_is, mask_is)
      (widen_lem 5 39 0xffffff 0x7fffffffff 0xffffffffff (read_back 5 0x7fffffffff start v) v refl
          refl refl (omega arith)
        ∙ ground arith)
widen-read_back (suc (suc (suc (suc (suc (suc zero)))))) c m start v pos hc hm fits =
    let cap_is : c ≡ 0x7fffffffffff = ground arith in
    let mask_is : m ≡ 0xffffffffffff = ground arith in
    rw (cap_is, mask_is)
      (widen_lem 6 47 0xffff 0x7fffffffffff 0xffffffffffff (read_back 6 0x7fffffffffff start v) v
          refl refl refl (omega arith)
        ∙ ground arith)
widen-read_back (suc (suc (suc (suc (suc (suc (suc zero))))))) c m start v pos hc hm fits =
    let cap_is : c ≡ 0x7fffffffffffff = ground arith in
    let mask_is : m ≡ 0xffffffffffffff = ground arith in
    rw (cap_is, mask_is)
      (widen_lem 7 55 0xff 0x7fffffffffffff 0xffffffffffffff (read_back 7 0x7fffffffffffff start v)
          v refl refl refl (omega arith)
        ∙ ground arith)
widen-read_back (suc (suc (suc (suc (suc (suc (suc (suc zero)))))))) c m start v pos hc hm fits =
    let cap_is : c ≡ 0x7fffffffffffffff = ground arith in
    let mask_is : m ≡ 0xffffffffffffffff = ground arith in
    rw (cap_is, mask_is)
      (widen_lem 8 63 0x0 0x7fffffffffffffff 0xffffffffffffffff
          (read_back 8 0x7fffffffffffffff start v) v refl refl refl (omega arith)
        ∙ ground arith)
widen-read_back (suc (suc (suc (suc (suc (suc (suc (suc (suc n))))))))) c m start v pos hc hm fits =
    absurd (ground arith)

get_elem?-there : (xs : List ℕ) (i : ℕ) → i < length xs → (x : ℕ) × (get_elem? xs i ≡ some x)
get_elem?-there [] i h = absurd (omega arith)
get_elem?-there (x ∷ xs) zero h = (x, refl)
get_elem?-there (x ∷ xs) (suc i) h = get_elem?-there xs i (omega arith)

-- A number that fits the length as a signed one is written into the array, whose length stays, and
-- comes back whatever the variable of `read_long` held: `decode` prints its 64-bit pattern, as a
-- signed number if it is negative and as an unsigned one if not. The least integer of the length is
-- one of them, though its bytes are all 0xff.
pub decode-encode :
    (numerals : Numerals) (fixed_len : ℕ) (value : Text) (v start offset : ℕ) (output : List ℕ)
    → 0 < fixed_len
    → fixed_len < 9
    → start < 2 ^ 64
    → numerals.stoll value ≡ some v
    → Fits fixed_len v
    → offset + fixed_len ≤ length output
    → (out : List ℕ) × (encode numerals fixed_len value output offset ≡ some out)
      × (length out ≡ length output)
      × (decode numerals fixed_len start out offset fixed_len
          ≡ some (
              if ltb v (2 ^ 63)
              then numerals.to_string_unsigned v
              else numerals.to_string_signed v))
unfolding encode decode
decode-encode numerals fixed_len value v start offset output pos small h parsed fits room =
    let (c, hc) = get_elem?-there cap fixed_len small in
    let (m, hm) = get_elem?-there mask fixed_len small in
    let (out, written, len, _, back) =
      read_long-write_long_inside (u64 (v + c)) start offset fixed_len output (offset + fixed_len) h
        room (inr (omega arith)) in
    let wide = widen-read_back fixed_len c m start v pos hc hm fits in
    (out, rw (parsed, hc) written, len, rw (back, hc, hm, wide) refl)
