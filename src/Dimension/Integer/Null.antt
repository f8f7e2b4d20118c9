-- ===== src/Dimension/Integer/Null.antt =====
-- Which integers are encoded as NULL.
use husky_kylin.Prelude.{sym, subst, lt_or_ge, Option-cases}
use husky_kylin.Prelude.{
  ℕ, zero, suc, ◌+◌, ◌-◌, ◌*◌, ◌/◌, ◌%◌, ◌^◌, ◌≤◌, ◌<◌, ◌≡◌, inl, inr, arith, refl, ap, ◌∙◌, ◌==◌,
  ◌&&◌, Bool, true, false, Bool-cases, some, none, List, [], ◌∷◌, length, get_elem?, set,
  length-set, get_or-set_self, Text,
}
use native.Mathlib.Nat.{one-le-pow}
use husky_kylin.Word.{u8, u64}
use husky_kylin.Word.Shift.{pow-add}
use husky_kylin.Utils.Bytes.{write_long, write_long_loop}
use husky_kylin.Utils.Bytes.Long.{
  byte_at, length-write_long_loop, write_long_loop_outside, mod_bytes,
}
use husky_kylin.Dimension.Integer.{Numerals, cap, is_null, is_null_loop, encode}
use husky_kylin.Dimension.Integer.RoundTrip.{Fits}

-- Whether the bytes from `i` on are all 0xff.
abbrev all_ones : List ℕ → ℕ → ℕ → Bool
all_ones bytes i zero = true
all_ones bytes i (suc left) = (byte_at bytes i == 0xff) && all_ones bytes (suc i) left

get_elem?-byte_at :
    (bytes : List ℕ) (i : ℕ) → i < length bytes → get_elem? bytes i ≡ some (byte_at bytes i)
get_elem?-byte_at [] i h = absurd (omega (arith, h))
get_elem?-byte_at (x ∷ xs) zero h = refl
get_elem?-byte_at (x ∷ xs) (suc i) h = get_elem?-byte_at xs i (omega (arith, h))

is_null_loop_lem :
    (left i : ℕ) (bytes : List ℕ)
    → i + left ≤ length bytes
    → is_null_loop bytes i left ≡ some (all_ones bytes i left)
unfolding is_null_loop
is_null_loop_lem zero i bytes fits = refl
is_null_loop_lem (suc left) i bytes fits =
    rw
      (
        get_elem?-byte_at bytes i (omega (arith, fits)),
        is_null_loop_lem left (suc i) bytes (omega (arith, fits)),
      )
      (elim (Bool-cases (byte_at bytes i == 0xff)) [
        | inl same ↦ rw same refl
        | inr other ↦ rw other refl
      ])

-- The last byte apart from those before.
all_ones-last :
    (left i : ℕ) (bytes : List ℕ)
    → all_ones bytes i (suc left) ≡ (all_ones bytes i left && (byte_at bytes (i + left) == 0xff))
all_ones-last zero i bytes =
    let here : i + 0 ≡ i = omega (arith) in
    rw here (elim (Bool-cases (byte_at bytes i == 0xff)) [ inl e ↦ rw e refl | inr e ↦ rw e refl ])
all_ones-last (suc left) i bytes =
    let there : i + suc left ≡ suc i + left = omega (arith) in
    let more = all_ones-last left (suc i) bytes in
    elim (Bool-cases (byte_at bytes i == 0xff)) [ inl e ↦ rw (there, e) more | inr e ↦ rw e refl ]

-- The digits of the number that is written are all 1.
write_long_loop-all_ones :
    (left offset num : ℕ) (bytes : List ℕ)
    → offset + left ≤ length bytes
    → all_ones (write_long_loop left offset num bytes) offset left
      ≡ (num % 2 ^ (8 * left) == 2 ^ (8 * left) - 1)
unfolding write_long_loop
write_long_loop-all_ones zero offset num bytes fits = ground (arith)
write_long_loop-all_ones (suc left) offset num bytes fits =
    let stored = set bytes (offset + left) (u8 num) in
    let out = write_long_loop left offset (num / 2 ^ 8) stored in
    let last : byte_at out (offset + left) ≡ u8 num =
      write_long_loop_outside left offset (num / 2 ^ 8) stored (offset + left) (inr (omega (arith)))
      ∙ get_or-set_self bytes (offset + left) (u8 num) 0 (omega (arith, fits)) in
    let before =
      write_long_loop-all_ones left offset (num / 2 ^ 8) stored
        (rw length-set (omega (arith, fits))) in
    let pos = one-le-pow (8 * left) 2 (omega (arith)) in
    let digits = mod_bytes num (2 ^ (8 * left)) pos in
    let power : 2 ^ (8 * suc left) ≡ 2 ^ (8 * left) * 256 =
      let e : 8 * suc left ≡ 8 * left + 8 = omega (arith) in rw e (pow-add (8 * left) 8) in
    all_ones-last left offset out
    ∙ rw (before, last, power, digits)
        (both (num / 256 % 2 ^ (8 * left)) (num % 256) (2 ^ (8 * left)) pos (omega (arith)))
  where
    both :
        (a b p : ℕ) → 1 ≤ p → b < 256 → ((a == p - 1) && (b == 0xff)) ≡ (a * 256 + b == p * 256 - 1)
    both a b p pos small = ground (arith, pos, small)

-- The least integer of the length.
abbrev pub least : ℕ → ℕ
least fixed_len = 2 ^ 64 - 2 ^ (8 * fixed_len - 1)

code_ones :
    (fixed_len c v : ℕ)
    → 0 < fixed_len
    → get_elem? cap fixed_len ≡ some c
    → Fits fixed_len v
    → (u64 (v + c) % 2 ^ (8 * fixed_len) == 2 ^ (8 * fixed_len) - 1) ≡ (v == least fixed_len)
code_ones zero c v pos hc fits = absurd (omega (arith, pos))
code_ones (suc zero) c v pos hc fits =
    let cap_is : c ≡ 0x7f = ground (arith, hc) in rw cap_is (ground (arith, fits))
code_ones (suc (suc zero)) c v pos hc fits =
    let cap_is : c ≡ 0x7fff = ground (arith, hc) in rw cap_is (ground (arith, fits))
code_ones (suc (suc (suc zero))) c v pos hc fits =
    let cap_is : c ≡ 0x7fffff = ground (arith, hc) in rw cap_is (ground (arith, fits))
code_ones (suc (suc (suc (suc zero)))) c v pos hc fits =
    let cap_is : c ≡ 0x7fffffff = ground (arith, hc) in rw cap_is (ground (arith, fits))
code_ones (suc (suc (suc (suc (suc zero))))) c v pos hc fits =
    let cap_is : c ≡ 0x7fffffffff = ground (arith, hc) in rw cap_is (ground (arith, fits))
code_ones (suc (suc (suc (suc (suc (suc zero)))))) c v pos hc fits =
    let cap_is : c ≡ 0x7fffffffffff = ground (arith, hc) in rw cap_is (ground (arith, fits))
code_ones (suc (suc (suc (suc (suc (suc (suc zero))))))) c v pos hc fits =
    let cap_is : c ≡ 0x7fffffffffffff = ground (arith, hc) in rw cap_is (ground (arith, fits))
code_ones (suc (suc (suc (suc (suc (suc (suc (suc zero)))))))) c v pos hc fits =
    let cap_is : c ≡ 0x7fffffffffffffff = ground (arith, hc) in rw cap_is (ground (arith, fits))
code_ones (suc (suc (suc (suc (suc (suc (suc (suc (suc n))))))))) c v pos hc fits =
    absurd (ground (arith, hc))

is_null_lem :
    (bytes : List ℕ) (offset len : ℕ)
    → 0 < len
    → offset + len ≤ length bytes
    → is_null bytes offset len ≡ some (all_ones bytes offset len)
unfolding is_null
is_null_lem bytes offset len pos room =
    let some_bytes : (len == 0) ≡ false = ground (arith, pos) in
    rw (is_null, some_bytes) (is_null_loop_lem len offset bytes room)

write_long-inversion :
    (num : ℕ) (bytes out : List ℕ) (offset size : ℕ)
    → write_long num bytes offset size ≡ some out
    → (offset + size ≤ length bytes) × (write_long_loop size offset num bytes ≡ out)
unfolding write_long
write_long-inversion num bytes out offset size written =
    elim (lt_or_ge (length bytes) (offset + size)) [
      | inl short ↦ absurd (ground (arith, short, written))
      | inr room ↦ (room, ground (arith, room, written))
    ]

-- A number that fits the length as a signed one and is encoded: `is_null` of its bytes holds for the
-- least integer of the length, and for no other.
pub is_null-encode :
    (numerals : Numerals) (fixed_len : ℕ) (value : Text) (v offset : ℕ) (output out : List ℕ)
    → 0 < fixed_len
    → numerals.stoll value ≡ some v
    → Fits fixed_len v
    → encode numerals fixed_len value output offset ≡ some out
    → is_null out offset fixed_len ≡ some (v == least fixed_len)
unfolding encode
is_null-encode numerals fixed_len value v offset output out pos parsed fits written =
    elim (Option-cases (get_elem? cap fixed_len)) [
      | inl missing ↦
          let nothing : encode numerals fixed_len value output offset ≡ none =
            rw (encode, parsed, missing) refl in
          absurd (ground (arith, nothing, written))
      | inr (c, hc) ↦
          let direct : encode numerals fixed_len value output offset
              ≡ write_long (u64 (v + c)) output offset fixed_len =
            rw (encode, parsed, hc) refl in
          let (room, made) =
            write_long-inversion (u64 (v + c)) output out offset fixed_len (sym direct ∙ written) in
          let same = length-write_long_loop fixed_len offset (u64 (v + c)) output in
          subst (λ bytes. is_null bytes offset fixed_len ≡ some (v == least fixed_len)) made
            (is_null_lem (write_long_loop fixed_len offset (u64 (v + c)) output) offset fixed_len
                pos (omega (arith, room, same))
              ∙ ap some (
                  write_long_loop-all_ones fixed_len offset (u64 (v + c)) output room
                  ∙ code_ones fixed_len c v pos hc fits))
    ]
