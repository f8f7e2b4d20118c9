-- ===== src/Utils/Bits.antt =====
-- src/utils/utils.cpp, the bit counts. The local `int half` of `number_of_leading_zeros` is its
-- 32-bit pattern.
pub mod Highest
pub mod Leading
pub mod Count
use husky_kylin.Prelude.{
  ℕ, zero, suc, ◌+◌, ◌-◌, ◌*◌, ◌/◌, ◌%◌, ◌^◌, bit_and, bit_or, Bool, true, false, ◌==◌,
  if◌then◌else◌,
}
use husky_kylin.Word.{u32, u64, sign_extend, sar_32, ◌>>>◌}

-- The loop of `bit_count`. It ends by its test, at the latest after 64 rounds.
unfoldable pub bit_count_loop : ℕ → ℕ → ℕ → ℕ
bit_count_loop zero n count = count
bit_count_loop (suc fuel) n count = elim (n == 0) [
  | true ↦ count
  | false ↦ bit_count_loop fuel (n >>> 1) (count + bit_and n 1)
]

unfoldable pub bit_count : ℕ → ℕ
bit_count n = bit_count_loop 65 n 0

-- `n |= n >> k`.
unfoldable pub smear : ℕ → ℕ → ℕ
smear k n = bit_or n (n >>> k)

unfoldable pub highest_one_bit : ℕ → ℕ
highest_one_bit n =
    let smeared = smear 32 (smear 16 (smear 8 (smear 4 (smear 2 (smear 1 n))))) in
    smeared - (smeared >>> 1)

-- The locals of `number_of_leading_zeros`.
pub record Halving : Type 0 where
  pub ret : ℕ
  pub half : ℕ

-- `if (half >> at == 0) { ret += by; half <<= by; }`.
unfoldable pub skip_zeros : ℕ → ℕ → Halving → Halving
skip_zeros at by h =
    if sar_32 h.half at == 0 then record { ret = h.ret + by; half = u32 (h.half * 2 ^ by) } else h

-- `int half = (int) (n >> 32); if (half == 0) { ret += 32; half = (int) n; }`, with `ret` from 1.
unfoldable pub first_half : ℕ → Halving
first_half n =
    if u32 (n >>> 32) == 0
    then record { ret = 1 + 32; half = u32 n }
    else record { ret = 1; half = u32 (n >>> 32) }

-- `ret -= half >> 31` is a subtraction of `int`s, whose result is converted to `uint64_t`.
unfoldable pub number_of_leading_zeros : ℕ → ℕ
number_of_leading_zeros n =
    if n == 0
    then 64
    else (let h =
          skip_zeros 30 2 (skip_zeros 28 4 (skip_zeros 24 8 (skip_zeros 16 16 (first_half n)))) in
        sign_extend (u32 (h.ret + 2 ^ 32 - sar_32 h.half 31)))
