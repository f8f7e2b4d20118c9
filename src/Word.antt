-- ===== src/Word.antt =====
-- Machine words as native numbers: `uint64_t` is a number below 2 ^ 64, `unsigned char` one below
-- 256, and an `int` is its two's complement pattern below 2 ^ 32. The children hold the laws of
-- the bit operations.
pub mod Step
pub mod Digit
pub mod Mask
pub mod Fields
pub mod Shift
use Prim.Native.Nat.{ℕ, ◌+◌, ◌-◌, ◌*◌, ◌/◌, ◌%◌, ◌^◌}
use husky_kylin.Prelude.{if◌then◌else◌, ltb}

abbrev pub u8 : ℕ → ℕ
u8 n = n % 2 ^ 8

abbrev pub u32 : ℕ → ℕ
u32 n = n % 2 ^ 32

abbrev pub u64 : ℕ → ℕ
u64 n = n % 2 ^ 64

-- `x >> k` of an unsigned word.
infixl 75 ◌>>>◌
abbrev pub ◌>>>◌ : ℕ → ℕ → ℕ
x >>> k = x / 2 ^ k

-- `~x` of a `uint64_t`.
abbrev pub not_64 : ℕ → ℕ
not_64 x = 2 ^ 64 - 1 - x

-- `x >> k` of an `int`: the sign is copied in from the left.
abbrev pub sar_32 : ℕ → ℕ → ℕ
sar_32 x k = if ltb x (2 ^ 31) then x / 2 ^ k else 2 ^ 32 - 1 - (2 ^ 32 - 1 - x) / 2 ^ k

-- An `int` converted to `uint64_t`: the sign is copied into the upper half.
abbrev pub sign_extend : ℕ → ℕ
sign_extend x = if ltb x (2 ^ 31) then x else x + 2 ^ 64 - 2 ^ 32
