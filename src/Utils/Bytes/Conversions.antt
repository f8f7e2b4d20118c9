-- ===== src/Utils/Bytes/Conversions.antt =====
-- The conversions of whole integers, `int_to_bytes` to `bytes_to_long`.
use husky_kylin.Prelude.{
  ℕ, ◌+◌, ◌-◌, ◌/◌, ◌%◌, ◌^◌, ◌<◌, ◌≡◌, arith, List, [], ◌∷◌, ◌++◌, some, ltb, if◌then◌else◌,
}
use husky_kylin.Word.Fields.{bit_and_mask}
use husky_kylin.Utils.Bytes.{
  int_to_bytes, int_to_bytes_loop, bytes_to_int, long_to_bytes, long_to_bytes_loop, bytes_to_long,
  read_long,
}
use husky_kylin.Utils.Bytes.Long.{big_endian, read_long_lem}

int_to_bytes_lem :
    (n : ℕ)
    → n < 2 ^ 32
    → int_to_bytes n ≡ n / 2 ^ 24 ∷ n / 2 ^ 16 % 256 ∷ n / 2 ^ 8 % 256 ∷ n % 256 ∷ []
unfolding int_to_bytes int_to_bytes_loop
int_to_bytes_lem n h = ground arith

-- An `int` comes back from its four bytes.
pub bytes_to_int-int_to_bytes : (n : ℕ) → n < 2 ^ 32 → bytes_to_int (int_to_bytes n) ≡ some n
unfolding bytes_to_int
bytes_to_int-int_to_bytes n h = rw (int_to_bytes_lem n h) (ground arith)

pub long_to_bytes_lem :
    (n : ℕ)
    → n < 2 ^ 64
    → long_to_bytes n
      ≡ n / 2 ^ 56
        ∷ n / 2 ^ 48 % 256
        ∷ n / 2 ^ 40 % 256
        ∷ n / 2 ^ 32 % 256
        ∷ n / 2 ^ 24 % 256
        ∷ n / 2 ^ 16 % 256
        ∷ n / 2 ^ 8 % 256
        ∷ n % 256
        ∷ []
unfolding long_to_bytes long_to_bytes_loop
long_to_bytes_lem n h = simp (bit_and_mask 8) (ground arith)

-- A `uint64_t` comes back from its eight bytes if digit 31 is 0. Otherwise the fifth byte is
-- shifted into the sign of an `int`, and what comes back is smaller by 2 ^ 32, modulo 2 ^ 64.
pub bytes_to_long-long_to_bytes :
    (n : ℕ)
    → n < 2 ^ 64
    → bytes_to_long (long_to_bytes n)
      ≡ some (if ltb (n % 2 ^ 32) (2 ^ 31) then n else (n + 2 ^ 64 - 2 ^ 32) % 2 ^ 64)
unfolding bytes_to_long
bytes_to_long-long_to_bytes n h = rw (long_to_bytes_lem n h) (ground arith)

-- `read_long` finds the eight bytes of a `uint64_t` at the head of an array.
pub read_long-long_to_bytes :
    (start n : ℕ) (body : List ℕ)
    → start < 2 ^ 64
    → n < 2 ^ 64
    → read_long start (long_to_bytes n ++ body) 0 8 ≡ some n
read_long-long_to_bytes start n body hs h =
    rw (long_to_bytes_lem n h, read_long_lem start _ 0 8 hs) (unfold big_endian in ground arith)
