-- ===== src/Utils/Bytes.antt =====
-- src/utils/utils.cpp, the conversions between integers and arrays of bytes. An `int` is its
-- 32-bit pattern. Offsets and sizes, of type `int` in the source, are never negative here.
pub mod Long
pub mod Conversions
use husky_kylin.Prelude.{
  ℕ, zero, suc, ◌+◌, ◌-◌, ◌*◌, ◌^◌, bit_and, bit_or, Bool, Option, List, leb, length, get_elem?,
  set, replicate, ◌>>=◌, ◌>>◌, check, some, get_or,
}
use husky_kylin.Word.{u8, u32, u64, ◌>>>◌, sar_32, sign_extend}

-- The loop of `int_to_bytes` from index `i` on.
unfoldable pub int_to_bytes_loop : ℕ → ℕ → ℕ → List ℕ → List ℕ
int_to_bytes_loop zero i param_int array_of_bytes = array_of_bytes
int_to_bytes_loop (suc left) i param_int array_of_bytes =
    int_to_bytes_loop left (suc i) param_int
      (set array_of_bytes (3 - i) (u8 (sar_32 param_int (i * 8))))

unfoldable pub int_to_bytes : ℕ → List ℕ
int_to_bytes param_int = int_to_bytes_loop 4 0 param_int (replicate 4 0)

-- The sum is one of `int`s: each shifted byte and the sum are 32-bit patterns.
unfoldable pub bytes_to_int : List ℕ → Option ℕ
bytes_to_int bytes = do
  b0 ← get_elem? bytes 0
  b1 ← get_elem? bytes 1
  b2 ← get_elem? bytes 2
  b3 ← get_elem? bytes 3
  some (u32 (u32 (b0 * 2 ^ 24) + b1 * 2 ^ 16 + b2 * 2 ^ 8 + b3))

unfoldable pub long_to_bytes_loop : ℕ → ℕ → ℕ → List ℕ → List ℕ
long_to_bytes_loop zero i param_long array_of_bytes = array_of_bytes
long_to_bytes_loop (suc left) i param_long array_of_bytes =
    long_to_bytes_loop left (suc i) param_long
      (set array_of_bytes (7 - i) (u8 (bit_and (param_long >>> (i * 8)) 0xFF)))

unfoldable pub long_to_bytes : ℕ → List ℕ
long_to_bytes param_long = long_to_bytes_loop 8 0 param_long (replicate 8 0)

-- The upper four bytes are converted to `uint64_t` before the shift, the lower four are shifted
-- as `int` and converted when they are added.
unfoldable pub bytes_to_long : List ℕ → Option ℕ
bytes_to_long bytes = do
  b0 ← get_elem? bytes 0
  b1 ← get_elem? bytes 1
  b2 ← get_elem? bytes 2
  b3 ← get_elem? bytes 3
  b4 ← get_elem? bytes 4
  b5 ← get_elem? bytes 5
  b6 ← get_elem? bytes 6
  b7 ← get_elem? bytes 7
  let upper = b0 * 2 ^ 56 + b1 * 2 ^ 48 + b2 * 2 ^ 40 + b3 * 2 ^ 32
  let lower = sign_extend (u32 (b4 * 2 ^ 24)) + b5 * 2 ^ 16 + b6 * 2 ^ 8 + b7
  some (u64 (upper + lower))

-- The loop of `write_long`, which goes down from the last byte; `left` bytes are still to write.
unfoldable pub write_long_loop : ℕ → ℕ → ℕ → List ℕ → List ℕ
write_long_loop zero offset num bytes = bytes
write_long_loop (suc left) offset num bytes =
    write_long_loop left offset (num >>> 8) (set bytes (offset + left) (u8 num))

unfoldable pub write_long : ℕ → List ℕ → ℕ → ℕ → Option (List ℕ)
write_long num bytes offset size = do
  check (leb (offset + size) (length bytes))
  some (write_long_loop size offset num bytes)

-- The loop of `read_long` at index `i`. Behind the check no index is out of range.
unfoldable pub read_long_loop : ℕ → ℕ → List ℕ → ℕ → ℕ
read_long_loop zero i bytes integer = integer
read_long_loop (suc left) i bytes integer =
    read_long_loop left (suc i) bytes
      (bit_or (u64 (integer * 2 ^ 8)) (bit_and (get_or bytes i 0) 0xFF))

-- `integer` is not initialised in the source: `start` is what the variable happens to hold.
unfoldable pub read_long : ℕ → List ℕ → ℕ → ℕ → Option ℕ
read_long start bytes offset size = do
  check (leb (offset + size) (length bytes))
  some (read_long_loop size offset bytes start)
