-- ===== src/Examples/Utils.antt =====
-- src/utils at concrete inputs; the numbers are those of utils_test.cpp where it has them.
use husky_kylin.Prelude.{◌+◌, none, ◌⊎◌, ◌<◌, ◌≤◌}
use husky_kylin.Prelude.{ℕ, ◌≡◌, arith, refl, List, [], ◌∷◌, ◌++◌, some, length, replicate, inl}
use husky_kylin.Utils.Bytes.{
  int_to_bytes, int_to_bytes_loop, bytes_to_int, long_to_bytes, bytes_to_long, write_long,
  write_long_loop, read_long,
}
use husky_kylin.Utils.Bytes.Long.{
  byte_at, big_endian, read_long_lem, read_long-write_long, read_long-write_long_eight,
}
use husky_kylin.Utils.Bytes.Conversions.{
  bytes_to_int-int_to_bytes, bytes_to_long-long_to_bytes, read_long-long_to_bytes,
}
use husky_kylin.Utils.Bits.{
  bit_count, bit_count_loop, highest_one_bit, number_of_leading_zeros, skip_zeros, first_half,
}
use husky_kylin.Utils.Bits.Count.{ones_below, bit_count_lem}
use husky_kylin.Utils.Bits.Highest.{highest_one_bit_lem}
use husky_kylin.Utils.Bits.Leading.{number_of_leading_zeros_lem}

int_bytes : int_to_bytes 0x12345678 ≡ 0x12 ∷ 0x34 ∷ 0x56 ∷ 0x78 ∷ []
unfolding int_to_bytes int_to_bytes_loop
int_bytes = refl

bytes_to_int-int_to_bytes_example : bytes_to_int (int_to_bytes 0x87654321) ≡ some 0x87654321
bytes_to_int-int_to_bytes_example = bytes_to_int-int_to_bytes 0x87654321 (omega arith)

bytes_to_long-long_to_bytes_example :
    bytes_to_long (long_to_bytes 0x80000001) ≡ some 0xffffffff80000001
bytes_to_long-long_to_bytes_example = bytes_to_long-long_to_bytes 0x80000001 (omega arith)

read_long-long_to_bytes_example : read_long 99 (long_to_bytes 300 ++ 7 ∷ []) 0 8 ≡ some 300
read_long-long_to_bytes_example =
    read_long-long_to_bytes 99 300 (7 ∷ []) (omega arith) (omega arith)

-- With `start` left over from before, a read of one byte of 7 returns 263.
read_long_lem_example : read_long 1 (5 ∷ 7 ∷ []) 1 1 ≡ some 263
unfolding big_endian
read_long_lem_example = read_long_lem 1 (5 ∷ 7 ∷ []) 1 1 (omega arith)

abbrev blank : List ℕ
blank = replicate 24 0

read_long-write_long_example :
    ((length blank < 8 + 2) × (write_long 0x12345 blank 8 2 ≡ none))
    ⊎ ((8 + 2 ≤ length blank)
        × ((out : List ℕ) × (write_long 0x12345 blank 8 2 ≡ some out)
            × (length out ≡ length blank)
            × (byte_at out 7 ≡ byte_at blank 7)
            × (read_long 0 out 8 2 ≡ some 0x2345)))
read_long-write_long_example =
    read_long-write_long 0x12345 0 8 2 blank 7 (omega arith) (inl (omega arith))

abbrev written : List ℕ
written = 0 ∷ 0x12 ∷ 0x32 ∷ 0x54 ∷ 0x32 ∷ 0x43 ∷ 0x24 ∷ 0x23 ∷ 0x45 ∷ []

writes : write_long 0x1232543243242345 (replicate 9 0) 1 8 ≡ some written
unfolding write_long write_long_loop
writes = refl

read_long-write_long_eight_example : read_long 12345 written 1 8 ≡ some 0x1232543243242345
read_long-write_long_eight_example =
    read_long-write_long_eight 0x1232543243242345 12345 1 (replicate 9 0) written (omega arith)
      (omega arith) writes

bit_count_lem_example : bit_count 0xF0 ≡ ones_below 64 0xF0
bit_count_lem_example = bit_count_lem 0xF0 (omega arith)

four_bits : bit_count 0xF0 ≡ 4
unfolding bit_count bit_count_loop
four_bits = refl

highest_one_bit_lem_example : highest_one_bit 0x2345 ≡ 0x2000
highest_one_bit_lem_example =
    highest_one_bit_lem 0x2345 13 (omega arith) (omega arith) (omega arith)

-- Of 3, whose topmost digit is digit 1, the zeros above are 62.
number_of_leading_zeros_lem_example : number_of_leading_zeros 3 ≡ 64
number_of_leading_zeros_lem_example =
    number_of_leading_zeros_lem 3 1 (omega arith) (omega arith) (omega arith)

zeros_above_four : number_of_leading_zeros 4 ≡ 61
unfolding number_of_leading_zeros skip_zeros first_half
zeros_above_four = refl
