-- ===== src/Dimension/Integer.antt =====
-- src/core-metadata/dimension/integer_dim_enc. The base class is in dimension_encoding.hpp.
pub mod RoundTrip
pub mod Null
use husky_kylin.Prelude.{
  ℕ, zero, suc, ◌+◌, ◌-◌, ◌*◌, ◌^◌, bit_and, bit_or, ◌==◌, ltb, leb, if◌then◌else◌, Bool, true,
  false, ◌&&◌, not, Option, none, some, List, [], ◌∷◌, ◌>>=◌, ◌>>◌, check, length, get_elem?, Text,
}
use husky_kylin.Word.{u64, not_64}
use husky_kylin.Utils.Bytes.{write_long, read_long}

-- The conversions of the C++ library that the encoding uses. A `long long` is its 64-bit pattern;
-- `stoll` throws at a text that is no number.
pub record Numerals : Type 0 where
  pub stoll : Text → Option ℕ
  pub to_string_signed : ℕ → Text
  pub to_string_unsigned : ℕ → Text

abbrev pub cap : List ℕ
cap =
    0 ∷ 0x7f ∷ 0x7fff ∷ 0x7fffff ∷ 0x7fffffff ∷ 0x7fffffffff ∷ 0x7fffffffffff ∷ 0x7fffffffffffff
    ∷ 0x7fffffffffffffff ∷ []

abbrev pub mask : List ℕ
mask =
    0 ∷ 0xff ∷ 0xffff ∷ 0xffffff ∷ 0xffffffff ∷ 0xffffffffff ∷ 0xffffffffffff ∷ 0xffffffffffffff
    ∷ 0xffffffffffffffff ∷ []

-- `IntegerDimEnc` has one member, `fixed_len`; this is its constructor's CHECK.
unfoldable pub new_integer_dim_enc : ℕ → Option ℕ
new_integer_dim_enc len = do check (ltb 0 len && ltb len (length cap)); some len

-- `DimensionEncoding::is_null`: all bytes are 0xff.
unfoldable pub is_null_loop : List ℕ → ℕ → ℕ → Option Bool
is_null_loop bytes i zero = some true
is_null_loop bytes i (suc left) = do
  byte ← get_elem? bytes i
  rest ← is_null_loop bytes (suc i) left
  some (if not (byte == 0xff) then false else rest)

unfoldable pub is_null : List ℕ → ℕ → ℕ → Option Bool
is_null bytes offset len = if len == 0 then some false else is_null_loop bytes offset len

-- What `decode` makes of the number that it read: the pattern to print, and whether it is signed.
unfoldable pub widen : ℕ → ℕ → ℕ → ℕ → Bool × ℕ
widen fixed_len cap_of mask_of read =
    let integer = bit_and (u64 (read + 2 ^ 64 - cap_of)) mask_of in
    if bit_and integer (u64 (0x80 * 2 ^ ((fixed_len - 1) * 8))) == 0
    then (true, integer)
    else (false, bit_or integer (not_64 mask_of))

module _ (numerals : Numerals) (fixed_len : ℕ) where
  unfoldable pub encode : Text → List ℕ → ℕ → Option (List ℕ)
  encode value output output_offset = do
    integer ← numerals.stoll value
    cap_of ← get_elem? cap fixed_len
    write_long (u64 (integer + cap_of)) output output_offset fixed_len

  -- `start` is what `read_long` finds in its uninitialised variable.
  unfoldable pub decode : ℕ → List ℕ → ℕ → ℕ → Option Text
  decode start bytes offset len = do
    read ← read_long start bytes offset len
    cap_of ← get_elem? cap fixed_len
    mask_of ← get_elem? mask fixed_len
    let (positive, integer) = widen fixed_len cap_of mask_of read
    some (
        if positive then numerals.to_string_unsigned integer else numerals.to_string_signed integer)
