-- ===== src/Examples/Dimension.antt =====
-- Integer dimensions of one and of two bytes.
use husky_kylin.Prelude.{
  ℕ, ◌≡◌, arith, refl, inr, if◌then◌else◌, List, [], ◌∷◌, some, Text, codes, length, ◌^◌, ◌-◌, ◌+◌,
  ◌*◌, ◌==◌, Option, none,
}
use husky_kylin.Dimension.Integer.{Numerals, encode, decode}
use husky_kylin.Prelude.{◌==◌}
use husky_kylin.Utils.Bytes.{write_long, write_long_loop}
use husky_kylin.Dimension.Integer.{is_null}
use husky_kylin.Dimension.Integer.Null.{least, is_null-encode}
use husky_kylin.Dimension.Integer.RoundTrip.{decode-encode}

abbrev digits_value : ℕ → Text → ℕ
digits_value n [] = n
digits_value n (c ∷ cs) = digits_value (n * 10 + (c - 48)) cs

abbrev parse : Text → Option ℕ
parse [] = none
parse (c ∷ cs) =
    if c == 45 then some (2 ^ 64 - digits_value 0 cs) else some (digits_value (c - 48) cs)

-- Decimal numbers, printed with one digit.
abbrev decimal : Numerals
decimal = record {
  stoll = parse;
  to_string_signed = λ v. 45 ∷ (48 + (2 ^ 64 - v)) ∷ [];
  to_string_unsigned = λ v. (48 + v) ∷ [];
}

decode-encode_example :
    (out : List ℕ) × (encode decimal 2 (codes "-2") (0 ∷ 0 ∷ 0 ∷ []) 1 ≡ some out)
    × (length out ≡ 3)
    × (decode decimal 2 12345 out 1 2 ≡ some (codes "-2"))
decode-encode_example =
    decode-encode decimal 2 (codes "-2") (2 ^ 64 - 2) 12345 1 (0 ∷ 0 ∷ 0 ∷ []) (omega arith)
      (omega arith) (omega arith) refl (inr (omega arith, omega arith)) (omega arith)

encodes-least : encode decimal 1 (codes "-128") (0 ∷ 0 ∷ []) 1 ≡ some (0 ∷ 0xff ∷ [])
unfolding encode write_long write_long_loop
encodes-least = refl

is_null-encode_example : is_null (0 ∷ 0xff ∷ []) 1 1 ≡ some (2 ^ 64 - 128 == least 1)
is_null-encode_example =
    is_null-encode decimal 1 (codes "-128") (2 ^ 64 - 128) 1 (0 ∷ 0 ∷ []) (0 ∷ 0xff ∷ [])
      (omega arith) refl (inr (omega arith, omega arith)) encodes-least
