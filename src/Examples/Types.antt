-- ===== src/Examples/Types.antt =====
-- The type decimal(7,2).
use husky_kylin.Prelude.{ℕ, ◌-◌, ◌≡◌, arith, refl, Option, some, [], ◌∷◌, Text, codes, ◌>>=◌}
use husky_kylin.Metadata.DataType.{new_data_type, position}
use husky_kylin.Metadata.DataType.Decimal.{decimal_text, new_data_type-decimal_text}

-- The value of the first digit.
abbrev stoi : Text → Option ℕ
stoi [] = some 0
stoi (c ∷ cs) = some (c - 48)

new_data_type-decimal_text_example : new_data_type stoi (decimal_text (codes "7") (codes "2")) ≡ (
    stoi (codes "7") >>= λ precision. stoi (codes "2") >>= λ scale.
    some (record { name = codes "decimal"; precision = precision; scale = scale }))
unfolding position
new_data_type-decimal_text_example =
    new_data_type-decimal_text stoi (codes "7") (codes "2") refl refl refl (omega (arith))
      (omega (arith))
