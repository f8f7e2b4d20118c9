-- ===== src/Metadata/DataType.antt =====
-- src/core-metadata/metadata/datatype/data_type: the types of columns and measures.
pub mod Decimal
use husky_kylin.Prelude.{
  ℕ, suc, ◌+◌, ◌-◌, ◌%◌, ◌^◌, ◌||◌, ltb, ◌==◌, if◌then◌else◌, Bool, true, false, Option, none, some,
  List, [], ◌∷◌, ◌>>=◌, Text, codes, text_eq, take, drop, length,
}

-- The two numbers are 32-bit patterns.
pub record DataType : Type 0 where
  pub name : Text
  pub precision : ℕ
  pub scale : ℕ

abbrev pub minus_one : ℕ
minus_one = 2 ^ 32 - 1

-- `find` of one byte, with `none` for `npos`.
unfoldable pub position : ℕ → Text → Option ℕ
position c [] = none
position c (x ∷ xs) = elim (x == c) [
  | true ↦ some 0
  | false ↦ elim (position c xs) [ none ↦ none | some i ↦ some (suc i) ]
]

-- `find` as a `size_t`, where `npos` is the largest one.
unfoldable pub find_byte : ℕ → Text → ℕ
find_byte c xs = elim (position c xs) [ none ↦ 2 ^ 64 - 1 | some i ↦ i ]

-- `substr(pos, n)`, which throws if `pos` is past the end.
unfoldable pub substr : Text → ℕ → ℕ → Option Text
substr xs pos n = elim (ltb (length xs) pos) [ true ↦ none | false ↦ some (take n (drop pos xs)) ]

unfoldable pub begins_with : Text → Text → Bool
begins_with [] xs = true
begins_with (y ∷ ys) [] = false
begins_with (y ∷ ys) (x ∷ xs) = if x == y then begins_with ys xs else false

-- `find(word) != npos`, for a word that is not empty.
unfoldable pub includes : Text → Text → Bool
includes word [] = false
includes word (x ∷ xs) = begins_with word (x ∷ xs) || includes word xs

-- The difference of two `size_t`.
abbrev pub minus_64 : ℕ → ℕ → ℕ
minus_64 a b = (a + 2 ^ 64 - b) % 2 ^ 64

-- `std::stoi`, as a pattern, is a parameter; it is `none` where it throws.
unfoldable pub decimal_type : (Text → Option ℕ) → Text → Option DataType
decimal_type stoi data_type = elim (position 40 data_type) [
  | none ↦ some (record { name = codes "decimal"; precision = minus_one; scale = minus_one })
  | some pos ↦
      let comma = find_byte 44 data_type in
      do
        first ← substr data_type (pos + 1) (minus_64 (minus_64 comma pos) 1)
        precision ← stoi first
        let close = find_byte 41 data_type
        second ← substr data_type ((comma + 1) % 2 ^ 64) (minus_64 (minus_64 close comma) 1)
        scale ← stoi second
        some (record { name = codes "decimal"; precision = precision; scale = scale })
]

-- The type of a name that does not include "decimal".
unfoldable pub named_type : Text → DataType
named_type name =
    if text_eq name (codes "char")
    then record { name = name; precision = 255; scale = minus_one }
    else (if text_eq name (codes "varchar")
        then record { name = name; precision = 256; scale = minus_one }
        else (if text_eq name (codes "decimal") || text_eq name (codes "numeric")
            then record { name = name; precision = 19; scale = 4 }
            else record { name = name; precision = minus_one; scale = minus_one }))

-- The constructor of a text.
unfoldable pub new_data_type : (Text → Option ℕ) → Text → Option DataType
new_data_type stoi data_type = elim (includes (codes "decimal") data_type) [
  | true ↦ decimal_type stoi data_type
  | false ↦ some (named_type data_type)
]

-- `get_type`: the outer `none` is a throw, the inner one the null pointer.
unfoldable pub get_type : (Text → Option ℕ) → Text → Option (Option DataType)
get_type stoi [] = some none
get_type stoi (c ∷ cs) = do data_type ← new_data_type stoi (c ∷ cs); some (some data_type)

abbrev pub integer_family : List Text
integer_family =
    codes "tinyint"
    ∷ codes "smallint"
    ∷ codes "integer"
    ∷ codes "bigint"
    ∷ codes "int4"
    ∷ codes "long8"
    ∷ []

abbrev pub number_family : List Text
number_family =
    codes "tinyint"
    ∷ codes "smallint"
    ∷ codes "integer"
    ∷ codes "bigint"
    ∷ codes "int4"
    ∷ codes "long8"
    ∷ codes "float"
    ∷ codes "double"
    ∷ codes "decimal"
    ∷ codes "real"
    ∷ codes "numeric"
    ∷ []

abbrev pub string_family : List Text
string_family = codes "varchar" ∷ codes "char" ∷ []

unfoldable pub in_family : List Text → Text → Bool
in_family [] name = false
in_family (member ∷ members) name = text_eq member name || in_family members name

abbrev pub is_integer_family : DataType → Bool
is_integer_family t = in_family integer_family t.name

abbrev pub is_number_family : DataType → Bool
is_number_family t = in_family number_family t.name

abbrev pub is_string_family : DataType → Bool
is_string_family t = in_family string_family t.name
