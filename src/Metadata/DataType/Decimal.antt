-- ===== src/Metadata/DataType/Decimal.antt =====
-- How a decimal type is read.
use husky_kylin.Prelude.{
  ℕ, ◌+◌, ◌-◌, ◌%◌, ◌^◌, ◌<◌, ◌≡◌, inl, inr, arith, refl, sym, ap, ◌∙◌, ltb, ◌==◌, false,
  Bool-cases, Option-cases, Option, none, some, [], ◌∷◌, ◌++◌, ◌>>=◌, Text, codes, take, length,
  length-append,
}
use husky_kylin.Cube.Kv.Splitting.{take-append, drop-append, append_assoc}
use husky_kylin.Metadata.DataType.{
  position, find_byte, substr, begins_with, includes, minus_64, decimal_type, new_data_type,
}

-- The text of a decimal type.
abbrev pub decimal_text : Text → Text → Text
decimal_text p s = codes "decimal(" ++ (p ++ (44 ∷ (s ++ (41 ∷ []))))

position-append :
    (c : ℕ) (xs ys : Text) (i : ℕ)
    → position c xs ≡ none
    → position c ys ≡ some i
    → position c (xs ++ ys) ≡ some (length xs + i)
unfolding position
position-append c [] ys i absent e = e ∙ ap some (omega (arith))
position-append c (x ∷ xs) ys i absent e = elim (Bool-cases (x == c)) [
  | inl same ↦ absurd (ground (arith, same, absent))
  | inr other ↦ elim (Option-cases (position c xs)) [
    | inl beyond ↦
        let rest = position-append c xs ys i beyond e in
        rw (position, other, rest) (ap some (omega (arith)))
    | inr (j, found) ↦ absurd (ground (arith, other, found, absent))
  ]
]

substr_at :
    (pre slice post : Text)
    → substr (pre ++ (slice ++ post)) (length pre) (length slice) ≡ some slice
unfolding substr
substr_at pre slice post =
    let whole = length-append pre (slice ++ post) in
    let inside : ltb (length (pre ++ (slice ++ post))) (length pre) ≡ false =
      ground (arith, whole) in
    rw (substr, inside)
      (ap some
        (ap (take (length slice)) (drop-append pre (slice ++ post)) ∙ take-append slice post))

substr-slice :
    (pre slice post : Text) (pos n : ℕ)
    → pos ≡ length pre
    → n ≡ length slice
    → substr (pre ++ (slice ++ post)) pos n ≡ some slice
substr-slice pre slice post pos n start size = rw (start, size) (substr_at pre slice post)

find_byte-comma :
    (p s : Text) → position 44 p ≡ none → find_byte 44 (decimal_text p s) ≡ 8 + length p
unfolding find_byte position
find_byte-comma p s no_comma =
    let comma = position-append 44 p (44 ∷ (s ++ (41 ∷ []))) 0 no_comma refl in
    rw (find_byte, position, comma) (omega (arith))

position-close :
    (s : Text) → position 41 s ≡ none → position 41 (44 ∷ (s ++ (41 ∷ []))) ≡ some (1 + length s)
unfolding position
position-close s open_s =
    let last = position-append 41 s (41 ∷ []) 0 open_s refl in
    rw (position, last) (ap some (omega (arith)))

find_byte-close :
    (p s : Text)
    → position 41 p ≡ none
    → position 41 s ≡ none
    → find_byte 41 (decimal_text p s) ≡ 9 + length p + length s
unfolding find_byte position
find_byte-close p s open_p open_s =
    let close =
      position-append 41 p (44 ∷ (s ++ (41 ∷ []))) (1 + length s) open_p
        (position-close s open_s) in
    rw (find_byte, position, close) (omega (arith))

second-slice :
    (p s : Text) (pos n : ℕ)
    → pos ≡ 9 + length p
    → n ≡ length s
    → substr (decimal_text p s) pos n ≡ some s
second-slice p s pos n start size =
    let pre = codes "decimal(" ++ (p ++ (44 ∷ [])) in
    let before = length-append p (44 ∷ []) in
    ap (λ t. substr (codes "decimal(" ++ t) pos n) (sym (append_assoc p (44 ∷ []) (s ++ (41 ∷ []))))
    ∙ substr-slice pre s (41 ∷ []) pos n (omega (arith, start, before)) size

-- The text "decimal(p,s)", whose first part has no comma and no closing bracket and whose second
-- has no closing bracket, of fewer than 2 ^ 63 and 2 ^ 63 - 64 bytes: the type is a decimal whose precision
-- and scale are what `stoi` makes of the two parts, and the constructor throws only where that does.
pub new_data_type-decimal_text :
    (stoi : Text → Option ℕ) (p s : Text)
    → position 44 p ≡ none
    → position 41 p ≡ none
    → position 41 s ≡ none
    → length p < 2 ^ 63
    → length s < 2 ^ 63 - 64
    → new_data_type stoi (decimal_text p s) ≡ (
        stoi p >>= λ precision. stoi s >>= λ scale.
        some (record { name = codes "decimal"; precision = precision; scale = scale }))
unfolding new_data_type decimal_type includes begins_with position
new_data_type-decimal_text stoi p s no_comma open_p open_s small_p small_s =
    let comma = find_byte-comma p s no_comma in
    let close = find_byte-close p s open_p open_s in
    let first =
      substr-slice (codes "decimal(") p (44 ∷ (s ++ (41 ∷ []))) 8
        (minus_64 (minus_64 (8 + length p) 7) 1) refl (omega (arith, small_p)) in
    let second =
      second-slice p s ((8 + length p + 1) % 2 ^ 64)
        (minus_64 (minus_64 (9 + length p + length s) (8 + length p)) 1) (omega (arith, small_p))
        (omega (arith, small_p, small_s)) in
    rw (comma, close, first, second) refl
