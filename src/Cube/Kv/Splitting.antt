-- ===== src/Cube/Kv/Splitting.antt =====
-- A key that is encoded is split into the bytes of its columns.
use husky_kylin.Prelude.{
  >>=-eq-some, ℕ, zero, suc, ◌+◌, ◌^◌, ◌<◌, ◌≡◌, ==_iff, arith, refl, sym, ap, ap₂, subst, ◌∙◌, ltb,
  leb, true, Option, none, some, List, [], ◌∷◌, ◌++◌, length, length-append, length-replicate,
  replicate, take, drop,
}
use husky_kylin.Utils.Bytes.{long_to_bytes, long_to_bytes_loop}
use husky_kylin.Utils.Bytes.Conversions.{read_long-long_to_bytes}
use husky_kylin.Cube.RowKey.{RowKeyDesc}
use husky_kylin.Cube.Cuboid.{Cuboid, new_cuboid, translated_id_to_columns, find_for_mandatory}
use husky_kylin.Cube.Kv.{
  Formats, get_column_length, copy_to, RowKeyEncoder, new_row_key_encoder, sum_lengths,
  get_bytes_length, create_buf, fill_header, encode_body, byte_array, split_columns, split,
}

-- The slices of all columns, one behind the other.
abbrev pub joined : List (List ℕ) → List ℕ
joined [] = []
joined (s ∷ slices) = s ++ joined slices

pub take-append : (xs ys : List ℕ) → take (length xs) (xs ++ ys) ≡ xs
take-append [] ys = refl
take-append (x ∷ xs) ys = ap (λ t. x ∷ t) (take-append xs ys)

pub drop-append : (xs ys : List ℕ) → drop (length xs) (xs ++ ys) ≡ ys
drop-append [] ys = refl
drop-append (x ∷ xs) ys = drop-append xs ys

pub append_assoc : (xs ys zs : List ℕ) → (xs ++ ys) ++ zs ≡ xs ++ (ys ++ zs)
append_assoc [] ys zs = refl
append_assoc (x ∷ xs) ys zs = ap (λ t. x ∷ t) (append_assoc xs ys zs)

byte_array-slice :
    (pre slice post : List ℕ)
    → 0 < length slice
    → byte_array (pre ++ (slice ++ post)) (length pre) (length slice) ≡ some slice
unfolding byte_array
byte_array-slice pre slice post some_bytes =
    let whole = length-append pre (slice ++ post) in
    let inner = length-append slice post in
    let first : ltb (length pre) (length (pre ++ (slice ++ post))) ≡ true =
      ground (arith, whole, inner, some_bytes) in
    let last : leb (length pre + length slice) (length (pre ++ (slice ++ post))) ≡ true =
      ground (arith, whole, inner) in
    rw (byte_array, first, last)
      (ap some
        (ap (take (length slice)) (drop-append pre (slice ++ post)) ∙ take-append slice post))

-- One slice for each column, of the length of its encoding and not empty.
abbrev pub HasLengths : Formats → RowKeyDesc → List ℕ → List (List ℕ) → Type 0
HasLengths formats row_key [] [] = Unit
HasLengths formats row_key (col ∷ cols) (s ∷ slices) =
    ((get_column_length formats row_key col ≡ some (length s)) × (0 < length s))
    × HasLengths formats row_key cols slices
HasLengths formats row_key _ _ = ⊥

module _ (formats : Formats) (row_key : RowKeyDesc) where
  split_columns-joined :
      (cols : List ℕ) (slices : List (List ℕ)) (pre : List ℕ)
      → HasLengths formats row_key cols slices
      → split_columns formats row_key cols (pre ++ joined slices) (length pre) ≡ some slices
  unfolding split_columns
  split_columns-joined [] [] pre h = refl
  split_columns-joined [] (s ∷ slices) pre h = elim h [ ]
  split_columns-joined (col ∷ cols) [] pre h = elim h [ ]
  split_columns-joined (col ∷ cols) (s ∷ slices) pre ((len, some_bytes), h) =
      let buffer = byte_array-slice pre s (joined slices) some_bytes in
      let rest = split_columns-joined cols slices (pre ++ s) h in
      let there : split_columns formats row_key cols (pre ++ (s ++ joined slices))
            (length pre + length s)
          ≡ some slices =
        ap₂ (split_columns formats row_key cols) (sym (append_assoc pre s (joined slices)))
          (sym (length-append pre s))
        ∙ rest in
      rw (len, buffer, there) refl

  sum_lengths-joined :
      (cols : List ℕ) (slices : List (List ℕ))
      → HasLengths formats row_key cols slices
      → sum_lengths formats row_key cols ≡ some (length (joined slices))
  unfolding sum_lengths
  sum_lengths-joined [] [] h = refl
  sum_lengths-joined [] (s ∷ slices) h = elim h [ ]
  sum_lengths-joined (col ∷ cols) [] h = elim h [ ]
  sum_lengths-joined (col ∷ cols) (s ∷ slices) ((len, some_bytes), h) =
      rw (len, sum_lengths-joined cols slices h) (ap some (sym (length-append s (joined slices))))

-- Copies that fill a part exactly.
copy_to-whole : (bs ys : List ℕ) → length bs ≡ length ys → copy_to bs 0 ys ≡ ys
unfolding copy_to
copy_to-whole [] [] h = refl
copy_to-whole [] (y ∷ ys) h = absurd (omega (arith, h))
copy_to-whole (b ∷ bs) [] h = absurd (omega (arith, h))
copy_to-whole (b ∷ bs) (y ∷ ys) h = ap (λ t. y ∷ t) (copy_to-whole bs ys (omega (arith, h)))

copy_to-behind : (pre bs ys : List ℕ) → copy_to (pre ++ bs) (length pre) ys ≡ pre ++ copy_to bs 0 ys
unfolding copy_to
copy_to-behind [] bs ys = refl
copy_to-behind (p ∷ pre) bs ys = ap (λ t. p ∷ t) (copy_to-behind pre bs ys)

copy_to-front : (pre bs ys : List ℕ) → length pre ≡ length ys → copy_to (pre ++ bs) 0 ys ≡ ys ++ bs
unfolding copy_to
copy_to-front [] [] [] h = refl
copy_to-front [] (b ∷ bs) [] h = refl
copy_to-front [] bs (y ∷ ys) h = absurd (omega (arith, h))
copy_to-front (p ∷ pre) bs [] h = absurd (omega (arith, h))
copy_to-front (p ∷ pre) bs (y ∷ ys) h = ap (λ t. y ∷ t) (copy_to-front pre bs ys (omega (arith, h)))

replicate-add : (m n a : ℕ) → replicate (m + n) a ≡ replicate m a ++ replicate n a
replicate-add zero n a = let e : 0 + n ≡ n = omega arith in rw e refl
replicate-add (suc m) n a =
    let e : suc m + n ≡ suc (m + n) = omega arith in rw e (ap (λ t. a ∷ t) (replicate-add m n a))

length-long_to_bytes : (n : ℕ) → length (long_to_bytes n) ≡ 8
unfolding long_to_bytes long_to_bytes_loop
length-long_to_bytes n = refl

take-long_to_bytes : (n : ℕ) → take 8 (long_to_bytes n) ≡ long_to_bytes n
unfolding long_to_bytes long_to_bytes_loop
take-long_to_bytes n = refl

-- The cuboid of an id has the bytes of the id.
id_bytes_of :
    (row_key : RowKeyDesc) (id : ℕ) (cuboid : Cuboid)
    → find_for_mandatory row_key id ≡ some cuboid
    → long_to_bytes id ≡ cuboid.id_bytes
unfolding find_for_mandatory new_cuboid
id_bytes_of row_key id cuboid h =
    let (columns, e, made) = >>=-eq-some (translated_id_to_columns row_key id) _ cuboid h in
    ap (λ o. bytes_in o) made
  where
    bytes_in : Option Cuboid → List ℕ
    bytes_in none = []
    bytes_in (some c) = c.id_bytes

module _ (e : RowKeyEncoder) (id : ℕ) (same : long_to_bytes id ≡ e.cuboid.id_bytes) where
  encode_body-bytes :
      (body : List ℕ)
      → length body ≡ e.body_length
      → encode_body e body (create_buf e) ≡ some (long_to_bytes id ++ body)
  unfolding encode_body create_buf get_bytes_length fill_header
  encode_body-bytes body len =
      let buf = replicate (8 + e.body_length) 0 in
      let full : length buf ≡ 8 + e.body_length = length-replicate (8 + e.body_length) 0 in
      let zeros : List ℕ = replicate 8 0 in
      let tail = replicate e.body_length 0 in
      let filled : copy_to buf 8 body ≡ zeros ++ body =
        ap (λ b. copy_to b 8 body) (replicate-add 8 e.body_length 0)
        ∙ copy_to-behind zeros tail body
        ∙ ap (λ t. zeros ++ t)
            (copy_to-whole tail body (length-replicate e.body_length 0 ∙ sym len)) in
      let header : take 8 e.cuboid.id_bytes ≡ long_to_bytes id =
        ap (take 8) (sym same) ∙ take-long_to_bytes id in
      rw
        (
          encode_body,
          (==_iff (length body) e.body_length).1 len,
          (==_iff (length buf) (8 + e.body_length)).1 full,
        )
        (ap some (
          ap₂ (λ b h. copy_to b 0 h) filled header
          ∙ copy_to-front zeros body (long_to_bytes id) (sym (length-long_to_bytes id))))

-- For an id that is a word and has a cuboid, and slices of the lengths of its columns' encodings,
-- none of them empty: the encoder is made and puts the slices behind the eight bytes of the id, and
-- the splitter finds the id, its bytes, and each of the slices in this key.
pub split-encode_body :
    (formats : Formats) (row_key : RowKeyDesc) (cuboid : Cuboid) (id start : ℕ)
    (slices : List (List ℕ))
    → start < 2 ^ 64
    → id < 2 ^ 64
    → find_for_mandatory row_key id ≡ some cuboid
    → HasLengths formats row_key cuboid.dimension_columns slices
    → (e : RowKeyEncoder) × (out : List ℕ) × (new_row_key_encoder formats row_key cuboid ≡ some e)
      × (encode_body e (joined slices) (create_buf e) ≡ some out)
      × (split formats row_key start out ≡ some (id, long_to_bytes id ∷ slices))
unfolding new_row_key_encoder split
split-encode_body formats row_key cuboid id start slices hs hid known lengths =
    let e : RowKeyEncoder = record { cuboid = cuboid; body_length = length (joined slices) } in
    let sums = sum_lengths-joined formats row_key cuboid.dimension_columns slices lengths in
    let eight = length-long_to_bytes id in
    let body = joined slices in
    let header : byte_array (long_to_bytes id ++ body) 0 8 ≡ some (long_to_bytes id) =
      subst (λ n. byte_array (long_to_bytes id ++ body) 0 n ≡ some (long_to_bytes id)) eight
        (byte_array-slice [] (long_to_bytes id) body (omega (arith, eight))) in
    let columns : split_columns formats row_key cuboid.dimension_columns (long_to_bytes id ++ body)
          8
        ≡ some slices =
      subst
        (λ n.
          split_columns formats row_key cuboid.dimension_columns (long_to_bytes id ++ body) n
          ≡ some slices)
        eight
        (split_columns-joined formats row_key cuboid.dimension_columns slices (long_to_bytes id)
          lengths) in
    (
      e,
      long_to_bytes id ++ body,
      rw sums refl,
      encode_body-bytes e id (id_bytes_of row_key id cuboid known) body refl,
      rw (header, read_long-long_to_bytes start id body hs hid, known, columns) refl,
    )
