-- ===== src/Algorithm/NdCuboidBuilder/Picked.antt =====
-- Which columns of the parent are copied into the key of a child.
use husky_kylin.Prelude.{
  ℕ, zero, suc, ◌+◌, ◌-◌, ◌/◌, ◌%◌, ◌^◌, ◌≤◌, ◌<◌, ◌≡◌, inl, inr, arith, refl, sym, ap, subst, ◌∙◌,
  bit_and, leb, ◌==◌, true, Bool-cases, some, List, [], ◌∷◌, ◌++◌, length, length-append, get_elem?,
  get_or, if◌then◌else◌, eq_or_ne,
}
use husky_kylin.Word.Digit.{
  bit, bit-le-one, bit-bit_and, bit-pow_self, bit-pow_ne, bit-zero, bit_ext,
}
use native.Mathlib.Nat.{pow-suc}
use husky_kylin.Utils.Bits.{number_of_leading_zeros}
use husky_kylin.Utils.Bits.Count.{ones_below}
use husky_kylin.Utils.Bits.Highest.{highest_one_bit_lem}
use husky_kylin.Utils.Bits.Leading.{number_of_leading_zeros_lem}
use husky_kylin.Cube.Kv.{RowKeyEncoder, cuboidid_length, copy_to, fill_header}
use husky_kylin.Algorithm.NdCuboidBuilder.{is_set, build_loop, build_key_internal}

module _ (parent child : ℕ) (buffers : List (List ℕ)) where
  -- `rounds` digits from the `j`th down: a digit of the parent is a buffer, from the `i`th on, and
  -- the buffers of the digits that the child has, too, are put together.
  unfoldable pub picked : ℕ → ℕ → ℕ → List ℕ
  picked zero j i = []
  picked (suc rounds) j i =
      let skipped = picked rounds (j - 1) i in
      let more = picked rounds (j - 1) (i + 1) in
      if bit parent j == 1
      then (if bit child j == 1 then get_or buffers i [] ++ more else more)
      else skipped

length-copy_to : (bs : List ℕ) (o : ℕ) (xs : List ℕ) → length (copy_to bs o xs) ≡ length bs
unfolding copy_to
length-copy_to [] o xs = refl
length-copy_to (b ∷ bs) (suc o) xs = ap suc (length-copy_to bs o xs)
length-copy_to (b ∷ bs) zero [] = refl
length-copy_to (b ∷ bs) zero (x ∷ xs) = ap suc (length-copy_to bs zero xs)

copy_to-nil : (bs : List ℕ) (o : ℕ) → copy_to bs o [] ≡ bs
unfolding copy_to
copy_to-nil [] o = refl
copy_to-nil (b ∷ bs) zero = refl
copy_to-nil (b ∷ bs) (suc o) = ap (λ t. b ∷ t) (copy_to-nil bs o)

-- Two copies, one behind the other, are one.
copy_to-append :
    (bs : List ℕ) (o : ℕ) (xs ys : List ℕ)
    → copy_to (copy_to bs o xs) (o + length xs) ys ≡ copy_to bs o (xs ++ ys)
unfolding copy_to
copy_to-append [] o xs ys = refl
copy_to-append (b ∷ bs) (suc o) xs ys =
    let next : suc o + length xs ≡ suc (o + length xs) = omega arith in
    rw next (ap (λ t. b ∷ t) (copy_to-append bs o xs ys))
copy_to-append (b ∷ bs) zero [] ys = refl
copy_to-append (b ∷ bs) zero (x ∷ xs) ys =
    let next : 0 + suc (length xs) ≡ suc (0 + length xs) = omega arith in
    rw next (ap (λ t. x ∷ t) (copy_to-append bs zero xs ys))

-- The mask of a digit tells whether it is one.
has_digit : (x j : ℕ) → is_set (2 ^ j) x ≡ (bit x j == 1)
unfolding is_set
has_digit x j = elim (eq_or_ne (bit x j) 1) [
  | inl one ↦
      let there : bit (bit_and (2 ^ j) x) j ≡ 1 =
        omega (arith, bit-bit_and (2 ^ j) x j, bit-pow_self j, one) in
      let some_digit : 0 < bit_and (2 ^ j) x = elim (eq_or_ne (bit_and (2 ^ j) x) 0) [
        | inl e ↦ absurd (omega (arith, there, ap (λ (y : ℕ). bit y j) e, bit-zero j))
        | inr ne ↦ ground (arith, ne)
      ] in
      ground (arith, one, some_digit)
  | inr other ↦
      let nothing : bit_and (2 ^ j) x ≡ 0 = bit_ext _ 0 λ i. elim (eq_or_ne j i) [
        | inr ne ↦ omega (arith, bit-bit_and (2 ^ j) x i, bit-pow_ne j i ne, bit-zero i)
        | inl e ↦ omega (
          arith,
          bit-bit_and (2 ^ j) x i,
          bit-le-one x j,
          ap (bit x) e,
          bit-zero i,
          bit-le-one (2 ^ j) i,
          below x j other,
        )
      ] in
      ground (arith, nothing, other)
]
  where
    below : (x j : ℕ) → (bit x j ≡ 1 → ⊥) → bit x j ≡ 0
    below x j ne = ground (arith, bit-le-one x j, ne)

get_elem?-some :
    (all : List (List ℕ)) (i : ℕ) → i < length all → get_elem? all i ≡ some (get_or all i [])
get_elem?-some [] i h = elim h [ ]
get_elem?-some (x ∷ xs) zero h = refl
get_elem?-some (x ∷ xs) (suc i) h = get_elem?-some xs i (omega arith)

half_mask : (j : ℕ) → 2 ^ suc j / 2 ≡ 2 ^ j
half_mask j = omega (arith, pow-suc 2 j)

-- How many of the digits that the loop visits are the parent's.
unfoldable pub visited : ℕ → ℕ → ℕ → ℕ
visited parent zero j = 0
visited parent (suc rounds) j = bit parent j + visited parent rounds (j - 1)

visited-le :
    (parent rounds j : ℕ) → rounds ≤ suc j → visited parent rounds j ≤ ones_below (suc j) parent
unfolding visited ones_below
visited-le parent zero j h = omega arith
visited-le parent (suc zero) zero h = omega arith
visited-le parent (suc (suc rounds)) zero h = absurd (omega (arith, h))
visited-le parent (suc rounds) (suc j) h =
    let less : suc j - 1 ≡ j = omega arith in
    rw less (omega (arith, visited-le parent rounds j (omega (arith, h))))

-- The digits of the parent that the loop visits: all of them if the topmost is even, and all but
-- the lowest two if it is odd.
abbrev pub rounds_of : ℕ → ℕ
rounds_of top = if top % 2 == 0 then suc top else top - 1

module _ (parent child : ℕ) (buffers : List (List ℕ)) where
  -- The loop with this mask copies the columns that are picked.
  abbrev Copies : ℕ → ℕ → ℕ → Type 0
  Copies rounds mask j =
      (i offset : ℕ) (buf : List ℕ)
      → i + visited parent rounds j ≤ length buffers
      → offset + length (picked parent child buffers rounds j i) ≤ length buf
      → build_loop parent child rounds buffers mask i offset buf
        ≡ some (copy_to buf offset (picked parent child buffers rounds j i))

  zero-Copies : (mask j : ℕ) → Copies 0 mask j
  unfolding build_loop picked
  zero-Copies mask j i offset buf enough fits = ap some (sym (copy_to-nil buf offset))

  kept-Copies :
      (rounds j i offset : ℕ) (buf : List ℕ)
      → (bit parent j == 1) ≡ true
      → (bit child j == 1) ≡ true
      → Copies rounds (2 ^ j / 2) (j - 1)
      → i + visited parent (suc rounds) j ≤ length buffers
      → offset + length (get_or buffers i [] ++ picked parent child buffers rounds (j - 1) (i + 1))
        ≤ length buf
      → build_loop parent child (suc rounds) buffers (2 ^ j) i offset buf
        ≡ some (copy_to buf offset (picked parent child buffers (suc rounds) j i))
  unfolding build_loop picked visited
  kept-Copies rounds j i offset buf there kept next enough room =
      let buffer = get_or buffers i [] in
      let more = picked parent child buffers rounds (j - 1) (i + 1) in
      let got = get_elem?-some buffers i (ground (arith, there, enough)) in
      let both = length-append buffer more in
      let fitting : leb (offset + length buffer) (length buf) ≡ true = ground (arith, both, room) in
      let later =
        next (i + 1) (offset + length buffer) (copy_to buf offset buffer)
          (ground (arith, there, enough))
          (omega (arith, both, room, length-copy_to buf offset buffer)) in
      rw (build_loop, has_digit parent j, there, has_digit child j, kept, got, fitting)
        (later ∙ ap some (copy_to-append buf offset buffer more))

  suc-Copies : (rounds j : ℕ) → Copies rounds (2 ^ j / 2) (j - 1) → Copies (suc rounds) (2 ^ j) j
  unfolding build_loop picked visited
  suc-Copies rounds j next i offset buf enough fits = elim (Bool-cases (bit parent j == 1)) [
    | inr away ↦
        rw (build_loop, has_digit parent j, away)
          (next i offset buf (omega (arith, enough)) (ground (arith, away, fits)))
    | inl there ↦ elim (Bool-cases (bit child j == 1)) [
      | inr left ↦
          rw (build_loop, has_digit parent j, there, has_digit child j, left)
            (next (i + 1) offset buf (ground (arith, there, enough))
              (ground (arith, there, left, fits)))
      | inl kept ↦
          kept-Copies rounds j i offset buf there kept next enough
            (ground (arith, there, kept, fits))
    ]
  ]

  build_loop-Copies : (rounds j : ℕ) → rounds ≤ suc j → Copies rounds (2 ^ j) j
  build_loop-Copies zero j h = zero-Copies (2 ^ j) j
  build_loop-Copies (suc zero) zero h = suc-Copies zero zero (zero-Copies (2 ^ 0 / 2) 0)
  build_loop-Copies (suc (suc rounds)) zero h = absurd (omega (arith, h))
  build_loop-Copies (suc rounds) (suc j) h =
      let less : suc j - 1 ≡ j = omega arith in
      suc-Copies rounds (suc j) (
        rw less (
          subst (λ m. Copies rounds m j) (sym (half_mask j))
            (build_loop-Copies rounds j (omega (arith, h)))))

  -- For a parent that is a word with topmost digit `top`, a buffer for each of its digits behind
  -- that of the header, and room for the columns that are picked: the key is built, and is the
  -- header of the child and, behind it, the columns that both have, from the topmost digit down. If
  -- `top` is odd, the columns of the digits 1 and 0 are left out.
  pub build_key_internal-picked :
      (encoder : RowKeyEncoder) (top : ℕ) (buf : List ℕ)
      → top < 64
      → 2 ^ top ≤ parent
      → parent < 2 ^ suc top
      → 1 + ones_below (suc top) parent ≤ length buffers
      → cuboidid_length + length (picked parent child buffers (rounds_of top) top 1) ≤ length buf
      → build_key_internal encoder parent child buffers buf
        ≡ some (
            fill_header encoder
              (copy_to buf cuboidid_length (picked parent child buffers (rounds_of top) top 1)))
  unfolding build_key_internal
  build_key_internal-picked encoder top buf small lo hi enough fits =
      let rounds : 64 - number_of_leading_zeros parent ≡ rounds_of top =
        ground (arith, number_of_leading_zeros_lem parent top small lo hi, small) in
      let short : rounds_of top ≤ suc top = ground arith in
      let loop =
        build_loop-Copies (rounds_of top) top short 1 cuboidid_length buf
          (omega (arith, enough, visited-le parent (rounds_of top) top short)) fits in
      rw (rounds, highest_one_bit_lem parent top small lo hi, loop) refl
