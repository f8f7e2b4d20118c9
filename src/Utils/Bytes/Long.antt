-- ===== src/Utils/Bytes/Long.antt =====
-- `write_long` and `read_long` against the big-endian reading of a range of bytes.
use husky_kylin.Prelude.{
  ℕ, zero, suc, ◌+◌, ◌*◌, ◌/◌, ◌%◌, ◌^◌, ◌≤◌, ◌<◌, ◌≡◌, ◌∙◌, ◌⊎◌, inl, inr, refl, arith, ap, List,
  length, get_or, set, some, length-set, get_or-set_self, get_or-set_ne, bit_and, bit_or, leb, none,
  if◌then◌else◌, lt_or_ge,
}
use native.Mathlib.Nat.{div-add-mod', mod-lt, mod-eq_of_lt, mul-add-mod_self_left, one-le-pow}
use husky_kylin.Word.Shift.{pow-add}
use husky_kylin.Word.{u8, u64}
use husky_kylin.Word.Fields.{bit_or_fields, bit_and_mask}
use husky_kylin.Utils.Bytes.{write_long, write_long_loop, read_long, read_long_loop}

abbrev pub byte_at : List ℕ → ℕ → ℕ
byte_at bytes i = get_or bytes i 0

-- The number of `size` bytes from `i` on, most significant first, behind the digits of `high`.
unfoldable pub big_endian : ℕ → ℕ → List ℕ → ℕ → ℕ
big_endian high zero bytes i = high
big_endian high (suc size) bytes i =
    big_endian (high * 256 + u8 (byte_at bytes i)) size bytes (suc i)

big_endian-suc :
    (high size : ℕ) (bytes : List ℕ) (i : ℕ)
    → big_endian high (suc size) bytes i
      ≡ big_endian high size bytes i * 256 + u8 (byte_at bytes (i + size))
unfolding big_endian
big_endian-suc high zero bytes i = let e : i + 0 ≡ i = omega arith in rw e
big_endian-suc high (suc size) bytes i =
    let e : i + suc size ≡ suc i + size = omega arith in
    rw e (big_endian-suc (high * 256 + u8 (byte_at bytes i)) size bytes (suc i))

read_step :
    (x b : ℕ) → bit_or (u64 (x % 2 ^ 64 * 2 ^ 8)) (bit_and b 0xFF) ≡ (x * 256 + u8 b) % 2 ^ 64
read_step x b =
    let shifted : u64 (x % 2 ^ 64 * 2 ^ 8) ≡ x % 2 ^ 56 * 2 ^ 8 = omega arith in
    rw (shifted, bit_and_mask 8 b, bit_or_fields 8 (x % 2 ^ 56) (b % 2 ^ 8) (omega arith))
      (omega arith)

-- The loop reads modulo 2 ^ 64 what stands in the bytes, behind what the variable held before.
read_long_loop_lem :
    (left i : ℕ) (bytes : List ℕ) (x : ℕ)
    → read_long_loop left i bytes (x % 2 ^ 64) ≡ big_endian x left bytes i % 2 ^ 64
unfolding read_long_loop big_endian
read_long_loop_lem zero i bytes x = refl
read_long_loop_lem (suc left) i bytes x =
    rw (read_step x (byte_at bytes i))
      (read_long_loop_lem left (suc i) bytes (x * 256 + u8 (byte_at bytes i)))

-- `read_long` aborts on a range that leaves the array. Otherwise it returns, modulo 2 ^ 64, the
-- big-endian number that stands in the range behind the old digits of the uninitialised variable.
pub read_long_lem :
    (start : ℕ) (bytes : List ℕ) (offset size : ℕ)
    → start < 2 ^ 64
    → read_long start bytes offset size ≡ (
        if leb (offset + size) (length bytes)
        then some (big_endian start size bytes offset % 2 ^ 64)
        else none)
unfolding read_long
read_long_lem start bytes offset size h =
    let same : start % 2 ^ 64 ≡ start = omega arith in
    ground (arith, rw same at (read_long_loop_lem size offset bytes start))

pub length-write_long_loop :
    (left offset num : ℕ) (bytes : List ℕ)
    → length (write_long_loop left offset num bytes) ≡ length bytes
unfolding write_long_loop
length-write_long_loop zero offset num bytes = refl
length-write_long_loop (suc left) offset num bytes =
    length-write_long_loop left offset (num / 2 ^ 8) (set bytes (offset + left) (u8 num))
    ∙ length-set bytes (offset + left) (u8 num)

-- A byte outside the range is left alone.
pub write_long_loop_outside :
    (left offset num : ℕ) (bytes : List ℕ) (j : ℕ)
    → (j < offset) ⊎ (offset + left ≤ j)
    → byte_at (write_long_loop left offset num bytes) j ≡ byte_at bytes j
unfolding write_long_loop
write_long_loop_outside zero offset num bytes j h = refl
write_long_loop_outside (suc left) offset num bytes j h =
    write_long_loop_outside left offset (num / 2 ^ 8) (set bytes (offset + left) (u8 num)) j
      (grind arith)
    ∙ get_or-set_ne bytes (offset + left) j (u8 num) 0 (λ e. grind arith)

pub mod_bytes : (n p : ℕ) → 0 < p → n % (p * 256) ≡ n / 256 % p * 256 + n % 256
mod_bytes n p h =
    let whole : n ≡ p * 256 * (n / 256 / p) + (n / 256 % p * 256 + n % 256) =
      omega (arith, ap (λ (t : ℕ). t * 256) (div-add-mod' (n / 256) p)) in
    let below : n / 256 % p * 256 + n % 256 < p * 256 = omega (arith, mod-lt (n / 256) h) in
    ap (λ (t : ℕ). t % (p * 256)) whole
    ∙ mul-add-mod_self_left (p * 256) (n / 256 / p) (n / 256 % p * 256 + n % 256)
    ∙ mod-eq_of_lt below

-- What the loop wrote is the number, up to the digits that the range has no room for.
big_endian-write_long_loop :
    (left offset num : ℕ) (bytes : List ℕ) (high : ℕ)
    → offset + left ≤ length bytes
    → big_endian high left (write_long_loop left offset num bytes) offset
      ≡ high * 2 ^ (8 * left) + num % 2 ^ (8 * left)
unfolding write_long_loop
big_endian-write_long_loop zero offset num bytes high h = unfold big_endian in omega arith
big_endian-write_long_loop (suc left) offset num bytes high h = rw pow_bytes (
    big_endian-suc high left rest offset
    ∙ omega (
      arith,
      big_endian-write_long_loop left offset (num / 2 ^ 8) stored high
          (rw length-set (omega arith)),
      write_long_loop_outside left offset (num / 2 ^ 8) stored (offset + left) (inr (omega arith)),
      get_or-set_self bytes (offset + left) (u8 num) 0 (omega arith),
      mod_bytes num (2 ^ (8 * left)) (one-le-pow (8 * left) 2 (omega arith)),
    ))
  where
    stored : List ℕ
    stored = set bytes (offset + left) (u8 num)

    rest : List ℕ
    rest = write_long_loop left offset (num / 2 ^ 8) stored

    pow_bytes : 2 ^ (8 * suc left) ≡ 2 ^ (8 * left) * 256
    pow_bytes = let e : 8 * suc left ≡ 8 * left + 8 = omega arith in rw e (pow-add (8 * left) 8)

pub read_long-write_long_inside :
    (num start offset size : ℕ) (bytes : List ℕ) (j : ℕ)
    → start < 2 ^ 64
    → offset + size ≤ length bytes
    → (j < offset) ⊎ (offset + size ≤ j)
    → (out : List ℕ) × (write_long num bytes offset size ≡ some out)
      × (length out ≡ length bytes)
      × (byte_at out j ≡ byte_at bytes j)
      × (read_long start out offset size
          ≡ some ((start * 2 ^ (8 * size) + num % 2 ^ (8 * size)) % 2 ^ 64))
unfolding write_long
read_long-write_long_inside num start offset size bytes j h fits outside =
    let out = write_long_loop size offset num bytes in
    (
      out,
      ground arith,
      length-write_long_loop size offset num bytes,
      write_long_loop_outside size offset num bytes j outside,
      ground (
        arith,
        read_long_lem start out offset size h,
        length-write_long_loop size offset num bytes,
        big_endian-write_long_loop size offset num bytes start fits,
      ),
    )

-- `write_long` aborts on a range that leaves the array. Otherwise the array keeps its length and
-- every byte `j` outside the range its value, and `read_long` over that range gives the low digits of the number
-- that was written, behind those of its uninitialised variable.
pub read_long-write_long :
    (num start offset size : ℕ) (bytes : List ℕ) (j : ℕ)
    → start < 2 ^ 64
    → (j < offset) ⊎ (offset + size ≤ j)
    → ((length bytes < offset + size) × (write_long num bytes offset size ≡ none))
      ⊎ ((offset + size ≤ length bytes)
          × ((out : List ℕ) × (write_long num bytes offset size ≡ some out)
              × (length out ≡ length bytes)
              × (byte_at out j ≡ byte_at bytes j)
              × (read_long start out offset size
                  ≡ some ((start * 2 ^ (8 * size) + num % 2 ^ (8 * size)) % 2 ^ 64))))
unfolding write_long
read_long-write_long num start offset size bytes j h outside =
    elim (lt_or_ge (length bytes) (offset + size)) [
      | inl short ↦ inl (short, ground (arith, short))
      | inr fits ↦
          inr (fits, read_long-write_long_inside num start offset size bytes j h fits outside)
    ]

-- Eight bytes leave nothing of the uninitialised variable: the number is read back whole.
pub read_long-write_long_eight :
    (num start offset : ℕ) (bytes out : List ℕ)
    → num < 2 ^ 64
    → start < 2 ^ 64
    → write_long num bytes offset 8 ≡ some out
    → read_long start out offset 8 ≡ some num
unfolding write_long
read_long-write_long_eight num start offset bytes out hn hs written =
    elim (lt_or_ge (length bytes) (offset + 8)) [
      | inl short ↦ ground arith
      | inr fits ↦
          let (other, made, _, _, reads) =
            read_long-write_long_inside num start offset 8 bytes (offset + 8) hs fits
              (inr (omega arith)) in
          ground arith
    ]
