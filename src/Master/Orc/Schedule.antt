-- ===== src/Master/Orc/Schedule.antt =====
-- The ORC assigner against a queue of blocks.
use husky_kylin.Prelude.{
  ℕ, zero, suc, ◌+◌, ◌-◌, ◌/◌, ◌^◌, ◌≤◌, ◌<◌, ◌≡◌, ap, inl, inr, arith, refl, ltb, true, false,
  some, List, [], ◌∷◌, ◌++◌, Text, Bool-cases,
}
use husky_kylin.Collections.All.{All}
use husky_kylin.Word.{u64}
use husky_kylin.Master.Orc.{OrcFileDesc, back, set_back, pop_back, advance, orc_row_batch_size}

-- `count` blocks of a file, from this row on.
abbrev pub blocks_from : Text → ℕ → ℕ → List (Text × ℕ)
blocks_from name offset zero = []
blocks_from name offset (suc count) = (name, offset) ∷ blocks_from name (offset + 5000) count

-- The blocks of a file: one for each 5000 rows that are left, and one more.
abbrev pub file_blocks : OrcFileDesc → List (Text × ℕ)
file_blocks f = blocks_from f.filename f.offset (suc ((f.num_of_rows - f.offset) / 5000))

-- The blocks of all the files, from the last file on.
abbrev pub schedule : List OrcFileDesc → List (Text × ℕ)
schedule [] = []
schedule (f ∷ fs) = schedule fs ++ file_blocks f

-- The offset is a row of the file or its end, and the next one is a word.
pub record HasRoom (f : OrcFileDesc) : Type 0 where
  pub within : f.offset ≤ f.num_of_rows
  pub fits : f.num_of_rows + 5000 < 2 ^ 64

-- Taking the front of a queue, which gives an empty name when there is none.
abbrev pub front : List (Text × ℕ) → Text × ℕ
front [] = ([], 0)
front (b ∷ bs) = b

abbrev pub rest : List (Text × ℕ) → List (Text × ℕ)
rest [] = []
rest (b ∷ bs) = bs

-- What one request does to the files: the block that it is given, and the files after it.
pub record IsTaken (files : List OrcFileDesc) (name : Text) (o : ℕ) (left : List OrcFileDesc)
    : Type 0 where
  pub taken : schedule files ≡ (name, o) ∷ schedule left
  pub room : All HasRoom left

file_blocks-last :
    (f : OrcFileDesc)
    → HasRoom f
    → ltb f.num_of_rows (u64 (f.offset + orc_row_batch_size)) ≡ true
    → file_blocks f ≡ (f.filename, f.offset) ∷ []
file_blocks-last f room h =
    let none_left : (f.num_of_rows - f.offset) / 5000 ≡ 0 =
      ground (arith, room.within, room.fits) in
    rw none_left refl

file_blocks-step :
    (f : OrcFileDesc)
    → HasRoom f
    → ltb f.num_of_rows (u64 (f.offset + orc_row_batch_size)) ≡ false
    → file_blocks f
      ≡ (f.filename, f.offset)
        ∷ file_blocks (record f { offset = u64 (f.offset + orc_row_batch_size) })
file_blocks-step f room h =
    let next : u64 (f.offset + 5000) ≡ f.offset + 5000 = omega (arith, room.within, room.fits) in
    let more : (f.num_of_rows - f.offset) / 5000
        ≡ suc ((f.num_of_rows - (f.offset + 5000)) / 5000) =
      ground (arith, room.within, room.fits) in
    rw (next, more) refl

single-IsTaken :
    (f : OrcFileDesc) → HasRoom f → IsTaken (f ∷ []) f.filename f.offset (advance (f ∷ []) f)
unfolding advance pop_back set_back
single-IsTaken f room =
    elim (Bool-cases (ltb f.num_of_rows (u64 (f.offset + orc_row_batch_size)))) [
      | inl past ↦ rw past (record { taken = file_blocks-last f room past; room = tt })
      | inr more ↦ rw more (record {
        taken = file_blocks-step f room more;
        room = (
          record { within = ground (arith, room.within, room.fits, more); fits = room.fits },
          tt,
        );
      })
    ]

advance-cons :
    (f g h : OrcFileDesc) (fs : List OrcFileDesc) → advance (f ∷ g ∷ fs) h ≡ f ∷ advance (g ∷ fs) h
unfolding advance pop_back set_back
advance-cons f g h fs = ground arith

-- With files left there is a last one, and its block is the front of the queue.
pub advance-IsTaken :
    (f : OrcFileDesc) (fs : List OrcFileDesc)
    → All HasRoom (f ∷ fs)
    → (last : OrcFileDesc) × (back (f ∷ fs) ≡ some last)
      × IsTaken (f ∷ fs) last.filename last.offset (advance (f ∷ fs) last)
unfolding back
advance-IsTaken f [] (room, none_more) = (f, refl, single-IsTaken f room)
advance-IsTaken f (g ∷ fs) (room, rooms) =
    let (last, e, t) = advance-IsTaken g fs rooms in
    (
      last,
      e,
      rw (advance-cons f g last fs)
          (record { taken = ap (λ q. q ++ file_blocks f) t.taken; room = (room, t.room) }),
    )
