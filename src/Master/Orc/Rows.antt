-- ===== src/Master/Orc/Rows.antt =====
-- Every row of an ORC file is in one of the blocks that are handed out.
use husky_kylin.Prelude.{
  ℕ, zero, suc, ◌+◌, ◌-◌, ◌*◌, ◌/◌, ◌≤◌, ◌<◌, ◌≡◌, ◌≢◌, ap, inl, inr, arith, refl, ltb, leb, ◌&&◌,
  Option, List, [], ◌∷◌, ◌++◌, Text, text_eq, text_eq_refl, text_eq-ne, if◌then◌else◌, length,
  subst, ◌∙◌, lt_or_ge,
}
use husky_kylin.Collections.All.{All}
use husky_kylin.Master.Hdfs.{FileInfo, Hdfs}
use husky_kylin.Master.Orc.{OrcFileDesc, OrcBlockAssigner}
use husky_kylin.Master.Orc.Schedule.{blocks_from, file_blocks, schedule}
use mathlib.Core.List.{map-append}
use husky_kylin.Prelude.{map, sym, true, some}
use husky_kylin.Master.Listing.{
  IsPassed, files_listed, files_listed-append, files_listed-cons, files_listed-All,
}
use husky_kylin.Master.Orc.Found.{new_file, files_of, replies_to-schedule}
use husky_kylin.Master.Orc.Replies.{queue_replies, requests_for, replies_to, HasShortFiles, IsFresh}

-- The number of blocks among the replies that have this row of this file.
unfoldable pub holding : Text → ℕ → List (Text × ℕ) → ℕ
holding name row [] = 0
holding name row ((n, o) ∷ bs) =
    let k = holding name row bs in
    if text_eq name n && (leb o row && ltb row (o + 5000)) then suc k else k

module _ (name : Text) (row : ℕ) where
  holding-append :
      (bs cs : List (Text × ℕ))
      → holding name row (bs ++ cs) ≡ holding name row bs + holding name row cs
  unfolding holding
  holding-append [] cs = omega arith
  holding-append ((n, o) ∷ bs) cs = ground (arith, holding-append bs cs)

  holding-other : (n : Text) (o count : ℕ) → name ≢ n → holding name row (blocks_from n o count) ≡ 0
  unfolding holding
  holding-other n o zero ne = refl
  holding-other n o (suc count) ne = rw (text_eq-ne name n ne) (holding-other n (o + 5000) count ne)

  holding-above : (o count : ℕ) → row < o → holding name row (blocks_from name o count) ≡ 0
  unfolding holding
  holding-above o zero h = refl
  holding-above o (suc count) h = ground (arith, text_eq_refl name, holding-above (o + 5000) count)

  holding-blocks_from :
      (o count : ℕ)
      → o ≤ row
      → row < o + 5000 * count
      → holding name row (blocks_from name o count) ≡ 1
  unfolding holding
  holding-blocks_from o zero low high = absurd (omega arith)
  holding-blocks_from o (suc count) low high = elim (lt_or_ge row (o + 5000)) [
    | inl here ↦ ground (arith, text_eq_refl name, holding-above (o + 5000) count here)
    | inr later ↦
        ground (arith, text_eq_refl name, holding-blocks_from (o + 5000) count later (omega arith))
  ]

  holding-schedule_other :
      (fs : List OrcFileDesc) → All (λ f. name ≢ f.filename) fs → holding name row (schedule fs) ≡ 0
  unfolding holding
  holding-schedule_other [] ne = refl
  holding-schedule_other (f ∷ fs) (ne, nes) = omega (
    arith,
    holding-append (schedule fs) (file_blocks f),
    holding-schedule_other fs nes,
    holding-other f.filename f.offset (suc ((f.num_of_rows - f.offset) / 5000)) ne,
  )

  holding-nothing : (n : ℕ) → name ≢ [] → holding name row (queue_replies n []) ≡ 0
  unfolding holding queue_replies
  holding-nothing zero ne = refl
  holding-nothing (suc n) ne = rw (text_eq-ne name [] ne) (holding-nothing n ne)

  holding-queue_replies :
      (n : ℕ) (queue : List (Text × ℕ))
      → name ≢ []
      → length queue ≤ n
      → holding name row (queue_replies n queue) ≡ holding name row queue
  unfolding holding queue_replies
  holding-queue_replies n [] ne h = holding-nothing n ne
  holding-queue_replies zero (b ∷ queue) ne h = absurd (omega arith)
  holding-queue_replies (suc n) ((m, o) ∷ queue) ne h =
      ground (arith, holding-queue_replies n queue ne)

-- A file that nothing was handed out of.
record IsNew (f : OrcFileDesc) : Type 0 where
  start : f.offset ≡ 0
  named : f.filename ≢ []

snoc-ne : (name : Text) → (name ++ 0 ∷ []) ≢ []
snoc-ne [] e = absurd (ground arith)
snoc-ne (x ∷ xs) e = absurd (ground arith)

listed-IsNew : (files : List (Text × ℕ)) → All IsNew (map new_file files)
listed-IsNew [] = tt
listed-IsNew ((name, rows) ∷ files) =
    (record { start = refl; named = snoc-ne name }, listed-IsNew files)

-- The names of the files end in a zero byte, without which they differ where they differed.
unsnoc : Text → Text
unsnoc [] = []
unsnoc (x ∷ []) = []
unsnoc (x ∷ y ∷ ys) = x ∷ unsnoc (y ∷ ys)

unsnoc_lem : (name : Text) → unsnoc (name ++ 0 ∷ []) ≡ name
unfolding unsnoc
unsnoc_lem [] = refl
unsnoc_lem (x ∷ []) = refl
unsnoc_lem (x ∷ y ∷ ys) = ap (λ t. x ∷ t) (unsnoc_lem (y ∷ ys))

listed-ne :
    (name : Text) (files : List (Text × ℕ))
    → All (λ e. name ≢ e.0) files
    → All (λ g. (name ++ 0 ∷ []) ≢ g.filename) (map new_file files)
listed-ne name [] all = tt
listed-ne name ((other, rows) ∷ files) (ne, all) =
    (λ e. ne (sym (unsnoc_lem name) ∙ ap unsnoc e ∙ unsnoc_lem other), listed-ne name files all)

new-blocks :
    (f : OrcFileDesc) (row : ℕ)
    → IsNew f
    → row < f.num_of_rows
    → holding f.filename row (file_blocks f) ≡ 1
new-blocks f row new h =
    holding-blocks_from f.filename row f.offset (suc ((f.num_of_rows - f.offset) / 5000))
      (omega (arith, new.start)) (omega (arith, new.start))

schedule-holding :
    (before after : List OrcFileDesc) (f : OrcFileDesc) (row : ℕ)
    → All IsNew (before ++ f ∷ after)
    → All (λ g. f.filename ≢ g.filename) before
    → All (λ g. f.filename ≢ g.filename) after
    → row < f.num_of_rows
    → (f.filename ≢ []) × (holding f.filename row (schedule (before ++ f ∷ after)) ≡ 1)
schedule-holding [] after f row (new, news) b a h = (
  new.named,
  omega (
    arith,
    holding-append f.filename row (schedule after) (file_blocks f),
    holding-schedule_other f.filename row after a,
    new-blocks f row new h,
  ),
)
schedule-holding (g ∷ before) after f row (new, news) (ne, nes) a h =
    let (named, one) = schedule-holding before after f row news nes a h in
    (
      named,
      omega (
        arith,
        one,
        holding-append f.filename row (schedule (before ++ f ∷ after)) (file_blocks g),
        holding-other f.filename row g.filename g.offset (suc ((g.num_of_rows - g.offset) / 5000))
            ne,
      ),
    )

module _ (hdfs : Hdfs) (number_of_rows : Text → Option ℕ) where
  -- A url that was not asked for before, at least as many requests for it as its files have blocks,
  -- among any others, and files whose rows stay 5000 below 2 ^ 64; an entry of the url's listing
  -- that is a file, whose name no other entry has, where the reader opens it and every file listed
  -- before it: each row of that file is in exactly one of the blocks in the replies.
  pub replies_to-holding :
      HasShortFiles number_of_rows
      → (url : Text) (requests : List Text) (s : OrcBlockAssigner) (earlier later : List FileInfo)
        (info : FileInfo) (rows row : ℕ)
      → IsFresh url s
      → hdfs.list_directory url ≡ earlier ++ info ∷ later
      → info.is_file ≡ true
      → number_of_rows info.name ≡ some rows
      → All (IsPassed number_of_rows) earlier
      → All (λ other. info.name ≢ other.name) earlier
      → All (λ other. info.name ≢ other.name) later
      → length (schedule (files_of hdfs number_of_rows url)) ≤ requests_for url requests
      → row < rows
      → holding (info.name ++ 0 ∷ []) row (replies_to hdfs number_of_rows url requests s) ≡ 1
  replies_to-holding short url requests s earlier later info rows row fresh e file size passed b a
        enough h =
      let first = files_listed number_of_rows earlier in
      let last = files_listed number_of_rows later in
      let before = map new_file first in
      let after = map new_file last in
      let f = new_file (info.name, rows) in
      let split : files_of hdfs number_of_rows url ≡ before ++ f ∷ after =
        ap (λ infos. map new_file (files_listed number_of_rows infos)) e
        ∙ ap (map new_file) (
            files_listed-append number_of_rows earlier (info ∷ later) passed
            ∙ ap (λ fs. first ++ fs) (files_listed-cons number_of_rows info rows later file size))
        ∙ map-append new_file first ((info.name, rows) ∷ last) in
      let new =
        subst (All IsNew) split
          (listed-IsNew (files_listed number_of_rows (hdfs.list_directory url))) in
      let (named, one) =
        schedule-holding before after f row new
          (listed-ne info.name first
            (files_listed-All number_of_rows (λ n. info.name ≢ n) earlier b))
          (listed-ne info.name last (files_listed-All number_of_rows (λ n. info.name ≢ n) later a))
          h in
      ap (holding f.filename row)
        (replies_to-schedule hdfs number_of_rows short url requests s fresh)
      ∙ holding-queue_replies f.filename row (requests_for url requests)
          (schedule (files_of hdfs number_of_rows url)) named enough
      ∙ ap (λ fs. holding f.filename row (schedule fs)) split
      ∙ one
