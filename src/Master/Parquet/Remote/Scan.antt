-- ===== src/Master/Parquet/Remote/Scan.antt =====
-- The search for the first file with a row group left, against the queue.
use husky_kylin.Prelude.{
  ℕ, suc, ◌+◌, ◌-◌, ◌≤◌, ◌<◌, ◌≡◌, ◌≢◌, ap, inl, inr, arith, refl, ltb, Option, none, some, List,
  [], ◌∷◌, Text, Bool-cases, subst, sym, ◌∙◌, text_same_or_ne,
}
use husky_kylin.Word.{u64}
use husky_kylin.Collections.All
use husky_kylin.Collections.All.{All}
use husky_kylin.Collections.Dict.{
  lookup, put, at_or, at_or-put_self, at_or-put_other, lookup-put_other,
}
use husky_kylin.Collections.Sorted.{IsSorted, IsSorted-ne}
use husky_kylin.Master.Parquet.{ParquetBlockAssigner, touch}
use husky_kylin.Master.Parquet.Remote.{scan_files}
use husky_kylin.Master.Parquet.Remote.Queue.{groups_left, groups_left-same, IsCounted, All-both}

abbrev pub first : List (Text × ℕ) → Option (Text × ℕ)
first [] = none
first (b ∷ bs) = some b

abbrev pub others : List (Text × ℕ) → List (Text × ℕ)
others [] = []
others (b ∷ bs) = bs

pub touch-at_or : (i k : Text) (m : List (Text × ℕ)) → at_or 0 i (touch k m) ≡ at_or 0 i m
touch-at_or i k m = elim (text_same_or_ne i k) [
  | inl same ↦
      subst (λ x. at_or 0 x (touch k m) ≡ at_or 0 x m) (sym same)
        (at_or-put_self 0 k (at_or 0 k m) m)
  | inr ne ↦ at_or-put_other 0 i k (at_or 0 k m) m ne
]

abbrev pub IsOutside : Text → List (Text × ℕ) → Type 0
IsOutside k sizes = All (λ e. k ≢ e.0) sizes

-- What a search of these files does.
pub record IsScanned (sizes : List (Text × ℕ)) (s : ParquetBlockAssigner)
    (found : Option (Text × ℕ)) (t : ParquetBlockAssigner) : Type 0 where
  pub workers : t.num_workers_alive ≡ s.num_workers_alive
  pub same_sizes : t.file_size ≡ s.file_size
  pub connected : t.connected ≡ s.connected
  pub offsets : (k : Text) → IsOutside k sizes → at_or 0 k t.file_offset ≡ at_or 0 k s.file_offset
  pub counts : (k : Text) → IsOutside k sizes → lookup k t.finish_dict ≡ lookup k s.finish_dict
  pub reply : found ≡ first (groups_left sizes s.file_offset)
  pub left : groups_left sizes t.file_offset ≡ others (groups_left sizes s.file_offset)
  pub files : All (IsCounted t) sizes

-- The state after a file with a row group left.
abbrev after_hit : Text → ParquetBlockAssigner → ParquetBlockAssigner
after_hit path s =
    let offsets = touch path s.file_offset in
    record s { file_offset = put path (u64 (at_or 0 path s.file_offset + 1)) offsets }

-- The state after a file without one.
abbrev after_miss : Text → ParquetBlockAssigner → ParquetBlockAssigner
after_miss path s = record s {
  file_offset = touch path s.file_offset;
  finish_dict = put path (at_or 0 path s.finish_dict + 1) s.finish_dict;
}

module _ (path : Text) (size : ℕ) (sizes : List (Text × ℕ)) (s : ParquetBlockAssigner)
    (ne : IsOutside path sizes) (it : IsCounted s (path, size))
    (files : All (IsCounted s) sizes) where
  abbrev offset : ℕ
  offset = at_or 0 path s.file_offset

  hit-offset_other :
      (k : Text) → k ≢ path → at_or 0 k (after_hit path s).file_offset ≡ at_or 0 k s.file_offset
  hit-offset_other k h =
      at_or-put_other 0 k path (u64 (offset + 1)) (touch path s.file_offset) h
      ∙ touch-at_or k path s.file_offset

  hit-IsScanned :
      offset < size → IsScanned ((path, size) ∷ sizes) s (some (path, offset)) (after_hit path s)
  unfolding groups_left
  hit-IsScanned lt =
      let next : u64 (offset + 1) ≡ offset + 1 = omega (arith, it.fits, lt) in
      let stored : at_or 0 path (after_hit path s).file_offset ≡ offset + 1 =
        at_or-put_self 0 path (u64 (offset + 1)) (touch path s.file_offset) ∙ next in
      let split : size - offset ≡ suc (size - (offset + 1)) = omega (arith, lt) in
      let same_queue =
        groups_left-same sizes s.file_offset (after_hit path s).file_offset
          (All.All-map _ _ sizes (λ e h. hit-offset_other (e.0) (λ p. h (sym p))) ne) in
      record {
        workers = refl;
        same_sizes = refl;
        connected = refl;
        offsets = λ k out. hit-offset_other k (out.0);
        counts = λ k out. refl;
        reply = rw split refl;
        left = rw (stored, same_queue, split) refl;
        files = (
          record { fits = it.fits; counted = inl (ground (arith, it.counted, lt)) },
          All.All-map _ _ sizes
              (λ e h. record {
                fits = h.1.fits;
                counted = rw (hit-offset_other (e.0) (λ p. h.0 (sym p))) h.1.counted;
              })
              (All-both (λ e. path ≢ e.0) (IsCounted s) sizes ne files),
        );
      }

  miss-IsCounted : All (IsCounted (after_miss path s)) sizes
  miss-IsCounted =
      All.All-map _ _ sizes
        (λ e h. record {
          fits = h.1.fits;
          counted =
              rw
                (
                  touch-at_or (e.0) path s.file_offset,
                  at_or-put_other 0 (e.0) path (at_or 0 path s.finish_dict + 1) s.finish_dict
                      (λ p. h.0 (sym p)),
                )
                h.1.counted;
        })
        (All-both (λ e. path ≢ e.0) (IsCounted s) sizes ne files)

  miss-IsScanned :
      (found : Option (Text × ℕ)) (t : ParquetBlockAssigner)
      → size ≤ offset
      → IsScanned sizes (after_miss path s) found t
      → IsScanned ((path, size) ∷ sizes) s found t
  unfolding groups_left
  miss-IsScanned found t ge i =
      let nothing : size - offset ≡ 0 = omega (arith, ge) in
      let same_queue =
        groups_left-same sizes s.file_offset (after_miss path s).file_offset
          (All.All-map _ _ sizes (λ e h. touch-at_or (e.0) path s.file_offset) ne) in
      let stored = i.offsets path ne ∙ touch-at_or path path s.file_offset in
      record {
        workers = i.workers;
        same_sizes = i.same_sizes;
        connected = i.connected;
        offsets = λ k out. i.offsets k (out.1) ∙ touch-at_or k path s.file_offset;
        counts = λ k out.
            i.counts k (out.1)
            ∙ lookup-put_other k path (at_or 0 path s.finish_dict + 1) s.finish_dict (out.0);
        reply = rw nothing (i.reply ∙ ap first same_queue);
        left = rw (stored, nothing) (i.left ∙ ap others same_queue);
        files = (record { fits = it.fits; counted = inr (rw stored ge) }, i.files);
      }

pub scan_files-IsScanned :
    (sizes : List (Text × ℕ)) (s : ParquetBlockAssigner)
    → IsSorted sizes
    → All (IsCounted s) sizes
    → IsScanned sizes s (scan_files sizes s).0 (scan_files sizes s).1
unfolding scan_files groups_left
scan_files-IsScanned [] s sorted files = record {
  workers = refl;
  same_sizes = refl;
  connected = refl;
  offsets = λ k out. refl;
  counts = λ k out. refl;
  reply = refl;
  left = refl;
  files = tt;
}
scan_files-IsScanned ((path, size) ∷ sizes) s sorted (it, files) =
    let ne = IsSorted-ne path size sizes sorted in
    let more =
      scan_files-IsScanned sizes (after_miss path s) (sorted.1)
        (miss-IsCounted path size sizes s ne it files) in
    elim (Bool-cases (ltb (at_or 0 path s.file_offset) size)) [
      | inl hit ↦
          rw (scan_files, hit) (hit-IsScanned path size sizes s ne it files (ground (arith, hit)))
      | inr miss ↦
          rw (scan_files, miss)
            (miss-IsScanned path size sizes s ne it files (scan_files sizes (after_miss path s)).0
              (scan_files sizes (after_miss path s)).1 (ground (arith, miss)) more)
    ]
