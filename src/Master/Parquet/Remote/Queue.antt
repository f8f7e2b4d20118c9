-- ===== src/Master/Parquet/Remote/Queue.antt =====
-- The row groups that are left, as a queue, and what forgetting a finished file does to it.
use husky_kylin.Prelude.{
  ℕ, zero, suc, ◌+◌, ◌-◌, ◌^◌, ◌≤◌, ◌<◌, ◌≡◌, ◌≢◌, ◌⊎◌, ap, ap₂, inl, inr, arith, refl, true, List,
  [], ◌∷◌, ◌++◌, Text, text_eq, text_eq_refl, text_eq-true, Bool-cases, subst, sym, ◌∙◌,
}
use husky_kylin.Collections.All
use husky_kylin.Collections.All.{All}
use husky_kylin.Collections.Dict.{erase, at_or, at_or-erase_other}
use husky_kylin.Collections.Sorted.{IsSorted, All-erase, erase-IsSorted}
use husky_kylin.Master.Parquet.{ParquetBlockAssigner, finish_url}

-- `count` row groups of a file, from this one on.
abbrev pub groups_from : Text → ℕ → ℕ → List (Text × ℕ)
groups_from path offset zero = []
groups_from path offset (suc count) = (path, offset) ∷ groups_from path (offset + 1) count

-- The row groups that are left of files of these sizes.
unfoldable pub groups_left : List (Text × ℕ) → List (Text × ℕ) → List (Text × ℕ)
groups_left [] offsets = []
groups_left ((path, size) ∷ sizes) offsets =
    groups_from path (at_or 0 path offsets) (size - at_or 0 path offsets)
    ++ groups_left sizes offsets

-- A file that any worker was counted for has no row group left.
pub record IsCounted (s : ParquetBlockAssigner) (e : Text × ℕ) : Type 0 where
  pub fits : e.1 < 2 ^ 64
  pub counted : (at_or 0 (e.0) s.finish_dict ≡ 0) ⊎ (e.1 ≤ at_or 0 (e.0) s.file_offset)

-- The state between two requests.
pub record IsConsistent (s : ParquetBlockAssigner) : Type 0 where
  pub workers : 0 < s.num_workers_alive
  pub sorted : IsSorted s.file_size
  pub files : All (IsCounted s) s.file_size

-- The queue only depends on the offsets of the files.
pub groups_left-same :
    (sizes offsets others : List (Text × ℕ))
    → All (λ e. at_or 0 (e.0) others ≡ at_or 0 (e.0) offsets) sizes
    → groups_left sizes others ≡ groups_left sizes offsets
unfolding groups_left
groups_left-same [] offsets others same = refl
groups_left-same ((path, size) ∷ sizes) offsets others (e, same) =
    ap₂ ◌++◌ (ap (λ o. groups_from path o (size - o)) e)
      (groups_left-same sizes offsets others same)

-- A file with nothing left may go.
pub record IsExhausted (path : Text) (offsets : List (Text × ℕ)) (e : Text × ℕ) : Type 0 where
  pub done : (path ≢ e.0) ⊎ (e.1 ≤ at_or 0 (e.0) offsets)

groups_left-erase :
    (path : Text) (sizes offsets : List (Text × ℕ))
    → All (IsExhausted path offsets) sizes
    → groups_left (erase path sizes) offsets ≡ groups_left sizes offsets
unfolding groups_left erase
groups_left-erase path [] offsets a = refl
groups_left-erase path ((j, size) ∷ sizes) offsets (x, a) = elim (Bool-cases (text_eq path j)) [
  | inr ne ↦ rw ne (
      ap (λ q. groups_from j (at_or 0 j offsets) (size - at_or 0 j offsets) ++ q)
        (groups_left-erase path sizes offsets a))
  | inl e ↦ elim x.done [
    | inl other ↦ absurd (other (text_eq-true path j e))
    | inr done ↦
        let nothing : size - at_or 0 j offsets ≡ 0 = omega (arith, done) in
        rw (e, nothing) (groups_left-erase path sizes offsets a)
  ]
]

pub erase-ne : (path : Text) (sizes : List (Text × ℕ)) → All (λ e. e.0 ≢ path) (erase path sizes)
unfolding erase
erase-ne path [] = tt
erase-ne path ((j, size) ∷ sizes) = elim (Bool-cases (text_eq path j)) [
  | inl e ↦ rw e (erase-ne path sizes)
  | inr ne ↦ rw ne (
    λ same. ground (arith, ne, subst (λ x. text_eq path x ≡ true) (sym same) (text_eq_refl path)),
    erase-ne path sizes,
  )
]

pub All-both :
    (P Q : Text × ℕ → Type 0) (m : List (Text × ℕ)) → All P m → All Q m → All (λ e. P e × Q e) m
All-both P Q [] p q = tt
All-both P Q (e ∷ m) (p, ps) (q, qs) = ((p, q), All-both P Q m ps qs)

module _ (path : Text) (s : ParquetBlockAssigner)
    (x : All (IsExhausted path s.file_offset) s.file_size) where
  pub finish_url-groups_left :
      groups_left (finish_url path s).file_size (finish_url path s).file_offset
      ≡ groups_left s.file_size s.file_offset
  unfolding finish_url
  finish_url-groups_left =
      groups_left-same (erase path s.file_size) s.file_offset (erase path s.file_offset) (
        All.All-map _ _ (erase path s.file_size)
          (λ e ne. at_or-erase_other 0 (e.0) path s.file_offset ne) (erase-ne path s.file_size))
      ∙ groups_left-erase path s.file_size s.file_offset x

pub finish_url-IsConsistent :
    (path : Text) (s : ParquetBlockAssigner) → IsConsistent s → IsConsistent (finish_url path s)
unfolding finish_url
finish_url-IsConsistent path s c = record {
  workers = c.workers;
  sorted = erase-IsSorted path s.file_size c.sorted;
  files =
      All.All-map _ _ (erase path s.file_size)
        (λ e h. record {
          fits = h.0.fits;
          counted =
              rw
                (
                  at_or-erase_other 0 (e.0) path s.finish_dict h.1,
                  at_or-erase_other 0 (e.0) path s.file_offset h.1,
                )
                h.0.counted;
        })
        (All-both (IsCounted s) (λ e. e.0 ≢ path) (erase path s.file_size)
          (All-erase (IsCounted s) path s.file_size c.files) (erase-ne path s.file_size));
}
