-- ===== src/Master/Parquet/Local.antt =====
-- The Parquet assigner for files that are not on HDFS.
use husky_kylin.Prelude.{
  ℕ, zero, suc, ◌+◌, ◌≡◌, ◌≢◌, ◌⊎◌, ap, ap₂, inl, inr, arith, refl, ltb, ◌==◌, false, Option, none,
  some, List, [], ◌∷◌, Text, text_same_or_ne, Bool-cases, Option-cases, subst, sym, ◌∙◌,
}
use husky_kylin.Collections.All.{All}
use husky_kylin.Collections.Dict.{
  lookup, put, erase, at_or, at_or-put_self, at_or-put_other, at_or-erase_self, at_or-erase_other,
}
use husky_kylin.Master.Parquet.{
  PathKind, missing, regular, directory, special, LocalFiles, ParquetBlockAssigner, finish_url,
  add_file, count_finished, browse_directory, browse_local, next_group, search_directory, reply,
  browse_once, search_url, answer,
}

-- No path but this one has a row group.
record IsSizeless (url : Text) (s : ParquetBlockAssigner) : Type 0 where
  sizes : (k : Text) → k ≢ url → at_or 0 k s.file_size ≡ 0

put-sizeless :
    (url k j : Text) (v : ℕ) (m : List (Text × ℕ))
    → ((i : Text) → i ≢ url → at_or 0 i m ≡ 0)
    → (k ≡ url) ⊎ (v ≡ 0)
    → j ≢ url
    → at_or 0 j (put k v m) ≡ 0
put-sizeless url k j v m h g ne = elim (text_same_or_ne j k) [
  | inr other ↦ at_or-put_other 0 j k v m other ∙ h j ne
  | inl same ↦ elim g [
    | inl is_url ↦ absurd (ne (same ∙ is_url))
    | inr zeroed ↦
        subst (λ x. at_or 0 x (put k v m) ≡ 0) (sym same) (at_or-put_self 0 k v m ∙ zeroed)
  ]
]

erase-sizeless : (k j : Text) (m : List (Text × ℕ)) → at_or 0 j m ≡ 0 → at_or 0 j (erase k m) ≡ 0
erase-sizeless k j m h = elim (text_same_or_ne j k) [
  | inr ne ↦ at_or-erase_other 0 j k m ne ∙ h
  | inl same ↦ subst (λ x. at_or 0 x (erase k m) ≡ 0) (sym same) (at_or-erase_self 0 k m)
]

add_file-IsSizeless :
    (url path : Text) (groups : ℕ) (s : ParquetBlockAssigner)
    → IsSizeless url s
    → IsSizeless url (add_file url path groups s)
unfolding add_file
add_file-IsSizeless url path groups s i = record {
  sizes = λ k. put-sizeless url url k groups s.file_size i.sizes (inl refl);
}

count_finished-IsSizeless :
    (url path : Text) (s : ParquetBlockAssigner)
    → IsSizeless url s
    → IsSizeless url (count_finished path s)
unfolding count_finished finish_url
count_finished-IsSizeless url path s i =
    elim (Bool-cases ((at_or 0 path s.finish_dict + 1) == s.num_workers_alive)) [
      | inl e ↦
          rw (count_finished, e)
            (record { sizes = λ k ne. erase-sizeless path k s.file_size (i.sizes k ne) })
      | inr ne ↦ rw (count_finished, ne) (record { sizes = i.sizes })
    ]

browse_directory-IsSizeless :
    (files : LocalFiles) (url : Text) (paths : List Text) (s : ParquetBlockAssigner)
    → IsSizeless url s
    → IsSizeless url (browse_directory files url paths s)
unfolding browse_directory
browse_directory-IsSizeless files url [] s i = i
browse_directory-IsSizeless files url (path ∷ paths) s i =
    step (files.kind path) (files.num_row_groups url)
      (browse_directory-IsSizeless files url paths s i)
      (λ groups.
        browse_directory-IsSizeless files url paths (add_file url path groups s)
          (add_file-IsSizeless url path groups s i))
  where
    step :
        (kind : PathKind) (groups : Option ℕ)
        → IsSizeless url (browse_directory files url paths s)
        → ((n : ℕ) → IsSizeless url (browse_directory files url paths (add_file url path n s)))
        → IsSizeless url (elim kind as (λ x. ParquetBlockAssigner) [
          | regular ↦ elim groups as (λ x. ParquetBlockAssigner) [
            | none ↦ s
            | some n ↦ browse_directory files url paths (add_file url path n s)
          ]
          | missing ↦ browse_directory files url paths s
          | directory ↦ browse_directory files url paths s
          | special ↦ browse_directory files url paths s
        ])
    step missing g a b = a
    step directory g a b = a
    step special g a b = a
    step regular none a b = i
    step regular (some n) a b = b n

-- A path without a row group has no next one.
next_group-IsSizeless :
    (url path : Text) (s : ParquetBlockAssigner)
    → path ≢ url
    → IsSizeless url s
    → ((next_group path s).0 ≡ none) × IsSizeless url (next_group path s).1
unfolding next_group
next_group-IsSizeless url path s ne i =
    let size = i.sizes path ne in
    let over : ltb (at_or 0 path s.file_offset) (at_or 0 path s.file_size) ≡ false =
      ground (arith, size) in
    rw (next_group, over)
      (
        refl,
        record {
          sizes = λ k.
              put-sizeless url path k (at_or 0 path s.file_size) s.file_size i.sizes (inr size);
        },
      )

search_directory-IsSizeless :
    (url : Text) (paths : List Text) (s : ParquetBlockAssigner)
    → All (λ p. p ≢ url) paths
    → IsSizeless url s
    → ((search_directory paths s).0 ≡ none) × IsSizeless url (search_directory paths s).1
unfolding search_directory
search_directory-IsSizeless url [] s ne i = (refl, i)
search_directory-IsSizeless url (path ∷ paths) s (ne, nes) i =
    elim (Option-cases (lookup path s.finish_dict)) [
      | inl e ↦ rw (search_directory, e) (search_directory-IsSizeless url paths s nes i)
      | inr (n, e) ↦
          let (over, j) = next_group-IsSizeless url path s ne i in
          rw (search_directory, e, over)
            (search_directory-IsSizeless url paths (count_finished path (next_group path s).1) nes
              (count_finished-IsSizeless url path (next_group path s).1 j))
    ]

module _ (files : LocalFiles) where
  -- The replies to `n` requests for one url.
  unfoldable pub replies_local : ℕ → Text → ParquetBlockAssigner → List (Text × ℕ)
  replies_local zero url s = []
  replies_local (suc n) url s = let (block, t) = answer files url s in block ∷ replies_local n url t

  directory-answer :
      (url : Text) (s : ParquetBlockAssigner)
      → files.kind url ≡ directory
      → answer files url s
        ≡ reply url (search_directory (files.entries url) (browse_once files url s))
  unfolding answer search_url
  directory-answer url s d = ground (arith, d)

  browse_once-IsSizeless :
      (url : Text) (s : ParquetBlockAssigner)
      → files.kind url ≡ directory
      → IsSizeless url s
      → IsSizeless url (browse_once files url s)
  unfolding browse_once browse_local
  browse_once-IsSizeless url s d i = elim (Option-cases (lookup url s.finish_dict)) [
    | inr (n, e) ↦ rw (browse_once, e) i
    | inl e ↦
        rw (browse_once, e, browse_local, d)
          (browse_directory-IsSizeless files url (files.entries url)
            (record s { finish_dict = put url 0 s.finish_dict }) (record { sizes = i.sizes }))
  ]

  answer-IsSizeless :
      (url : Text) (s : ParquetBlockAssigner)
      → files.kind url ≡ directory
      → All (λ p. p ≢ url) (files.entries url)
      → IsSizeless url s
      → ((answer files url s).0 ≡ ([], 0)) × IsSizeless url (answer files url s).1
  unfolding reply
  answer-IsSizeless url s d ne i =
      let b = browse_once files url s in
      let found = search_directory (files.entries url) b in
      let (over, j) =
        search_directory-IsSizeless url (files.entries url) b ne
          (browse_once-IsSizeless url s d i) in
      subst (λ r. (r.0 ≡ ([], 0)) × IsSizeless url r.1)
        (sym (directory-answer url s d ∙ ap (λ o. reply url (o, found.1)) over))
        (refl, count_finished-IsSizeless url url found.1 j)

  abbrev pub nothing : ℕ → List (Text × ℕ)
  nothing zero = []
  nothing (suc n) = ([], 0) ∷ nothing n

  sizeless-replies :
      (n : ℕ) (url : Text) (s : ParquetBlockAssigner)
      → files.kind url ≡ directory
      → All (λ p. p ≢ url) (files.entries url)
      → IsSizeless url s
      → replies_local n url s ≡ nothing n
  unfolding replies_local
  sizeless-replies zero url s d ne i = refl
  sizeless-replies (suc n) url s d ne i =
      let (block, j) = answer-IsSizeless url s d ne i in
      ap₂ ◌∷◌ block (sizeless-replies n url (answer files url s).1 d ne j)

  -- A directory that is not among its own entries, asked of an assigner that knows no file yet: every
  -- reply is the empty name, whatever files the directory has, because the numbers of their row
  -- groups are stored under the name of the directory.
  pub replies_local-directory :
      (n : ℕ) (url : Text) (s : ParquetBlockAssigner)
      → files.kind url ≡ directory
      → All (λ p. p ≢ url) (files.entries url)
      → s.file_size ≡ []
      → replies_local n url s ≡ nothing n
  unfolding at_or lookup
  replies_local-directory n url s d ne empty =
      sizeless-replies n url s d ne (record { sizes = λ k h. rw empty refl })
