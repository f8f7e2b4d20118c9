-- ===== src/Master/Parquet.antt =====
-- src/husky-plugins/master/parquet_assigner: the row groups of files are handed out one by one.
pub mod Remote
pub mod Local
pub mod Single
use husky_kylin.Prelude.{
  ℕ, zero, suc, ◌+◌, ◌^◌, ltb, ◌==◌, ◌&&◌, if◌then◌else◌, Bool, true, false, Option, none, some,
  List, [], ◌∷◌, ◌++◌, Text, codes, text_eq,
}
use husky_kylin.Word.{u64}
use husky_kylin.Collections.Dict.{lookup, put, erase, at_or}
use husky_kylin.Master.Hdfs.{FileInfo, Hdfs}

pub data PathKind : Type 0 where
  missing : PathKind
  regular : PathKind
  directory : PathKind
  special : PathKind

-- What boost::filesystem says of a path, and how many row groups the Parquet reader finds in a
-- file, where opening it can throw.
pub record LocalFiles : Type 0 where
  pub kind : Text → PathKind
  pub entries : Text → List Text
  pub num_row_groups : Text → Option ℕ

pub record ParquetBlockAssigner : Type 0 where
  pub num_workers_alive : ℕ
  pub file_offset : List (Text × ℕ)
  pub file_size : List (Text × ℕ)
  pub finish_dict : List (Text × ℕ)
  pub protocol : Text
  pub connected : Bool

-- `m[k]`, which makes an entry of 0 where there is none.
abbrev pub touch : Text → List (Text × ℕ) → List (Text × ℕ)
touch k m = put k (at_or 0 k m) m

unfoldable pub master_setup_handler : ℕ → ParquetBlockAssigner → ParquetBlockAssigner
master_setup_handler num_workers s = record s { num_workers_alive = num_workers }

unfoldable pub finish_url : Text → ParquetBlockAssigner → ParquetBlockAssigner
finish_url url s = record s {
  file_size = erase url s.file_size;
  file_offset = erase url s.file_offset;
  finish_dict = erase url s.finish_dict;
}

-- `at` throws on a missing key.
unfoldable pub get_num_finished : Text → ParquetBlockAssigner → Option ℕ
get_num_finished url s = lookup url s.finish_dict

-- A file of this many row groups is known, and nothing of it is handed out.
unfoldable pub add_file : Text → Text → ℕ → ParquetBlockAssigner → ParquetBlockAssigner
add_file sized path groups s = record s {
  file_size = put sized groups s.file_size;
  file_offset = put path 0 s.file_offset;
  finish_dict = put path 0 s.finish_dict;
}

-- One more worker is done with the path, and the last one has it forgotten.
unfoldable pub count_finished : Text → ParquetBlockAssigner → ParquetBlockAssigner
count_finished path s =
    let n = at_or 0 path s.finish_dict + 1 in
    let t = record s { finish_dict = put path n s.finish_dict } in
    if n == s.num_workers_alive then finish_url path t else t

module _ (files : LocalFiles) where
  -- The loop over a directory opens `url` and sets the size of `url`, not of the path. A throw
  -- leaves it.
  unfoldable pub browse_directory : Text → List Text → ParquetBlockAssigner → ParquetBlockAssigner
  browse_directory url [] s = s
  browse_directory url (path ∷ paths) s = elim (files.kind path) as (λ x. ParquetBlockAssigner) [
    | regular ↦ elim (files.num_row_groups url) as (λ x. ParquetBlockAssigner) [
      | none ↦ s
      | some groups ↦ browse_directory url paths (add_file url path groups s)
    ]
    | missing ↦ browse_directory url paths s
    | directory ↦ browse_directory url paths s
    | special ↦ browse_directory url paths s
  ]

  unfoldable pub browse_local : Text → ParquetBlockAssigner → ParquetBlockAssigner
  browse_local url s = elim (files.kind url) [
    | missing ↦ s
    | special ↦ s
    | regular ↦ elim (files.num_row_groups url) as (λ x. ParquetBlockAssigner) [
      | none ↦ s
      | some groups ↦ add_file url url groups s
    ]
    | directory ↦
        browse_directory url (files.entries url)
          (record s { finish_dict = put url 0 s.finish_dict })
  ]

-- The reads of `file_offset_[path] < file_size_[path]` and, if it holds, the next row group.
unfoldable pub next_group : Text → ParquetBlockAssigner → Option (Text × ℕ) × ParquetBlockAssigner
next_group path s =
    let offset = at_or 0 path s.file_offset in
    let sizes = touch path s.file_size in
    if ltb offset (at_or 0 path s.file_size)
    then (
      some (path, offset),
      record s { file_size = sizes; file_offset = put path (u64 (offset + 1)) s.file_offset },
    )
    else (none, record s { file_size = sizes; file_offset = put path offset s.file_offset })

-- The loop over the entries of a directory, up to the first file with a row group left.
unfoldable pub search_directory :
    List Text → ParquetBlockAssigner → Option (Text × ℕ) × ParquetBlockAssigner
search_directory [] s = (none, s)
search_directory (path ∷ paths) s = elim (lookup path s.finish_dict) [
  | none ↦ search_directory paths s
  | some n ↦
      let (found, t) = next_group path s in
      elim found as (λ x. Option (Text × ℕ) × ParquetBlockAssigner) [
        | some block ↦ (some block, t)
        | none ↦ search_directory paths (count_finished path t)
      ]
]

-- The reply is the group that was found. Nothing found, and also an empty name with offset 0, counts
-- as one more worker that is done.
unfoldable pub reply :
    Text → Option (Text × ℕ) × ParquetBlockAssigner → (Text × ℕ) × ParquetBlockAssigner
reply url (none, s) = (([], 0), count_finished url s)
reply url (some (path, offset), s) =
    if text_eq path [] && offset == 0
    then ((path, offset), count_finished url s)
    else ((path, offset), s)

module _ (files : LocalFiles) where
  unfoldable pub browse_once : Text → ParquetBlockAssigner → ParquetBlockAssigner
  browse_once url s = elim (lookup url s.finish_dict) [
    | some n ↦ s
    | none ↦ browse_local files url s
  ]

  unfoldable pub search_url : Text → ParquetBlockAssigner → Option (Text × ℕ) × ParquetBlockAssigner
  search_url url s = elim (files.kind url) [
    | regular ↦ next_group url s
    | directory ↦ search_directory (files.entries url) s
    | missing ↦ (none, s)
    | special ↦ (none, s)
  ]

  unfoldable pub answer : Text → ParquetBlockAssigner → (Text × ℕ) × ParquetBlockAssigner
  answer url s = reply url (search_url url (browse_once url s))
