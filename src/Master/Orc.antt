-- ===== src/Master/Orc.antt =====
-- src/husky-plugins/master/orc_assigner: the files of a url are handed out in blocks of rows.
pub mod Schedule
pub mod Serve
pub mod Replies
pub mod Found
pub mod Rows
use husky_kylin.Prelude.{
  ℕ, zero, suc, ◌+◌, ◌*◌, ◌^◌, ltb, ◌==◌, if◌then◌else◌, Bool, true, false, Option, none, some,
  List, [], ◌∷◌, ◌++◌, Text,
}
use husky_kylin.Word.{u64}
use husky_kylin.Collections.Dict.{lookup, put, erase, at_or}
use husky_kylin.Master.Hdfs.{FileInfo, Hdfs}

pub record OrcFileDesc : Type 0 where
  pub filename : Text
  pub num_of_rows : ℕ
  pub offset : ℕ

-- `connected` is whether `fs_` is set.
pub record OrcBlockAssigner : Type 0 where
  pub connected : Bool
  pub num_workers_alive : ℕ
  pub files_dict : List (Text × List OrcFileDesc)
  pub finish_dict : List (Text × ℕ)

abbrev pub orc_row_batch_size : ℕ
orc_row_batch_size = 5000

-- `back()`, and what a vector is after its last element is replaced or popped.
unfoldable pub back : List OrcFileDesc → Option OrcFileDesc
back [] = none
back (f ∷ []) = some f
back (f ∷ g ∷ fs) = back (g ∷ fs)

unfoldable pub set_back : List OrcFileDesc → OrcFileDesc → List OrcFileDesc
set_back [] h = []
set_back (f ∷ []) h = h ∷ []
set_back (f ∷ g ∷ fs) h = f ∷ set_back (g ∷ fs) h

unfoldable pub pop_back : List OrcFileDesc → List OrcFileDesc
pop_back [] = []
pop_back (f ∷ []) = []
pop_back (f ∷ g ∷ fs) = f ∷ pop_back (g ∷ fs)

-- `number_of_rows` is what the ORC reader says of a file; opening it can throw, at which the loop
-- is left with the files so far.
unfoldable pub browse_files :
    (Text → Option ℕ) → List FileInfo → List OrcFileDesc → List OrcFileDesc
browse_files number_of_rows [] files = files
browse_files number_of_rows (info ∷ infos) files =
    if info.is_file
    then (elim (number_of_rows info.name) as (λ x. List OrcFileDesc) [
      | none ↦ files
      | some rows ↦
          browse_files number_of_rows infos (
            files ++ record { filename = info.name ++ 0 ∷ []; num_of_rows = rows; offset = 0 } ∷ [])
    ])
    else browse_files number_of_rows infos files

module _ (hdfs : Hdfs) (number_of_rows : Text → Option ℕ) where
  unfoldable pub connect_loop : ℕ → Bool
  connect_loop zero = false
  connect_loop (suc num_retries) = elim (hdfs.connects num_retries) [
    | true ↦ true
    | false ↦ connect_loop num_retries
  ]

  unfoldable pub init_hdfs : OrcBlockAssigner → OrcBlockAssigner
  init_hdfs s = record s { connected = connect_loop 3 }

  unfoldable pub master_setup_handler : ℕ → OrcBlockAssigner → OrcBlockAssigner
  master_setup_handler num_workers s = record (init_hdfs s) { num_workers_alive = num_workers }

  -- `files_dict_[url]` makes an empty vector where there is none, also if nothing is listed.
  unfoldable pub browse_hdfs : Text → OrcBlockAssigner → OrcBlockAssigner
  browse_hdfs url s =
      if s.connected
      then record s {
        files_dict =
            put url
              (browse_files number_of_rows (hdfs.list_directory url) (at_or [] url s.files_dict))
              s.files_dict;
      }
      else s

  -- The first request for a url looks for its files.
  unfoldable pub browse_once : Text → OrcBlockAssigner → OrcBlockAssigner
  browse_once url s = elim (lookup url s.finish_dict) [
    | some n ↦ s
    | none ↦ let t = browse_hdfs url s in record t { finish_dict = put url 0 t.finish_dict }
  ]

-- No file is left: one more worker is done, and the last one takes the entry away.
unfoldable pub finish_worker : Text → OrcBlockAssigner → OrcBlockAssigner
finish_worker url s =
    let n = at_or 0 url s.finish_dict + 1 in
    record s {
      finish_dict = put url n s.finish_dict;
      files_dict =
          if n == s.num_workers_alive
          then erase url (put url [] s.files_dict)
          else put url [] s.files_dict;
    }

-- The next block of the last file, which is popped when its offset has passed its rows.
unfoldable pub advance : List OrcFileDesc → OrcFileDesc → List OrcFileDesc
advance files file =
    let offset = u64 (file.offset + orc_row_batch_size) in
    if ltb file.num_of_rows offset
    then pop_back files
    else set_back files (record file { offset = offset })

unfoldable pub hand_out : Text → OrcBlockAssigner → List OrcFileDesc → (Text × ℕ) × OrcBlockAssigner
hand_out url s files = elim (back files) [
  | none ↦ (([], 0), finish_worker url s)
  | some file ↦ (
    (file.filename, file.offset),
    record s { files_dict = put url (advance files file) s.files_dict },
  )
]

module _ (hdfs : Hdfs) (number_of_rows : Text → Option ℕ) where
  unfoldable pub answer : Text → OrcBlockAssigner → (Text × ℕ) × OrcBlockAssigner
  answer url s =
      if s.connected
      then (let t = browse_once hdfs number_of_rows url s in
          hand_out url t (at_or [] url t.files_dict))
      else (([], 0), s)
