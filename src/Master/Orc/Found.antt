-- ===== src/Master/Orc/Found.antt =====
-- The files of a url that the ORC assigner is asked for, and what it replies.
use mathlib.Core.List.{append-nil, append_assoc}
use husky_kylin.Prelude.{
  sym, ℕ, ◌≡◌, ap, ◌∙◌, Bool-cases, Option-cases, Option, inl, inr, List, [], ◌∷◌, ◌++◌, Text, map,
}
use husky_kylin.Master.Hdfs.{FileInfo, Hdfs}
use husky_kylin.Master.Listing.{readable, files_listed}
use husky_kylin.Master.Orc.{OrcFileDesc, OrcBlockAssigner, browse_files}
use husky_kylin.Master.Orc.Schedule.{schedule}
use husky_kylin.Master.Orc.Replies.{
  queue_replies, requests_for, replies_to, HasShortFiles, IsFresh, replies_to-found,
}

-- A file that nothing was handed out of, by its name and its rows.
abbrev pub new_file : Text × ℕ → OrcFileDesc
new_file (name, rows) = record { filename = name ++ 0 ∷ []; num_of_rows = rows; offset = 0 }

browse_files-listed :
    (number_of_rows : Text → Option ℕ) (infos : List FileInfo) (files : List OrcFileDesc)
    → browse_files number_of_rows infos files
      ≡ files ++ map new_file (files_listed number_of_rows infos)
unfolding browse_files
browse_files-listed number_of_rows [] files = sym (append-nil files)
browse_files-listed number_of_rows (info ∷ infos) files = elim (Bool-cases info.is_file) [
  | inr dir ↦ rw dir (browse_files-listed number_of_rows infos files)
  | inl file ↦ elim (Option-cases (number_of_rows info.name)) [
    | inl e ↦ rw (file, readable, e) (sym (append-nil files))
    | inr (rows, e) ↦
        rw (file, readable, e)
          (browse_files-listed number_of_rows infos (files ++ new_file (info.name, rows) ∷ [])
            ∙ append_assoc files (new_file (info.name, rows) ∷ [])
                (map new_file (files_listed number_of_rows infos)))
  ]
]

module _ (hdfs : Hdfs) (number_of_rows : Text → Option ℕ) where
  -- The files of a url: the entries of its listing that are files, up to one that cannot be read.
  abbrev pub files_of : Text → List OrcFileDesc
  files_of url = map new_file (files_listed number_of_rows (hdfs.list_directory url))

  -- For a url that was not asked for before, and files whose rows stay 5000 below 2 ^ 64: whatever
  -- requests for other urls come between, the replies for this url are the blocks of the files
  -- that its listing has, in the order of the queue, and an empty name when the queue is empty. The
  -- listing is looked at once: the name stays empty, also after every worker was given it.
  pub replies_to-schedule :
      HasShortFiles number_of_rows
      → (url : Text) (requests : List Text) (s : OrcBlockAssigner) → IsFresh url s
      → replies_to hdfs number_of_rows url requests s
        ≡ queue_replies (requests_for url requests) (schedule (files_of url))
  replies_to-schedule short url requests s fresh =
      replies_to-found hdfs number_of_rows short url requests s fresh
      ∙ ap (λ files. queue_replies (requests_for url requests) (schedule files))
          (browse_files-listed number_of_rows (hdfs.list_directory url) [])
