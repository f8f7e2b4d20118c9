-- ===== src/Master/Parquet/Remote/Groups.antt =====
-- The row groups of a directory on HDFS, and what the Parquet assigner replies.
use husky_kylin.Prelude.{
  ℕ, ◌-◌, ◌≤◌, ◌≡◌, ◌≢◌, arith, refl, ap, ap₂, sym, subst, ◌∙◌, Bool-cases, Option-cases, Option,
  inl, inr, List, [], ◌∷◌, ◌++◌, Text, length, take,
}
use husky_kylin.Collections.All.{All}
use husky_kylin.Collections.Dict.{lookup, at_or}
use husky_kylin.Master.Hdfs.{FileInfo, Hdfs}
use husky_kylin.Master.Listing.{readable, files_listed, IsMapOf, sizes_of, sizes_of-IsMapOf}
use husky_kylin.Master.Parquet.{ParquetBlockAssigner, add_file}
use husky_kylin.Master.Parquet.Remote.{browse_entries}
use husky_kylin.Master.Parquet.Remote.Queue.{groups_left, groups_from}
use husky_kylin.Master.Parquet.Remote.Serve.{replies_hdfs}
use husky_kylin.Master.Parquet.Remote.Browse.{HasWords, IsSetUp, replies_hdfs-left}

-- All the row groups of files of these sizes.
abbrev pub all_groups : List (Text × ℕ) → List (Text × ℕ)
all_groups [] = []
all_groups ((path, size) ∷ sizes) = groups_from path 0 size ++ all_groups sizes

groups_left-all : (sizes : List (Text × ℕ)) → groups_left sizes [] ≡ all_groups sizes
unfolding groups_left lookup at_or
groups_left-all [] = refl
groups_left-all ((path, size) ∷ sizes) =
    let all : size - 0 ≡ size = omega (arith) in
    ap₂ ◌++◌ (ap (groups_from path 0) all) (groups_left-all sizes)

module _ (hdfs : Hdfs) (num_row_groups : Text → Option ℕ) where
  browse_entries-listed :
      (infos : List FileInfo) (s : ParquetBlockAssigner)
      → (browse_entries hdfs num_row_groups infos s).file_size
        ≡ sizes_of (files_listed num_row_groups infos) s.file_size
  unfolding browse_entries add_file
  browse_entries-listed [] s = refl
  browse_entries-listed (info ∷ infos) s = elim (Bool-cases info.is_file) [
    | inr dir ↦ rw (browse_entries, dir) (browse_entries-listed infos s)
    | inl file ↦ elim (Option-cases (num_row_groups info.name)) [
      | inl e ↦ rw (browse_entries, file, readable, e) refl
      | inr (groups, e) ↦
          rw (browse_entries, file, readable, e)
            (browse_entries-listed infos (add_file info.name info.name groups s))
    ]
  ]

  -- The sizes of the files of a url: the entries of its listing that are files, up to one that
  -- cannot be read.
  abbrev pub sizes_at : Text → List (Text × ℕ)
  sizes_at url = sizes_of (files_listed num_row_groups (hdfs.list_directory url)) []

  -- An assigner that is set up, a directory on HDFS that is the name of none of its entries, row
  -- group counts that are words, and no more requests for it than its files have row groups. The
  -- sizes have the entries of the listing that are files, up to the first that cannot be read, once
  -- each and in the order of their names; the replies are all the row groups of these, file by file
  -- and, in a file, from 0 on.
  pub replies_hdfs-groups :
      HasWords num_row_groups
      → (n : ℕ) (url : Text) (s : ParquetBlockAssigner) → IsSetUp s
      → All (λ info. url ≢ info.name) (hdfs.list_directory url)
      → n ≤ length (all_groups (sizes_at url))
      → IsMapOf (files_listed num_row_groups (hdfs.list_directory url)) (sizes_at url)
        × (replies_hdfs hdfs num_row_groups n url s ≡ take n (all_groups (sizes_at url)))
  replies_hdfs-groups words n url s set_up ne enough =
      let listed =
        browse_entries-listed (hdfs.list_directory url) s
        ∙ ap (sizes_of (files_listed num_row_groups (hdfs.list_directory url))) set_up.no_sizes in
      let left = ap (λ sizes. groups_left sizes []) listed ∙ groups_left-all (sizes_at url) in
      (
        sizes_of-IsMapOf num_row_groups (hdfs.list_directory url),
        replies_hdfs-left hdfs num_row_groups words n url s set_up ne
              (subst (λ queue. n ≤ length queue) (sym left) enough)
            ∙ ap (take n) left,
      )
