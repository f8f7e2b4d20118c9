-- ===== src/Examples/Master.antt =====
-- Files on HDFS and a local one, asked for by workers.
use husky_kylin.Prelude.{
  ℕ, ◌≡◌, arith, refl, true, false, Option, some, List, [], ◌∷◌, ◌++◌, Text, codes, take, length,
  text_eq, text_lt,
}
use husky_kylin.Collections.Dict.{lookup, put, at_or}
use husky_kylin.Master.Hdfs.{FileInfo, Hdfs}
use husky_kylin.Master.Orc.{OrcBlockAssigner}
use husky_kylin.Master.Orc.Schedule.{schedule}
use husky_kylin.Master.Orc.Replies.{queue_replies, requests_for, replies_to, HasShortFiles, IsFresh}
use husky_kylin.Prelude.{inl, inr}
use husky_kylin.Master.Listing.{IsMapOf, files_listed}
use husky_kylin.Master.Orc.Found.{files_of, replies_to-schedule}
use husky_kylin.Master.Parquet.Remote.Groups.{all_groups, sizes_at, replies_hdfs-groups}
use husky_kylin.Master.Orc.Rows.{holding, replies_to-holding}
use husky_kylin.Master.Parquet.{regular, directory, PathKind, LocalFiles, ParquetBlockAssigner}
use husky_kylin.Master.Parquet.Local.{nothing, replies_local, replies_local-directory}
use husky_kylin.Master.Parquet.Single.{replies_local-groups}
use husky_kylin.Master.Parquet.Remote.{answer_hdfs}
use husky_kylin.Master.Parquet.Remote.Queue.{groups_from, IsConsistent}
use husky_kylin.Master.Parquet.Remote.Forget.{IsAsked}
use husky_kylin.Master.Parquet.Remote.Serve.{IsAnswered, replies_hdfs, answer_hdfs-IsAnswered}
use husky_kylin.Master.Parquet.Remote.Browse.{HasWords, IsSetUp}

abbrev file_a : FileInfo
file_a = record { is_file = true; name = codes "t/a" }

abbrev folder : FileInfo
folder = record { is_file = false; name = codes "t/d" }

abbrev file_b : FileInfo
file_b = record { is_file = true; name = codes "t/b" }

abbrev listing : List FileInfo
listing = file_a ∷ folder ∷ file_b ∷ []

abbrev hdfs : Hdfs
hdfs = record { connects = λ n. true; list_directory = λ url. listing }

abbrev rows_of : Text → Option ℕ
rows_of name = some 6000

rows_of-HasShortFiles : HasShortFiles rows_of
rows_of-HasShortFiles name rows e = ground (arith, e)

abbrev orc : OrcBlockAssigner
orc = record { connected = true; num_workers_alive = 2; files_dict = []; finish_dict = [] }

orc-IsFresh : IsFresh (codes "t") orc
unfolding lookup at_or
orc-IsFresh = record { connected = refl; unasked = refl; empty = refl }

abbrev requests : List Text
requests = codes "t" ∷ codes "u" ∷ codes "t" ∷ codes "t" ∷ codes "t" ∷ codes "t" ∷ []

requests-count : requests_for (codes "t") requests ≡ 5
unfolding requests_for text_eq
requests-count = refl

replies_to-schedule_example :
    replies_to hdfs rows_of (codes "t") requests orc
    ≡ queue_replies
        (requests_for (codes "t") requests)
        (schedule (files_of hdfs rows_of (codes "t")))
replies_to-schedule_example =
    replies_to-schedule hdfs rows_of rows_of-HasShortFiles (codes "t") requests orc orc-IsFresh

replies_to-holding_example :
    holding (codes "t/b" ++ 0 ∷ []) 5500 (replies_to hdfs rows_of (codes "t") requests orc) ≡ 1
replies_to-holding_example =
    replies_to-holding hdfs rows_of rows_of-HasShortFiles (codes "t") requests orc
      (file_a ∷ folder ∷ []) [] file_b 6000 5500 orc-IsFresh refl refl refl
      (inr (6000, refl), (inl refl, tt)) ((λ e. ground (arith, e)), ((λ e. ground (arith, e)), tt))
      tt (rw requests-count (omega arith)) (omega arith)

abbrev groups_of : Text → Option ℕ
groups_of name = some 2

groups_of-HasWords : HasWords groups_of
groups_of-HasWords name groups e = ground (arith, e)

abbrev parquet : ParquetBlockAssigner
parquet = record {
  num_workers_alive = 2;
  file_offset = [];
  file_size = [];
  finish_dict = [];
  protocol = codes "hdfs";
  connected = true;
}

parquet-IsSetUp : IsSetUp parquet
parquet-IsSetUp = record {
  connected = refl;
  workers = omega arith;
  no_sizes = refl;
  no_offsets = refl;
  no_counts = refl;
}

groups-count : length (all_groups (sizes_at hdfs groups_of (codes "t"))) ≡ 4
unfolding put text_eq text_lt
groups-count = refl

replies_hdfs-groups_example :
    IsMapOf (files_listed groups_of listing) (sizes_at hdfs groups_of (codes "t"))
    × (replies_hdfs hdfs groups_of 3 (codes "t") parquet
        ≡ take 3 (all_groups (sizes_at hdfs groups_of (codes "t"))))
replies_hdfs-groups_example =
    replies_hdfs-groups hdfs groups_of groups_of-HasWords 3 (codes "t") parquet parquet-IsSetUp
      ((λ e. ground (arith, e)), ((λ e. ground (arith, e)), ((λ e. ground (arith, e)), tt)))
      (rw groups-count (omega arith))

-- One row group of a file is left, and the directory was asked for once.
abbrev busy : ParquetBlockAssigner
busy = record {
  num_workers_alive = 2;
  file_offset = (codes "t/a", 1) ∷ [];
  file_size = (codes "t/a", 2) ∷ [];
  finish_dict = (codes "t", 0) ∷ (codes "t/a", 0) ∷ [];
  protocol = codes "hdfs";
  connected = true;
}

busy-IsConsistent : IsConsistent busy
unfolding lookup at_or
busy-IsConsistent = record {
  workers = omega arith;
  sorted = (tt, tt);
  files = (record { fits = omega arith; counted = ground arith }, tt);
}

busy-IsAsked : IsAsked (codes "t") 0 busy
unfolding lookup text_eq
busy-IsAsked = record { asked = refl; outside = ((λ e. ground (arith, e)), tt) }

answer_hdfs-IsAnswered_example :
    IsAnswered (codes "t") 0 busy (answer_hdfs hdfs groups_of (codes "t") busy)
answer_hdfs-IsAnswered_example =
    answer_hdfs-IsAnswered hdfs groups_of (codes "t") 0 busy refl busy-IsConsistent busy-IsAsked

abbrev kind_of : Text → PathKind
kind_of (x ∷ []) = directory
kind_of _ = regular

abbrev local_directory : LocalFiles
local_directory = record {
  kind = kind_of;
  entries = λ path. codes "t/a" ∷ [];
  num_row_groups = λ path. some 2;
}

replies_local-directory_example :
    replies_local local_directory 3 (codes "t") parquet ≡ nothing local_directory 3
replies_local-directory_example =
    replies_local-directory local_directory 3 (codes "t") parquet refl
      ((λ e. ground (arith, e)), tt) refl

abbrev local_file : LocalFiles
local_file = record {
  kind = λ path. regular;
  entries = λ path. [];
  num_row_groups = λ path. some 2;
}

replies_local-groups_example :
    replies_local local_file 2 (codes "t") parquet ≡ groups_from (codes "t") 0 2
replies_local-groups_example =
    replies_local-groups local_file (codes "t") (λ e. ground (arith, e)) refl 2 2 parquet
      (unfold lookup in refl) refl (omega arith) (omega arith)
