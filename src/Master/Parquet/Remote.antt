-- ===== src/Master/Parquet/Remote.antt =====
-- src/husky-plugins/master/parquet_assigner: files on HDFS, and the handler of a request.
pub mod Queue
pub mod Scan
pub mod Forget
pub mod Serve
pub mod Browse
pub mod Groups
use husky_kylin.Prelude.{
  ℕ, zero, suc, ◌+◌, ◌^◌, ltb, ◌==◌, ◌||◌, if◌then◌else◌, Bool, true, false, Option, none, some,
  List, [], ◌∷◌, Text, codes, text_eq,
}
use husky_kylin.Word.{u64}
use husky_kylin.Collections.Dict.{lookup, put, at_or}
use husky_kylin.Master.Hdfs.{FileInfo, Hdfs}
use husky_kylin.Master.Parquet.{
  LocalFiles, ParquetBlockAssigner, touch, finish_url, count_finished, add_file, answer,
}

-- The first loop: the paths that every worker is done with. It reads `finish_dict_[path]`.
unfoldable pub finished_paths :
    List (Text × ℕ) → ParquetBlockAssigner → List Text × ParquetBlockAssigner
finished_paths [] s = ([], s)
finished_paths ((path, size) ∷ sizes) s =
    let n = at_or 0 path s.finish_dict in
    let (paths, t) = finished_paths sizes (record s { finish_dict = touch path s.finish_dict }) in
    if n == s.num_workers_alive then (path ∷ paths, t) else (paths, t)

unfoldable pub finish_urls : List Text → ParquetBlockAssigner → ParquetBlockAssigner
finish_urls [] s = s
finish_urls (path ∷ paths) s = finish_urls paths (finish_url path s)

-- The last loop, over what is left of `file_size_` from this entry on: the first file with a row
-- group left, whatever url it was found under. A file without one is counted as finished once more.
unfoldable pub scan_files :
    List (Text × ℕ) → ParquetBlockAssigner → Option (Text × ℕ) × ParquetBlockAssigner
scan_files [] s = (none, s)
scan_files ((path, size) ∷ sizes) s =
    let offset = at_or 0 path s.file_offset in
    let t = record s { file_offset = touch path s.file_offset } in
    let more =
      scan_files sizes
        (record t { finish_dict = put path (at_or 0 path t.finish_dict + 1) t.finish_dict }) in
    if ltb offset size
    then (some (path, offset), record t { file_offset = put path (u64 (offset + 1)) t.file_offset })
    else more

unfoldable pub drop_finished : ParquetBlockAssigner → ParquetBlockAssigner
drop_finished s = let (paths, t) = finished_paths s.file_size s in finish_urls paths t

module _ (hdfs : Hdfs) (num_row_groups : Text → Option ℕ) where
  unfoldable pub retry_loop : ℕ → Bool
  retry_loop zero = false
  retry_loop (suc num_retries) = elim (hdfs.connects num_retries) [
    | true ↦ true
    | false ↦ retry_loop num_retries
  ]

  unfoldable pub init_hdfs : ParquetBlockAssigner → ParquetBlockAssigner
  init_hdfs s = record s { connected = retry_loop 3 }

  -- The entries of a directory that are files; a throw of the reader leaves the loop.
  unfoldable pub browse_entries : List FileInfo → ParquetBlockAssigner → ParquetBlockAssigner
  browse_entries [] s = s
  browse_entries (info ∷ infos) s = elim info.is_file as (λ x. ParquetBlockAssigner) [
    | false ↦ browse_entries infos s
    | true ↦ elim (num_row_groups info.name) as (λ x. ParquetBlockAssigner) [
      | none ↦ s
      | some groups ↦ browse_entries infos (add_file info.name info.name groups s)
    ]
  ]

  unfoldable pub browse_hdfs : Text → ParquetBlockAssigner → ParquetBlockAssigner
  browse_hdfs url s = if s.connected then browse_entries (hdfs.list_directory url) s else s

  unfoldable pub browse_unasked : Text → ParquetBlockAssigner → ParquetBlockAssigner
  browse_unasked url s = elim (lookup url s.finish_dict) [
    | some n ↦ s
    | none ↦ let t = browse_hdfs url s in record t { finish_dict = touch url t.finish_dict }
  ]

-- The reply, or one more worker that is done with the url.
unfoldable pub reply_hdfs :
    Text → Option (Text × ℕ) × ParquetBlockAssigner → (Text × ℕ) × ParquetBlockAssigner
reply_hdfs url (none, s) = (([], 0), count_finished url s)
reply_hdfs url (some block, s) = (block, s)

-- A request for a url that is known: the paths that are finished go, then the files are searched.
unfoldable pub hand_out_hdfs : Text → ParquetBlockAssigner → (Text × ℕ) × ParquetBlockAssigner
hand_out_hdfs url s = let t = drop_finished s in reply_hdfs url (scan_files t.file_size t)

module _ (hdfs : Hdfs) (num_row_groups : Text → Option ℕ) where
  unfoldable pub answer_hdfs : Text → ParquetBlockAssigner → (Text × ℕ) × ParquetBlockAssigner
  answer_hdfs url s =
      if s.connected
      then hand_out_hdfs url (browse_unasked hdfs num_row_groups url s)
      else (([], 0), s)

  -- The request names the protocol; one that is neither local nor HDFS gets an empty reply.
  unfoldable pub master_main_handler :
      LocalFiles → Text → Text → ParquetBlockAssigner → (Text × ℕ) × ParquetBlockAssigner
  master_main_handler files url protocol s =
      let t = record s { protocol = protocol } in
      if text_eq protocol (codes "nfs") || text_eq protocol (codes "file")
      then answer files url t
      else (if text_eq protocol (codes "hdfs")
          then answer_hdfs url (if t.connected then t else init_hdfs hdfs num_row_groups t)
          else (([], 0), t))
