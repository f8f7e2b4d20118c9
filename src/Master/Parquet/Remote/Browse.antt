-- ===== src/Master/Parquet/Remote/Browse.antt =====
-- The first request to the Parquet assigner for a directory on HDFS.
use husky_kylin.Prelude.{
  ℕ, zero, suc, ◌^◌, ◌≤◌, ◌<◌, ◌≡◌, ◌≢◌, ap, inl, inr, arith, refl, true, Option, none, some, List,
  [], ◌∷◌, Text, Bool-cases, Option-cases, subst, sym, ◌∙◌, length, take, text_same_or_ne,
}
use husky_kylin.Collections.All
use husky_kylin.Collections.All.{All}
use husky_kylin.Collections.Dict.{
  lookup, put, at_or, lookup-put_self, lookup-put_other, at_or-put_self, at_or-put_other,
  at_or-missing,
}
use husky_kylin.Collections.Sorted.{All-put, put-IsSorted}
use husky_kylin.Master.Hdfs.{FileInfo, Hdfs}
use husky_kylin.Master.Parquet.{ParquetBlockAssigner, touch, add_file}
use husky_kylin.Master.Parquet.Remote.{browse_entries, browse_hdfs, browse_unasked, answer_hdfs}
use husky_kylin.Master.Parquet.Remote.Queue.{groups_left, groups_left-same, IsCounted, IsConsistent}
use husky_kylin.Master.Parquet.Remote.Scan.{IsOutside, touch-at_or}
use husky_kylin.Master.Parquet.Remote.Forget.{IsAsked}
use husky_kylin.Master.Parquet.Remote.Serve.{
  queue_of, known-answer, replies_hdfs, replies_hdfs-take,
}

add_file-IsCounted :
    (path : Text) (groups : ℕ) (s : ParquetBlockAssigner) (e : Text × ℕ)
    → IsCounted s e
    → IsCounted (add_file path path groups s) e
unfolding add_file
add_file-IsCounted path groups s e h = elim (text_same_or_ne (e.0) path) [
  | inl same ↦ record {
    fits = h.fits;
    counted = inl (
        subst (λ x. at_or 0 x (put path 0 s.finish_dict) ≡ 0) (sym same)
          (at_or-put_self 0 path 0 s.finish_dict));
  }
  | inr ne ↦ record {
    fits = h.fits;
    counted =
        rw
          (
            at_or-put_other 0 (e.0) path 0 s.finish_dict ne,
            at_or-put_other 0 (e.0) path 0 s.file_offset ne,
          )
          h.counted;
  }
]

add_file-IsConsistent :
    (path : Text) (groups : ℕ) (s : ParquetBlockAssigner)
    → groups < 2 ^ 64
    → IsConsistent s
    → IsConsistent (add_file path path groups s)
unfolding add_file
add_file-IsConsistent path groups s fits c =
    let t = add_file path path groups s in
    record {
      workers = c.workers;
      sorted = put-IsSorted path groups s.file_size c.sorted;
      files =
          All-put (IsCounted t) path groups s.file_size
            (record { fits = fits; counted = inl (at_or-put_self 0 path 0 s.finish_dict) })
            (All.All-map _ _ s.file_size (λ e h. add_file-IsCounted path groups s e h) c.files);
    }

touched-IsConsistent :
    (url : Text) (s : ParquetBlockAssigner)
    → IsConsistent s
    → IsConsistent (record s { finish_dict = touch url s.finish_dict })
touched-IsConsistent url s c = record {
  workers = c.workers;
  sorted = c.sorted;
  files =
      All.All-map _ _ s.file_size
        (λ e h. record {
          fits = h.fits;
          counted = rw (touch-at_or (e.0) url s.finish_dict) h.counted;
        })
        c.files;
}

-- What looking for files does to a url that is none of them.
pub record IsBrowsed (url : Text) (s t : ParquetBlockAssigner) : Type 0 where
  consistent : IsConsistent t
  connected : t.connected ≡ s.connected
  counts : lookup url t.finish_dict ≡ lookup url s.finish_dict
  outside : IsOutside url t.file_size
  offsets : (k : Text) → at_or 0 k s.file_offset ≡ 0 → at_or 0 k t.file_offset ≡ 0

-- The reader counts the row groups of a file as a word.
abbrev pub HasWords : (Text → Option ℕ) → Type 0
HasWords num_row_groups =
    (name : Text) (groups : ℕ) → num_row_groups name ≡ some groups → groups < 2 ^ 64

module _ (hdfs : Hdfs) (num_row_groups : Text → Option ℕ) (words : HasWords num_row_groups)
    (url : Text) where
  browse_entries-IsBrowsed :
      (infos : List FileInfo) (s : ParquetBlockAssigner)
      → All (λ info. url ≢ info.name) infos
      → IsConsistent s
      → IsOutside url s.file_size
      → IsBrowsed url s (browse_entries hdfs num_row_groups infos s)
  unfolding browse_entries add_file
  browse_entries-IsBrowsed [] s ne c out = record {
    consistent = c;
    connected = refl;
    counts = refl;
    outside = out;
    offsets = λ k h. h;
  }
  browse_entries-IsBrowsed (info ∷ infos) s (ne, nes) c out = elim (Bool-cases info.is_file) [
    | inr dir ↦ rw (browse_entries, dir) (browse_entries-IsBrowsed infos s nes c out)
    | inl file ↦ elim (Option-cases (num_row_groups info.name)) [
      | inl e ↦
          rw (browse_entries, file, e)
            (record {
              consistent = c;
              connected = refl;
              counts = refl;
              outside = out;
              offsets = λ k h. h;
            })
      | inr (groups, e) ↦
          let t = add_file info.name info.name groups s in
          let more =
            browse_entries-IsBrowsed infos t nes
              (add_file-IsConsistent info.name groups s (words info.name groups e) c)
              (All-put (λ e. url ≢ e.0) info.name groups s.file_size ne out) in
          rw (browse_entries, file, e)
            (record {
              consistent = more.consistent;
              connected = more.connected;
              counts = more.counts ∙ lookup-put_other url info.name 0 s.finish_dict ne;
              outside = more.outside;
              offsets = λ k h. more.offsets k (added_offset k info.name s h);
            })
    ]
  ]
    where
      added_offset :
          (k path : Text) (s : ParquetBlockAssigner)
          → at_or 0 k s.file_offset ≡ 0
          → at_or 0 k (put path 0 s.file_offset) ≡ 0
      added_offset k path s h = elim (text_same_or_ne k path) [
        | inl same ↦
            subst (λ x. at_or 0 x (put path 0 s.file_offset) ≡ 0) (sym same)
              (at_or-put_self 0 path 0 s.file_offset)
        | inr ne ↦ at_or-put_other 0 k path 0 s.file_offset ne ∙ h
      ]

-- An assigner that is set up and was asked for nothing.
pub record IsSetUp (s : ParquetBlockAssigner) : Type 0 where
  pub connected : s.connected ≡ true
  pub workers : 0 < s.num_workers_alive
  pub no_sizes : s.file_size ≡ []
  pub no_offsets : s.file_offset ≡ []
  pub no_counts : s.finish_dict ≡ []

set_up-IsConsistent : (s : ParquetBlockAssigner) → IsSetUp s → IsConsistent s
set_up-IsConsistent s i = record {
  workers = i.workers;
  sorted = rw i.no_sizes tt;
  files = rw i.no_sizes tt;
}

module _ (hdfs : Hdfs) (num_row_groups : Text → Option ℕ) where
  browse_unasked-new :
      (url : Text) (s : ParquetBlockAssigner)
      → s.connected ≡ true
      → lookup url s.finish_dict ≡ none
      → browse_unasked hdfs num_row_groups url s ≡ (
          let t = browse_entries hdfs num_row_groups (hdfs.list_directory url) s in
          record t { finish_dict = touch url t.finish_dict })
  unfolding browse_unasked browse_hdfs
  browse_unasked-new url s on e = ground (arith, on, e)

  browsed-IsAsked :
      HasWords num_row_groups
      → (url : Text) (s : ParquetBlockAssigner) → IsSetUp s
      → All (λ info. url ≢ info.name) (hdfs.list_directory url)
      → (let b = browse_unasked hdfs num_row_groups url s in
          let files = (browse_entries hdfs num_row_groups (hdfs.list_directory url) s).file_size in
          (b.connected ≡ true)
          × IsConsistent b
          × IsAsked url 0 b
          × (queue_of b ≡ groups_left files []))
  unfolding lookup at_or
  browsed-IsAsked words url s i ne =
      let t = browse_entries hdfs num_row_groups (hdfs.list_directory url) s in
      let unasked : lookup url s.finish_dict ≡ none = rw i.no_counts refl in
      let out : IsOutside url s.file_size = rw i.no_sizes tt in
      let b =
        browse_entries-IsBrowsed hdfs num_row_groups words url (hdfs.list_directory url) s ne
          (set_up-IsConsistent s i) out in
      let missing = at_or-missing 0 url t.finish_dict (b.counts ∙ unasked) in
      let zeros : All (λ e. at_or 0 (e.0) t.file_offset ≡ at_or 0 (e.0) []) t.file_size =
        all_of t.file_size t.file_offset (λ k. b.offsets k (rw i.no_offsets refl)) in
      subst
        (λ r.
          (r.connected ≡ true)
          × IsConsistent r
          × IsAsked url 0 r
          × (queue_of r ≡ groups_left t.file_size []))
        (sym (browse_unasked-new url s i.connected unasked))
        (
          b.connected ∙ i.connected,
          touched-IsConsistent url t b.consistent,
          record {
            asked = lookup-put_self url (at_or 0 url t.finish_dict) t.finish_dict ∙ ap some missing;
            outside = b.outside;
          },
          groups_left-same t.file_size [] t.file_offset zeros,
        )
    where
      all_of :
          (sizes offsets : List (Text × ℕ))
          → ((k : Text) → at_or 0 k offsets ≡ 0)
          → All (λ e. at_or 0 (e.0) offsets ≡ 0) sizes
      all_of [] offsets f = tt
      all_of (e ∷ sizes) offsets f = (f (e.0), all_of sizes offsets f)

  first-replies :
      (n : ℕ) (url : Text) (s : ParquetBlockAssigner)
      → s.connected ≡ true
      → (browse_unasked hdfs num_row_groups url s).connected ≡ true
      → IsAsked url 0 (browse_unasked hdfs num_row_groups url s)
      → replies_hdfs hdfs num_row_groups n url s
        ≡ replies_hdfs hdfs num_row_groups n url (browse_unasked hdfs num_row_groups url s)
  unfolding replies_hdfs answer_hdfs
  first-replies zero url s on on' a = refl
  first-replies (suc n) url s on on' a =
      let b = browse_unasked hdfs num_row_groups url s in
      let same : answer_hdfs hdfs num_row_groups url s ≡ answer_hdfs hdfs num_row_groups url b =
        (rw (answer_hdfs, on) refl) ∙ sym (known-answer hdfs num_row_groups url 0 b on' a.asked) in
      ap (λ r. r.0 ∷ replies_hdfs hdfs num_row_groups n url r.1) same

  -- What the file sizes that `browse_entries` leaves give to the requests.
  pub replies_hdfs-left :
      HasWords num_row_groups
      → (n : ℕ) (url : Text) (s : ParquetBlockAssigner) → IsSetUp s
      → All (λ info. url ≢ info.name) (hdfs.list_directory url)
      → n
        ≤ length (
            groups_left
              (browse_entries hdfs num_row_groups (hdfs.list_directory url) s).file_size
              [])
      → replies_hdfs hdfs num_row_groups n url s
        ≡ take n (
            groups_left
              (browse_entries hdfs num_row_groups (hdfs.list_directory url) s).file_size
              [])
  replies_hdfs-left words n url s i ne enough =
      let (on, c, a, queue) = browsed-IsAsked words url s i ne in
      let b = browse_unasked hdfs num_row_groups url s in
      first-replies n url s i.connected on a
      ∙ replies_hdfs-take hdfs num_row_groups n url 0 b on c a
          (subst (λ q. n ≤ length q) (sym queue) enough)
      ∙ ap (take n) queue
