-- ===== src/Master/Parquet/Remote/Serve.antt =====
-- A request to the Parquet assigner for files on HDFS, against the queue of row groups.
use husky_kylin.Prelude.{
  ℕ, zero, suc, ◌+◌, ◌≤◌, ◌≡◌, ◌⊎◌, ap, inl, inr, arith, refl, ◌==◌, true, Option, none, some, List,
  [], ◌∷◌, Text, Bool-cases, if◌then◌else◌, subst, sym, ◌∙◌, length, take,
}
use husky_kylin.Collections.All.{All}
use husky_kylin.Collections.Dict.{
  lookup, put, at_or, lookup-put_self, lookup-erase_self, at_or-known,
}
use husky_kylin.Master.Hdfs.{Hdfs}
use husky_kylin.Master.Parquet.{ParquetBlockAssigner, finish_url, count_finished}
use husky_kylin.Master.Parquet.Remote.{
  drop_finished, scan_files, reply_hdfs, hand_out_hdfs, browse_unasked, answer_hdfs,
}
use husky_kylin.Master.Parquet.Remote.Queue.{groups_left, IsCounted, IsConsistent}
use husky_kylin.Master.Parquet.Remote.Scan.{
  first, others, IsOutside, IsScanned, scan_files-IsScanned,
}
use husky_kylin.Master.Parquet.Remote.Forget.{IsAsked, IsForgotten, drop_finished-IsForgotten}

abbrev pub queue_of : ParquetBlockAssigner → List (Text × ℕ)
queue_of s = groups_left s.file_size s.file_offset

-- A request that is served from the queue.
pub record IsServed (s : ParquetBlockAssigner) (block : Text × ℕ) (t : ParquetBlockAssigner)
    : Type 0 where
  pub queue : queue_of s ≡ block ∷ queue_of t
  pub consistent : IsConsistent t
  pub connected : t.connected ≡ s.connected
  pub known : (url : Text) (times : ℕ) → IsAsked url times s → IsAsked url times t

-- A request that finds nothing left counts one more worker; the last one has the url forgotten.
pub record IsDrained (url : Text) (times : ℕ) (s : ParquetBlockAssigner) (t : ParquetBlockAssigner)
    : Type 0 where
  pub empty : queue_of s ≡ []
  pub counted :
      lookup url t.finish_dict
      ≡ (if suc times == s.num_workers_alive then none else some (suc times))

scanned-IsConsistent :
    (s t : ParquetBlockAssigner) (found : Option (Text × ℕ))
    → IsConsistent s
    → IsScanned s.file_size s found t
    → IsConsistent t
scanned-IsConsistent s t found c i = record {
  workers = rw i.workers c.workers;
  sorted = rw i.same_sizes c.sorted;
  files = subst (All (IsCounted t)) (sym i.same_sizes) i.files;
}

scanned-queue :
    (s t : ParquetBlockAssigner) (found : Option (Text × ℕ))
    → IsScanned s.file_size s found t
    → queue_of t ≡ others (queue_of s)
scanned-queue s t found i = ap (λ z. groups_left z t.file_offset) i.same_sizes ∙ i.left

scanned-IsAsked :
    (url : Text) (times : ℕ) (s t : ParquetBlockAssigner) (found : Option (Text × ℕ))
    → IsScanned s.file_size s found t
    → IsAsked url times s
    → IsAsked url times t
scanned-IsAsked url times s t found i a = record {
  asked = i.counts url a.outside ∙ a.asked;
  outside = subst (IsOutside url) (sym i.same_sizes) a.outside;
}

count_finished-lookup :
    (url : Text) (times : ℕ) (s : ParquetBlockAssigner)
    → lookup url s.finish_dict ≡ some times
    → lookup url (count_finished url s).finish_dict
      ≡ (if suc times == s.num_workers_alive then none else some (suc times))
unfolding count_finished finish_url
count_finished-lookup url times s e =
    let n : at_or 0 url s.finish_dict + 1 ≡ suc times =
      omega (arith, at_or-known 0 times url s.finish_dict e) in
    elim (Bool-cases (suc times == s.num_workers_alive)) [
      | inl e ↦ rw (n, e) (lookup-erase_self url (put url (suc times) s.finish_dict))
      | inr ne ↦ rw (n, ne) (lookup-put_self url (suc times) s.finish_dict)
    ]

-- The two outcomes of a request.
abbrev pub IsAnswered : Text → ℕ → ParquetBlockAssigner → (Text × ℕ) × ParquetBlockAssigner → Type 0
IsAnswered url times s (block, t) =
    IsServed s block t ⊎ ((block ≡ ([], 0)) × IsDrained url times s t)

reply-IsAnswered :
    (url : Text) (times : ℕ) (s t : ParquetBlockAssigner) (found : Option (Text × ℕ))
    (queue : List (Text × ℕ))
    → IsAsked url times s
    → queue_of s ≡ queue
    → IsConsistent s
    → IsScanned s.file_size s found t
    → found ≡ first queue
    → IsAnswered url times s (reply_hdfs url (found, t))
unfolding reply_hdfs
reply-IsAnswered url times s t found [] a e c i nothing =
    let asked = scanned-IsAsked url times s t found i a in
    rw nothing (
      inr (
        refl,
        record {
          empty = e;
          counted =
              subst
                (λ w.
                  lookup url (count_finished url t).finish_dict
                  ≡ (if suc times == w then none else some (suc times)))
                i.workers (count_finished-lookup url times t asked.asked);
        },
      ))
reply-IsAnswered url times s t found (b ∷ bs) a e c i hit = rw hit (
    inl (record {
      queue = e ∙ ap (λ q. b ∷ q) (sym (scanned-queue s t found i ∙ ap others e));
      consistent = scanned-IsConsistent s t found c i;
      connected = i.connected;
      known = λ u n asked. scanned-IsAsked u n s t found i asked;
    }))

forgotten-IsAnswered :
    (url : Text) (times : ℕ) (s t : ParquetBlockAssigner) (r : (Text × ℕ) × ParquetBlockAssigner)
    → IsForgotten s t
    → t.num_workers_alive ≡ s.num_workers_alive
    → IsAnswered url times t r
    → IsAnswered url times s r
forgotten-IsAnswered url times s t (block, u) f w (inl served) = inl (record {
  queue = sym f.queue ∙ served.queue;
  consistent = served.consistent;
  connected = served.connected ∙ f.connected;
  known = λ v n asked. served.known v n (f.known v n asked);
})
forgotten-IsAnswered url times s t (block, u) f w (inr (none_left, d)) = inr (
  none_left,
  record {
    empty = sym f.queue ∙ d.empty;
    counted =
        subst (λ n. lookup url u.finish_dict ≡ (if suc times == n then none else some (suc times)))
          w d.counted;
  },
)

-- A request for a url that was asked for, where what happens before is in `drop_finished`.
hand_out_hdfs-IsAnswered :
    (url : Text) (times : ℕ) (s : ParquetBlockAssigner)
    → IsConsistent s
    → IsAsked url times s
    → IsAnswered url times s (hand_out_hdfs url s)
unfolding hand_out_hdfs
hand_out_hdfs-IsAnswered url times s c a =
    let f = drop_finished-IsForgotten s c in
    let t = drop_finished s in
    let i = scan_files-IsScanned t.file_size t f.consistent.sorted f.consistent.files in
    forgotten-IsAnswered url times s t (hand_out_hdfs url s) f f.workers (
      reply-IsAnswered url times t (scan_files t.file_size t).1 (scan_files t.file_size t).0
        (queue_of t) (f.known url times a) refl f.consistent i i.reply)

module _ (hdfs : Hdfs) (num_row_groups : Text → Option ℕ) where
  pub known-answer :
      (url : Text) (times : ℕ) (s : ParquetBlockAssigner)
      → s.connected ≡ true
      → lookup url s.finish_dict ≡ some times
      → answer_hdfs hdfs num_row_groups url s ≡ hand_out_hdfs url s
  unfolding answer_hdfs browse_unasked
  known-answer url times s c e = ground (arith, c, e)

  -- A connected assigner in a consistent state, and a url that was asked for before and is no file:
  -- with row groups left, of whatever url, the reply is the first of the queue, which loses it, the
  -- state stays consistent and every url that was asked for stays known. With none left the reply
  -- is an empty name, and one more worker is counted for the url, which is forgotten at the last.
  pub answer_hdfs-IsAnswered :
      (url : Text) (times : ℕ) (s : ParquetBlockAssigner)
      → s.connected ≡ true
      → IsConsistent s
      → IsAsked url times s
      → IsAnswered url times s (answer_hdfs hdfs num_row_groups url s)
  answer_hdfs-IsAnswered url times s on c a =
      subst (IsAnswered url times s) (sym (known-answer url times s on a.asked))
        (hand_out_hdfs-IsAnswered url times s c a)

  -- The replies to `n` requests for one url.
  unfoldable pub replies_hdfs : ℕ → Text → ParquetBlockAssigner → List (Text × ℕ)
  replies_hdfs zero url s = []
  replies_hdfs (suc n) url s =
      let (block, t) = answer_hdfs hdfs num_row_groups url s in block ∷ replies_hdfs n url t

  pub replies_hdfs-take :
      (n : ℕ) (url : Text) (times : ℕ) (s : ParquetBlockAssigner)
      → s.connected ≡ true
      → IsConsistent s
      → IsAsked url times s
      → n ≤ length (queue_of s)
      → replies_hdfs n url s ≡ take n (queue_of s)
  unfolding replies_hdfs
  replies_hdfs-take zero url times s on c a enough = refl
  replies_hdfs-take (suc n) url times s on c a enough =
      elim (answer_hdfs-IsAnswered url times s on c a) [
        | inr (none_left, d) ↦ absurd (omega (arith, ap length d.empty, enough))
        | inl served ↦
            let t = (answer_hdfs hdfs num_row_groups url s).1 in
            rw served.queue (
              ap (λ bs. (answer_hdfs hdfs num_row_groups url s).0 ∷ bs)
                (replies_hdfs-take n url times t (served.connected ∙ on) served.consistent
                  (served.known url times a) (omega (arith, ap length served.queue, enough))))
      ]
