-- ===== src/Master/Parquet/Remote/Forget.antt =====
-- Forgetting the files that every worker is done with changes nothing of the queue.
use husky_kylin.Prelude.{
  ℕ, ◌≡◌, ◌≢◌, ap, ap₂, inl, inr, arith, refl, ◌==◌, ==_iff, some, List, [], ◌∷◌, Text, Bool-cases,
  subst, sym, ◌∙◌, text_same_or_ne,
}
use husky_kylin.Collections.All
use husky_kylin.Collections.All.{All}
use husky_kylin.Collections.Dict.{
  lookup, put, erase, at_or, lookup-put_self, lookup-put_other, lookup-erase_other,
  at_or-erase_other, at_or-known,
}
use husky_kylin.Collections.Sorted.{All-erase}
use husky_kylin.Master.Parquet.{ParquetBlockAssigner, touch, finish_url}
use husky_kylin.Master.Parquet.Remote.{finished_paths, finish_urls, drop_finished}
use husky_kylin.Master.Parquet.Remote.Queue.{
  groups_left, IsCounted, IsConsistent, IsExhausted, erase-ne, All-both, finish_url-groups_left,
  finish_url-IsConsistent,
}
use husky_kylin.Master.Parquet.Remote.Scan.{touch-at_or, IsOutside}

-- A url that was asked for and is not the path of a file.
pub record IsAsked (url : Text) (times : ℕ) (s : ParquetBlockAssigner) : Type 0 where
  pub asked : lookup url s.finish_dict ≡ some times
  pub outside : IsOutside url s.file_size

touch-lookup :
    (url k : Text) (n : ℕ) (m : List (Text × ℕ))
    → lookup url m ≡ some n
    → lookup url (touch k m) ≡ some n
touch-lookup url k n m h = elim (text_same_or_ne url k) [
  | inr ne ↦ lookup-put_other url k (at_or 0 k m) m ne ∙ h
  | inl same ↦
      subst (λ x. lookup url (put x (at_or 0 x m) m) ≡ some n) same
        (lookup-put_self url (at_or 0 url m) m ∙ ap some (at_or-known 0 n url m h))
]

-- What the first loop leaves: the counts as they read, and the paths whose count is full.
record IsRead (s : ParquetBlockAssigner) (paths : List Text) (t : ParquetBlockAssigner)
    : Type 0 where
  workers : t.num_workers_alive ≡ s.num_workers_alive
  sizes : t.file_size ≡ s.file_size
  connected : t.connected ≡ s.connected
  offsets : t.file_offset ≡ s.file_offset
  counts : (k : Text) → at_or 0 k t.finish_dict ≡ at_or 0 k s.finish_dict
  known : (k : Text) (n : ℕ) → lookup k s.finish_dict ≡ some n → lookup k t.finish_dict ≡ some n

record IsFull (s : ParquetBlockAssigner) (sizes : List (Text × ℕ)) (path : Text) : Type 0 where
  full : at_or 0 path s.finish_dict ≡ s.num_workers_alive
  among : (k : Text) → IsOutside k sizes → k ≢ path

abbrev touched : Text → ParquetBlockAssigner → ParquetBlockAssigner
touched path s = record s { finish_dict = touch path s.finish_dict }

finished_paths-IsRead :
    (sizes : List (Text × ℕ)) (s : ParquetBlockAssigner)
    → IsRead s (finished_paths sizes s).0 (finished_paths sizes s).1
      × All (IsFull s sizes) (finished_paths sizes s).0
unfolding finished_paths
finished_paths-IsRead [] s = (
  record {
    workers = refl;
    sizes = refl;
    connected = refl;
    offsets = refl;
    counts = λ k. refl;
    known = λ k n h. h;
  },
  tt,
)
finished_paths-IsRead ((path, size) ∷ sizes) s =
    let (more, full) = finished_paths-IsRead sizes (touched path s) in
    let t = (finished_paths sizes (touched path s)).1 in
    let paths = (finished_paths sizes (touched path s)).0 in
    let read : (ps : List Text) → IsRead s ps t = λ ps. record {
      workers = more.workers;
      sizes = more.sizes;
      connected = more.connected;
      offsets = more.offsets;
      counts = λ k. more.counts k ∙ touch-at_or k path s.finish_dict;
      known = λ k n h. more.known k n (touch-lookup k path n s.finish_dict h);
    } in
    let later =
      All.All-map _ (IsFull s ((path, size) ∷ sizes)) paths
        (λ p f. record {
          full = sym (touch-at_or p path s.finish_dict) ∙ f.full;
          among = λ k out. f.among k (out.1);
        })
        full in
    elim (Bool-cases (at_or 0 path s.finish_dict == s.num_workers_alive)) [
      | inl e ↦
          rw e (
            read (path ∷ paths),
            (record { full = (==_iff _ _).0 e; among = λ k out. out.0 }, later),
          )
      | inr ne ↦ rw ne (read paths, later)
    ]

-- What requests do besides handing out: the queue stays.
pub record IsForgotten (s t : ParquetBlockAssigner) : Type 0 where
  pub consistent : IsConsistent t
  pub connected : t.connected ≡ s.connected
  pub workers : t.num_workers_alive ≡ s.num_workers_alive
  pub queue : groups_left t.file_size t.file_offset ≡ groups_left s.file_size s.file_offset
  pub known : (url : Text) (times : ℕ) → IsAsked url times s → IsAsked url times t

finish_url-IsAsked :
    (url path : Text) (times : ℕ) (s : ParquetBlockAssigner)
    → url ≢ path
    → IsAsked url times s
    → IsAsked url times (finish_url path s)
unfolding finish_url
finish_url-IsAsked url path times s ne a = record {
  asked = lookup-erase_other url path s.finish_dict ne ∙ a.asked;
  outside = All-erase (λ e. url ≢ e.0) path s.file_size a.outside;
}

finish_urls-IsAsked :
    (url : Text) (times : ℕ) (paths : List Text) (s : ParquetBlockAssigner)
    → All (λ p. url ≢ p) paths
    → IsAsked url times s
    → IsAsked url times (finish_urls paths s)
unfolding finish_urls
finish_urls-IsAsked url times [] s ne a = a
finish_urls-IsAsked url times (p ∷ paths) s (ne, nes) a =
    finish_urls-IsAsked url times paths (finish_url p s) nes (finish_url-IsAsked url p times s ne a)

finish_urls-connected :
    (paths : List Text) (s : ParquetBlockAssigner) → (finish_urls paths s).connected ≡ s.connected
unfolding finish_urls finish_url
finish_urls-connected [] s = refl
finish_urls-connected (p ∷ paths) s = finish_urls-connected paths (finish_url p s)

finish_urls-workers :
    (paths : List Text) (s : ParquetBlockAssigner)
    → (finish_urls paths s).num_workers_alive ≡ s.num_workers_alive
unfolding finish_urls finish_url
finish_urls-workers [] s = refl
finish_urls-workers (p ∷ paths) s = finish_urls-workers paths (finish_url p s)

-- Nothing is left of the file at this path.
abbrev IsIdle : ParquetBlockAssigner → Text → Type 0
IsIdle s path = All (IsExhausted path s.file_offset) s.file_size

finish_url-IsIdle :
    (path other : Text) (s : ParquetBlockAssigner)
    → IsIdle s other
    → IsIdle (finish_url path s) other
unfolding finish_url
finish_url-IsIdle path other s idle =
    All.All-map _ _ (erase path s.file_size)
      (λ e h. record { done = rw (at_or-erase_other 0 (e.0) path s.file_offset h.1) h.0.done })
      (All-both (IsExhausted other s.file_offset) (λ e. e.0 ≢ path) (erase path s.file_size)
        (All-erase (IsExhausted other s.file_offset) path s.file_size idle)
        (erase-ne path s.file_size))

finish_urls-IsConsistent :
    (paths : List Text) (s : ParquetBlockAssigner)
    → IsConsistent s
    → All (IsIdle s) paths
    → IsConsistent (finish_urls paths s)
      × (groups_left (finish_urls paths s).file_size (finish_urls paths s).file_offset
          ≡ groups_left s.file_size s.file_offset)
unfolding finish_urls
finish_urls-IsConsistent [] s c idle = (c, refl)
finish_urls-IsConsistent (p ∷ paths) s c (i, idle) =
    let (c', e) =
      finish_urls-IsConsistent paths (finish_url p s) (finish_url-IsConsistent p s c)
        (All.All-map _ _ paths (λ q h. finish_url-IsIdle p q s h) idle) in
    (c', e ∙ finish_url-groups_left p s i)

-- A path whose count is full is that of a file that has nothing left.
full-IsIdle :
    (s : ParquetBlockAssigner) (path : Text)
    → IsConsistent s
    → IsFull s s.file_size path
    → IsIdle s path
full-IsIdle s path c f =
    All.All-map _ _ s.file_size
      (λ e h. elim (text_same_or_ne path (e.0)) [
        | inr ne ↦ record { done = inl ne }
        | inl same ↦ elim h.counted [
          | inr done ↦ record { done = inr done }
          | inl fresh ↦
              let none_counted : at_or 0 path s.finish_dict ≡ 0 =
                subst (λ x. at_or 0 x s.finish_dict ≡ 0) (sym same) fresh in
              absurd (omega (arith, none_counted, f.full, c.workers))
        ]
      ])
      c.files

read-IsConsistent :
    (s t : ParquetBlockAssigner) (paths : List Text)
    → IsRead s paths t
    → IsConsistent s
    → IsConsistent t
read-IsConsistent s t paths r c = record {
  workers = rw r.workers c.workers;
  sorted = rw r.sizes c.sorted;
  files = subst (All (IsCounted t)) (sym r.sizes) (
      All.All-map _ _ s.file_size
        (λ e h. record { fits = h.fits; counted = rw (r.counts (e.0), r.offsets) h.counted })
        c.files);
}

-- `answer_hdfs` forgets only files that have nothing left, and no url that was asked for.
pub drop_finished-IsForgotten :
    (s : ParquetBlockAssigner) → IsConsistent s → IsForgotten s (drop_finished s)
unfolding drop_finished
drop_finished-IsForgotten s c =
    let (read, full) = finished_paths-IsRead s.file_size s in
    let paths = (finished_paths s.file_size s).0 in
    let t = (finished_paths s.file_size s).1 in
    let idle : All (IsIdle t) paths =
      All.All-map _ _ paths (λ p f. rw (read.offsets, read.sizes) (full-IsIdle s p c f)) full in
    let (consistent, queue) =
      finish_urls-IsConsistent paths t (read-IsConsistent s t paths read c) idle in
    record {
      consistent = consistent;
      connected = finish_urls-connected paths t ∙ read.connected;
      workers = finish_urls-workers paths t ∙ read.workers;
      queue = queue ∙ ap₂ groups_left read.sizes read.offsets;
      known = λ url times a.
          finish_urls-IsAsked url times paths t
            (All.All-map _ _ paths (λ p f. f.among url a.outside) full)
            (record {
              asked = read.known url times a.asked;
              outside = subst (IsOutside url) (sym read.sizes) a.outside;
            });
    }
