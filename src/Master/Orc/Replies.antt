-- ===== src/Master/Orc/Replies.antt =====
-- Requests of several workers for several urls, in any order, to the ORC assigner.
use husky_kylin.Prelude.{
  ℕ, zero, suc, ◌+◌, ◌^◌, ◌<◌, ◌≡◌, ◌≢◌, ap, ap₂, inl, inr, arith, refl, true, Option, none, some,
  List, [], ◌∷◌, ◌++◌, Text, text_eq, text_eq_refl, text_eq-ne, text_same_or_ne, Bool-cases,
  Option-cases, if◌then◌else◌, subst, sym, ◌∙◌,
}
use husky_kylin.Collections.All
use husky_kylin.Collections.All.{All}
use husky_kylin.Collections.Dict.{
  lookup, put, at_or, lookup-put_self, lookup-put_other, at_or-put_self, at_or-put_other,
}
use husky_kylin.Master.Hdfs.{FileInfo, Hdfs}
use husky_kylin.Master.Orc.{
  OrcFileDesc, OrcBlockAssigner, browse_files, browse_hdfs, browse_once, hand_out, answer,
}
use husky_kylin.Master.Orc.Schedule.{schedule, HasRoom, front, rest}
use husky_kylin.Master.Orc.Serve.{IsServing, IsKept, hand_out_self, hand_out-IsKept}

-- What a queue gives to `n` requests.
unfoldable pub queue_replies : ℕ → List (Text × ℕ) → List (Text × ℕ)
queue_replies zero queue = []
queue_replies (suc n) queue = front queue ∷ queue_replies n (rest queue)

unfoldable pub requests_for : Text → List Text → ℕ
requests_for url [] = 0
requests_for url (r ∷ rs) = let n = requests_for url rs in if text_eq url r then suc n else n

module _ (hdfs : Hdfs) (number_of_rows : Text → Option ℕ) where
  -- The replies to the requests for this url, among requests for any.
  unfoldable pub replies_to : Text → List Text → OrcBlockAssigner → List (Text × ℕ)
  replies_to url [] s = []
  replies_to url (r ∷ rs) s =
      let (block, t) = answer hdfs number_of_rows r s in
      let more = replies_to url rs t in if text_eq url r then block ∷ more else more

-- No file is so long that an offset behind its end is not a word.
abbrev pub HasShortFiles : (Text → Option ℕ) → Type 0
HasShortFiles number_of_rows =
    (name : Text) (rows : ℕ) → number_of_rows name ≡ some rows → rows + 5000 < 2 ^ 64

module _ (number_of_rows : Text → Option ℕ) (short : HasShortFiles number_of_rows) where
  browse_files-HasRoom :
      (infos : List FileInfo) (files : List OrcFileDesc)
      → All HasRoom files
      → All HasRoom (browse_files number_of_rows infos files)
  unfolding browse_files
  browse_files-HasRoom [] files room = room
  browse_files-HasRoom (info ∷ infos) files room = elim (Bool-cases info.is_file) [
    | inl file ↦ elim (Option-cases (number_of_rows info.name)) [
      | inl e ↦ rw (file, e) room
      | inr (rows, e) ↦
          rw (file, e)
            (browse_files-HasRoom infos
              (files
                ++ record { filename = info.name ++ 0 ∷ []; num_of_rows = rows; offset = 0 } ∷ [])
              (All.All-append HasRoom files _ room
                (record { within = ground arith; fits = short info.name rows e }, tt)))
    ]
    | inr dir ↦ rw dir (browse_files-HasRoom infos files room)
  ]

module _ (hdfs : Hdfs) (number_of_rows : Text → Option ℕ) where
  files_found : Text → OrcBlockAssigner → List OrcFileDesc
  files_found url s =
      browse_files number_of_rows (hdfs.list_directory url) (at_or [] url s.files_dict)

  browse_once-fresh :
      (url : Text) (s : OrcBlockAssigner)
      → s.connected ≡ true
      → lookup url s.finish_dict ≡ none
      → browse_once hdfs number_of_rows url s ≡ record s {
        files_dict = put url (files_found url s) s.files_dict;
        finish_dict = put url 0 s.finish_dict;
      }
  unfolding browse_once browse_hdfs files_found
  browse_once-fresh url s c e = ground (arith, c, e)

  browse_once-known :
      (url : Text) (s : OrcBlockAssigner) (n : ℕ)
      → lookup url s.finish_dict ≡ some n
      → browse_once hdfs number_of_rows url s ≡ s
  unfolding browse_once
  browse_once-known url s n e = ground (arith, e)

  answer-connected :
      (url : Text) (s : OrcBlockAssigner)
      → s.connected ≡ true
      → answer hdfs number_of_rows url s
        ≡ hand_out url
            (browse_once hdfs number_of_rows url s)
            (at_or [] url (browse_once hdfs number_of_rows url s).files_dict)
  unfolding answer
  answer-connected url s c = ground (arith, c)

  browse_once-IsKept :
      (url other : Text) (s : OrcBlockAssigner)
      → url ≢ other
      → s.connected ≡ true
      → IsKept url s (browse_once hdfs number_of_rows other s)
  browse_once-IsKept url other s ne c = elim (Option-cases (lookup other s.finish_dict)) [
    | inr (n, e) ↦
        subst (IsKept url s) (sym (browse_once-known other s n e))
          (record { connected = refl; looked = refl; files = refl })
    | inl e ↦ subst (IsKept url s) (sym (browse_once-fresh other s c e)) (record {
      connected = refl;
      looked = lookup-put_other url other 0 s.finish_dict ne;
      files = at_or-put_other [] url other (files_found other s) s.files_dict ne;
    })
  ]

  answer_self :
      (url : Text) (s : OrcBlockAssigner) (queue : List (Text × ℕ))
      → IsServing url s queue
      → ((answer hdfs number_of_rows url s).0 ≡ front queue)
        × IsServing url (answer hdfs number_of_rows url s).1 (rest queue)
  answer_self url s queue i =
      let known = browse_once-known url s i.looked.0 i.looked.1 in
      let (block, next) =
        hand_out_self url s (at_or [] url s.files_dict) i.looked.0 i.connected i.looked.1 i.room in
      subst (λ b. (b.0 ≡ front queue) × IsServing url b.1 (rest queue))
        (sym (
          answer-connected url s i.connected
          ∙ ap (λ t. hand_out url t (at_or [] url t.files_dict)) known))
        (
          block ∙ ap front i.left,
          subst (λ q. IsServing url (hand_out url s (at_or [] url s.files_dict)).1 (rest q)) i.left
              next,
        )

  answer-IsKept :
      (url other : Text) (s : OrcBlockAssigner)
      → url ≢ other
      → s.connected ≡ true
      → IsKept url s (answer hdfs number_of_rows other s).1
  answer-IsKept url other s ne c =
      let t = browse_once hdfs number_of_rows other s in
      let first = browse_once-IsKept url other s ne c in
      let second = hand_out-IsKept url other t (at_or [] other t.files_dict) ne in
      subst (λ b. IsKept url s b.1) (sym (answer-connected other s c))
        (record {
          connected = second.connected ∙ first.connected;
          looked = second.looked ∙ first.looked;
          files = second.files ∙ first.files;
        })

  kept-IsServing :
      (url : Text) (s t : OrcBlockAssigner) (queue : List (Text × ℕ))
      → IsKept url s t
      → IsServing url s queue
      → IsServing url t queue
  kept-IsServing url s t queue k i = record {
    connected = k.connected ∙ i.connected;
    looked = (i.looked.0, k.looked ∙ i.looked.1);
    left = ap schedule k.files ∙ i.left;
    room = subst (All HasRoom) (sym k.files) i.room;
  }

  same_url :
      (url r : Text) (rs : List Text) (s : OrcBlockAssigner) (queue : List (Text × ℕ))
      → url ≡ r
      → (answer hdfs number_of_rows url s).0 ≡ front queue
      → replies_to hdfs number_of_rows url rs (answer hdfs number_of_rows url s).1
        ≡ queue_replies (requests_for url rs) (rest queue)
      → replies_to hdfs number_of_rows url (r ∷ rs) s
        ≡ queue_replies (requests_for url (r ∷ rs)) queue
  unfolding replies_to requests_for queue_replies
  same_url url r rs s queue same block more =
      subst
        (λ u.
          replies_to hdfs number_of_rows url (u ∷ rs) s
          ≡ queue_replies (requests_for url (u ∷ rs)) queue)
        same (rw (text_eq_refl url) (ap₂ ◌∷◌ block more))

  replies_to-queue :
      (url : Text) (requests : List Text) (s : OrcBlockAssigner) (queue : List (Text × ℕ))
      → IsServing url s queue
      → replies_to hdfs number_of_rows url requests s
        ≡ queue_replies (requests_for url requests) queue
  unfolding replies_to requests_for queue_replies
  replies_to-queue url [] s queue i = refl
  replies_to-queue url (r ∷ rs) s queue i = elim (text_same_or_ne url r) [
    | inl same ↦
        let (block, next) = answer_self url s queue i in
        same_url url r rs s queue same block
          (replies_to-queue url rs (answer hdfs number_of_rows url s).1 (rest queue) next)
    | inr ne ↦
        let t = (answer hdfs number_of_rows r s).1 in
        rw (text_eq-ne url r ne) (
          replies_to-queue url rs t queue
            (kept-IsServing url s t queue (answer-IsKept url r s ne i.connected) i))
  ]

-- A connected assigner that has not been asked for the url.
pub record IsFresh (url : Text) (s : OrcBlockAssigner) : Type 0 where
  pub connected : s.connected ≡ true
  pub unasked : lookup url s.finish_dict ≡ none
  pub empty : at_or [] url s.files_dict ≡ []

module _ (hdfs : Hdfs) (number_of_rows : Text → Option ℕ)
    (short : HasShortFiles number_of_rows) where
  abbrev found : Text → List OrcFileDesc
  found url = browse_files number_of_rows (hdfs.list_directory url) []

  first-answer :
      (url : Text) (s : OrcBlockAssigner)
      → IsFresh url s
      → ((answer hdfs number_of_rows url s).0 ≡ front (schedule (found url)))
        × IsServing url (answer hdfs number_of_rows url s).1 (rest (schedule (found url)))
  unfolding files_found
  first-answer url s f =
      let files = files_found hdfs number_of_rows url s in
      let t = record s {
        files_dict = put url files s.files_dict;
        finish_dict = put url 0 s.finish_dict;
      } in
      let same : files ≡ found url =
        ap (browse_files number_of_rows (hdfs.list_directory url)) f.empty in
      let at_url = at_or-put_self [] url files s.files_dict in
      subst
        (λ b.
          (b.0 ≡ front (schedule (found url))) × IsServing url b.1 (rest (schedule (found url))))
        (sym (
          answer-connected hdfs number_of_rows url s f.connected
          ∙ ap (λ t. hand_out url t (at_or [] url t.files_dict))
              (browse_once-fresh hdfs number_of_rows url s f.connected f.unasked)
          ∙ ap (hand_out url t) (at_url ∙ same)))
        (hand_out_self url t (found url) 0 f.connected (lookup-put_self url 0 s.finish_dict)
          (browse_files-HasRoom number_of_rows short (hdfs.list_directory url) [] tt))

  -- What the files that `browse_files` leaves give to the requests.
  pub replies_to-found :
      (url : Text) (requests : List Text) (s : OrcBlockAssigner)
      → IsFresh url s
      → replies_to hdfs number_of_rows url requests s
        ≡ queue_replies (requests_for url requests) (schedule (found url))
  unfolding replies_to requests_for queue_replies
  replies_to-found url [] s f = refl
  replies_to-found url (r ∷ rs) s f = elim (text_same_or_ne url r) [
    | inl same ↦
        let (block, next) = first-answer url s f in
        same_url hdfs number_of_rows url r rs s (schedule (found url)) same block (
          replies_to-queue hdfs number_of_rows url rs (answer hdfs number_of_rows url s).1
            (rest (schedule (found url))) next)
    | inr ne ↦
        let t = (answer hdfs number_of_rows r s).1 in
        let k = answer-IsKept hdfs number_of_rows url r s ne f.connected in
        rw (text_eq-ne url r ne) (
          replies_to-found url rs t (record {
            connected = k.connected ∙ f.connected;
            unasked = k.looked ∙ f.unasked;
            empty = k.files ∙ f.empty;
          }))
  ]
