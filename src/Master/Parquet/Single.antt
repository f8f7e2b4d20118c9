-- ===== src/Master/Parquet/Single.antt =====
-- The Parquet assigner for one local file.
use husky_kylin.Prelude.{
  ℕ, zero, suc, ◌+◌, ◌^◌, ◌≤◌, ◌<◌, ◌≡◌, ◌≢◌, ap, ap₂, arith, refl, ltb, true, none, some, [], ◌∷◌,
  Text, text_eq-ne, subst, sym, ◌∙◌,
}
use husky_kylin.Word.{u64}
use husky_kylin.Collections.Dict.{lookup, at_or, lookup-put_self, at_or-put_self}
use husky_kylin.Master.Parquet.{
  regular, LocalFiles, ParquetBlockAssigner, add_file, browse_local, next_group, reply, browse_once,
  search_url, answer,
}
use husky_kylin.Master.Parquet.Remote.Queue.{groups_from}
use husky_kylin.Master.Parquet.Local.{replies_local}

-- The file has this many row groups, and the next one is `offset`.
record IsReading (url : Text) (groups offset : ℕ) (s : ParquetBlockAssigner) : Type 0 where
  size : at_or 0 url s.file_size ≡ groups
  next : at_or 0 url s.file_offset ≡ offset
  asked : lookup url s.finish_dict ≡ some 0

add_file-IsReading :
    (url : Text) (groups : ℕ) (s : ParquetBlockAssigner)
    → IsReading url groups 0 (add_file url url groups s)
unfolding add_file
add_file-IsReading url groups s = record {
  size = at_or-put_self 0 url groups s.file_size;
  next = at_or-put_self 0 url 0 s.file_offset;
  asked = lookup-put_self url 0 s.finish_dict;
}

next_group-IsReading :
    (url : Text) (groups offset : ℕ) (s : ParquetBlockAssigner)
    → offset < groups
    → groups < 2 ^ 64
    → IsReading url groups offset s
    → ((next_group url s).0 ≡ some (url, offset))
      × IsReading url groups (offset + 1) (next_group url s).1
unfolding next_group
next_group-IsReading url groups offset s lt fits i =
    let more : ltb (at_or 0 url s.file_offset) (at_or 0 url s.file_size) ≡ true =
      ground (arith, i.size, i.next, lt) in
    rw (next_group, more)
      (
        ap (λ o. some (url, o)) i.next,
        record {
          size = at_or-put_self 0 url (at_or 0 url s.file_size) s.file_size ∙ i.size;
          next =
              at_or-put_self 0 url (u64 (at_or 0 url s.file_offset + 1)) s.file_offset
              ∙ omega (arith, i.next, lt, fits);
          asked = i.asked;
        },
      )

module _ (files : LocalFiles) (url : Text) (named : url ≢ [])
    (is_file : files.kind url ≡ regular) where
  file-answer :
      (s : ParquetBlockAssigner)
      → answer files url s ≡ reply url (next_group url (browse_once files url s))
  unfolding answer search_url
  file-answer s = ground (arith, is_file)

  known-browse_once :
      (s : ParquetBlockAssigner) → lookup url s.finish_dict ≡ some 0 → browse_once files url s ≡ s
  unfolding browse_once
  known-browse_once s e = ground (arith, e)

  new-browse_once :
      (groups : ℕ) (s : ParquetBlockAssigner)
      → lookup url s.finish_dict ≡ none
      → files.num_row_groups url ≡ some groups
      → browse_once files url s ≡ add_file url url groups s
  unfolding browse_once browse_local
  new-browse_once groups s e g = ground (arith, e, g, is_file)

  reply-group :
      (offset : ℕ) (t : ParquetBlockAssigner)
      → reply url (some (url, offset), t) ≡ ((url, offset), t)
  unfolding reply
  reply-group offset t = rw (text_eq-ne url [] named) refl

  browsed-answer :
      (groups offset : ℕ) (s b : ParquetBlockAssigner)
      → browse_once files url s ≡ b
      → offset < groups
      → groups < 2 ^ 64
      → IsReading url groups offset b
      → ((answer files url s).0 ≡ (url, offset))
        × IsReading url groups (offset + 1) (answer files url s).1
  browsed-answer groups offset s b e lt fits i =
      let (found, j) = next_group-IsReading url groups offset b lt fits i in
      let t = (next_group url b).1 in
      subst (λ r. (r.0 ≡ (url, offset)) × IsReading url groups (offset + 1) r.1)
        (sym (
          file-answer s
          ∙ ap (λ u. reply url (next_group url u)) e
          ∙ ap (λ o. reply url (o, t)) found
          ∙ reply-group offset t))
        (refl, j)

  reading-replies :
      (n groups offset : ℕ) (s : ParquetBlockAssigner)
      → offset + n ≤ groups
      → groups < 2 ^ 64
      → IsReading url groups offset s
      → replies_local files n url s ≡ groups_from url offset n
  unfolding replies_local
  reading-replies zero groups offset s enough fits i = refl
  reading-replies (suc n) groups offset s enough fits i =
      let (block, j) =
        browsed-answer groups offset s s (known-browse_once s i.asked) (omega (arith, enough)) fits
          i in
      ap₂ ◌∷◌ block (
        reading-replies n groups (offset + 1) (answer files url s).1 (omega (arith, enough)) fits j)

  -- A regular file with a name, a number of row groups that is a word, an assigner that was not
  -- asked for it, and no more requests for it than it has row groups: the replies are its row
  -- groups from 0 on, in order.
  pub replies_local-groups :
      (n groups : ℕ) (s : ParquetBlockAssigner)
      → lookup url s.finish_dict ≡ none
      → files.num_row_groups url ≡ some groups
      → groups < 2 ^ 64
      → n ≤ groups
      → replies_local files n url s ≡ groups_from url 0 n
  unfolding replies_local
  replies_local-groups zero groups s unasked g fits enough = refl
  replies_local-groups (suc n) groups s unasked g fits enough =
      let (block, j) =
        browsed-answer groups 0 s (add_file url url groups s) (new-browse_once groups s unasked g)
          (omega (arith, enough)) fits (add_file-IsReading url groups s) in
      ap₂ ◌∷◌ block
        (reading-replies n groups 1 (answer files url s).1 (omega (arith, enough)) fits j)
