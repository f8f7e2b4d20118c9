-- ===== src/Cube/RowKey/Lookup.antt =====
-- What a row key finds of a column.
use husky_kylin.Prelude.{
  ◌≢◌, none, ◌>>=◌, Option, ℕ, ◌-◌, ◌^◌, ◌≤◌, ◌<◌, ◌≡◌, arith, refl, some, List, [], ◌∷◌, length,
  >>=-eq-some, ◌∙◌, inl, inr, ap, sym, subst, Option-cases,
}
use husky_kylin.Word.Digit.{bit, bit-ones}
use husky_kylin.Collections.All.{All, All-map}
use husky_kylin.Collections.Maps.{
  find, emplace, find-emplace, emplace-HasKeysAscending, find-emplace_self, find-emplace_keep,
  find-emplace_other, HasKeysAscending,
}
use husky_kylin.Cube.RowKey.{
  Columns, RowKeyColDesc, RowKeyDesc, init_columns, or_bits, insert_columns, build_row_key,
  get_col_desc, get_column_bit_index,
}
use husky_kylin.Cube.RowKey.Build.{HasBits, AllFound, build_row_key_lem}

-- The row key knows a column only with a bit of its full mask.
pub record IsRowKey (row_key : RowKeyDesc) : Type 0 where
  pub column_bit :
      (col index : ℕ)
      → get_column_bit_index row_key col ≡ some index
      → bit row_key.full_mask index ≡ 1

-- The row key has the bits of its columns in their order, and finds each column with its bit.
pub record IsLookedUp (row_key : RowKeyDesc) : Type 0 where
  pub bits : HasBits row_key.row_key_columns
  pub few : length row_key.row_key_columns ≤ 64
  pub known :
      All (λ c. get_column_bit_index row_key c.col_ref ≡ some c.bit_index) row_key.row_key_columns

HasBits-All :
    (n : ℕ) (cs : List RowKeyColDesc) → length cs ≤ n → HasBits cs → All (λ c. c.bit_index < n) cs
HasBits-All n [] fits h = tt
HasBits-All n (c ∷ cs) fits (here, h) = (omega (arith, here), HasBits-All n cs (omega arith) h)

find-insert_columns :
    (n col : ℕ) (cs : List RowKeyColDesc) (m : List (ℕ × RowKeyColDesc)) (d : RowKeyColDesc)
    → All (λ c. c.bit_index < n) cs
    → ((x : RowKeyColDesc) → find col m ≡ some x → x.bit_index < n)
    → find col (insert_columns cs m) ≡ some d
    → d.bit_index < n
unfolding insert_columns
find-insert_columns n col [] m d all before h = before d h
find-insert_columns n col (c ∷ cs) m d (here, all) before h =
    find-insert_columns n col cs (emplace c.col_ref c m) d all
      (λ x f. elim (find-emplace col c.col_ref c x m f) [
        | inl e ↦ subst (λ y. y.bit_index < n) (sym e) here
        | inr old ↦ before x old
      ])
      h

build_row_key-column_map :
    (model : Columns) (r out : RowKeyDesc)
    → build_row_key model r ≡ some out
    → out.column_map ≡ insert_columns out.row_key_columns r.column_map
unfolding build_row_key
build_row_key-column_map model r out h =
    elim (Option-cases (init_columns model r.row_key_columns)) [
      | inl bad ↦ absurd (ground (arith, rw bad at h))
      | inr (columns, e) ↦ elim (Option-cases (or_bits columns 0)) [
        | inl bad ↦ absurd (ground (arith, rw (e, bad) at h))
        | inr (mask, e') ↦
            let same : record {
              row_key_columns = columns;
              full_mask = mask;
              column_map = insert_columns columns r.column_map;
            }
                ≡ out =
              ground (arith, rw (e, e') at h) in
            subst (λ x. x.column_map ≡ insert_columns x.row_key_columns r.column_map) same refl
      ]
    ]

-- A row key that `build_row_key` made, of at most 64 columns that the data model has and with no
-- column looked up before, knows columns only with bits of its full mask.
pub build_row_key-IsRowKey :
    (model : Columns) (r out : RowKeyDesc)
    → AllFound model r.row_key_columns
    → length r.row_key_columns ≤ 64
    → r.column_map ≡ []
    → build_row_key model r ≡ some out
    → IsRowKey out
unfolding get_column_bit_index get_col_desc find
build_row_key-IsRowKey model r out found fits fresh h =
    let (made, e, bits, len, full) = build_row_key_lem model r found fits in
    let same : made ≡ out = ground arith in
    let n = length r.row_key_columns in
    let all =
      subst (λ x. All (λ c. c.bit_index < n) x.row_key_columns) same
        (HasBits-All n made.row_key_columns (omega (arith, len)) bits) in
    let mask : out.full_mask ≡ 2 ^ n - 1 = subst (λ x. x.full_mask ≡ 2 ^ n - 1) same full in
    record {
      column_bit = λ col index known.
          let (d, there, at) = >>=-eq-some (find col out.column_map) _ index known in
          let low =
            find-insert_columns n col out.row_key_columns [] d all (λ x f. absurd (ground arith))
              (ap (find col) (
                  sym (
                    build_row_key-column_map model r out h
                    ∙ ap (insert_columns out.row_key_columns) fresh))
                ∙ there) in
          let low' : index < n = ground (arith, low, at) in
          subst (λ x. bit x index ≡ 1) (sym mask) (bit-ones n index low');
    }

-- The columns of the data model are pairwise different.
abbrev pub AreDistinct : List RowKeyColDesc → Type 0
AreDistinct [] = Unit
AreDistinct (c ∷ cs) = All (λ d. d.col_ref ≢ c.col_ref) cs × AreDistinct cs

insert_columns-keep :
    (k : ℕ) (x : RowKeyColDesc) (cs : List RowKeyColDesc) (m : List (ℕ × RowKeyColDesc))
    → HasKeysAscending m
    → find k m ≡ some x
    → find k (insert_columns cs m) ≡ some x
unfolding insert_columns
insert_columns-keep k x [] m a h = h
insert_columns-keep k x (c ∷ cs) m a h =
    insert_columns-keep k x cs (emplace c.col_ref c m) (emplace-HasKeysAscending c.col_ref c m a)
      (find-emplace_keep k c.col_ref c x m a h)

insert_columns-All :
    (cs : List RowKeyColDesc) (m : List (ℕ × RowKeyColDesc))
    → HasKeysAscending m
    → AreDistinct cs
    → All (λ c. find c.col_ref m ≡ none) cs
    → All (λ c. find c.col_ref (insert_columns cs m) ≡ some c) cs
unfolding insert_columns
insert_columns-All [] m a distinct new = tt
insert_columns-All (c ∷ cs) m a (apart, distinct) (here, new) =
    let m' = emplace c.col_ref c m in
    let a' = emplace-HasKeysAscending c.col_ref c m a in
    (
      insert_columns-keep c.col_ref c cs m' a' (find-emplace_self c.col_ref c m here),
      insert_columns-All cs m' a' distinct (still_new cs apart new),
    )
  where
    still_new :
        (ds : List RowKeyColDesc)
        → All (λ d. d.col_ref ≢ c.col_ref) ds
        → All (λ d. find d.col_ref m ≡ none) ds
        → All (λ d. find d.col_ref (emplace c.col_ref c m) ≡ none) ds
    still_new [] p q = tt
    still_new (d ∷ ds) (p, ps) (q, qs) =
        (find-emplace_other d.col_ref c.col_ref c m p q, still_new ds ps qs)

nothing_found :
    (cs : List RowKeyColDesc) → All (λ c. find {V = RowKeyColDesc} c.col_ref [] ≡ none) cs
unfolding find
nothing_found [] = tt
nothing_found (c ∷ cs) = (refl, nothing_found cs)

-- A row key that `build_row_key` made, of at most 64 columns that the data model has and that are
-- pairwise different there, with no column looked up before, has the bits of its columns in their
-- order and finds each column with its bit.
pub build_row_key-IsLookedUp :
    (model : Columns) (r out : RowKeyDesc)
    → AllFound model r.row_key_columns
    → length r.row_key_columns ≤ 64
    → r.column_map ≡ []
    → build_row_key model r ≡ some out
    → AreDistinct out.row_key_columns
    → IsLookedUp out
unfolding get_column_bit_index get_col_desc
build_row_key-IsLookedUp model r out found fits fresh h distinct =
    let (made, e, bits, len, _) = build_row_key_lem model r found fits in
    let same : made ≡ out = ground arith in
    let mapped : out.column_map ≡ insert_columns out.row_key_columns [] =
      build_row_key-column_map model r out h ∙ ap (insert_columns out.row_key_columns) fresh in
    let all =
      insert_columns-All out.row_key_columns [] tt distinct (nothing_found out.row_key_columns) in
    record {
      bits = subst (λ x. HasBits x.row_key_columns) same bits;
      few = subst (λ x. length x.row_key_columns ≤ 64) same (omega (arith, len));
      known =
          All-map (λ c. find c.col_ref (insert_columns out.row_key_columns []) ≡ some c) _
            out.row_key_columns
            (λ c there.
              ap (λ (m : List (ℕ × RowKeyColDesc)). find c.col_ref m >>= λ d. some d.bit_index)
                mapped
              ∙ ap (λ (o : Option RowKeyColDesc). o >>= λ d. some d.bit_index) there)
            all;
    }
