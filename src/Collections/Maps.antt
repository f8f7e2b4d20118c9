-- ===== src/Collections/Maps.antt =====
-- `std::map<uint64_t, V>` as the list of its entries in ascending order of the keys.
use husky_kylin.Prelude.{
  ◌≤◌, ◌<◌, refl, ℕ, Option, none, some, List, [], ◌∷◌, ◌++◌, ltb, ◌==◌, ◌≡◌, ◌≢◌, ◌⊎◌, arith,
  if◌then◌else◌,
}

module _ {ℓ} {V : Type ℓ} where
  unfoldable pub find : ℕ → List (ℕ × V) → Option V
  find k [] = none
  find k ((j, v) ∷ m) = if k == j then some v else find k m

  -- `insert({k, v})`, which leaves an entry that is there alone.
  unfoldable pub emplace : ℕ → V → List (ℕ × V) → List (ℕ × V)
  emplace k v [] = (k, v) ∷ []
  emplace k v ((j, w) ∷ m) =
      if ltb k j
      then (k, v) ∷ (j, w) ∷ m
      else (if k == j then (j, w) ∷ m else (j, w) ∷ emplace k v m)

  -- What is found after `emplace` is the new value, or was there before.
  pub find-emplace :
      (k j : ℕ) (v d : V) (m : List (ℕ × V))
      → find k (emplace j v m) ≡ some d
      → (d ≡ v) ⊎ (find k m ≡ some d)
  unfolding find emplace
  find-emplace k j v d [] h = ground arith
  find-emplace k j v d ((i, w) ∷ m) h = ground (arith, find-emplace k j v d m)

  -- The keys ascend, and the first one is above `low`.
  abbrev pub KeysAbove : ℕ → List (ℕ × V) → Type 0
  KeysAbove low [] = Unit
  KeysAbove low ((k, v) ∷ m) = (low < k) × KeysAbove k m

  abbrev pub HasKeysAscending : List (ℕ × V) → Type 0
  HasKeysAscending [] = Unit
  HasKeysAscending ((k, v) ∷ m) = KeysAbove k m

  emplace-KeysAbove :
      (low k : ℕ) (v : V) (m : List (ℕ × V))
      → low < k
      → KeysAbove low m
      → KeysAbove low (emplace k v m)
  unfolding emplace
  emplace-KeysAbove low k v [] h a = (h, tt)
  emplace-KeysAbove low k v ((j, w) ∷ m) h a = ground (arith, emplace-KeysAbove j k v m)

  pub emplace-HasKeysAscending :
      (k : ℕ) (v : V) (m : List (ℕ × V)) → HasKeysAscending m → HasKeysAscending (emplace k v m)
  unfolding emplace
  emplace-HasKeysAscending k v [] a = tt
  emplace-HasKeysAscending k v ((j, w) ∷ m) a = ground (arith, emplace-KeysAbove j k v m)

  pub KeysAbove-find : (low k : ℕ) (m : List (ℕ × V)) → k ≤ low → KeysAbove low m → find k m ≡ none
  unfolding find
  KeysAbove-find low k [] h a = refl
  KeysAbove-find low k ((j, w) ∷ m) h a = ground (arith, KeysAbove-find j k m)

  -- A new key is found afterwards, and an entry that is there stays.
  pub find-emplace_self :
      (k : ℕ) (v : V) (m : List (ℕ × V)) → find k m ≡ none → find k (emplace k v m) ≡ some v
  unfolding find emplace
  find-emplace_self k v [] h = ground arith
  find-emplace_self k v ((j, w) ∷ m) h = ground (arith, find-emplace_self k v m)

  pub find-emplace_keep :
      (k j : ℕ) (v x : V) (m : List (ℕ × V))
      → HasKeysAscending m
      → find k m ≡ some x
      → find k (emplace j v m) ≡ some x
  unfolding find emplace
  find-emplace_keep k j v x [] a h = ground arith
  find-emplace_keep k j v x ((i, w) ∷ []) a h = ground arith
  find-emplace_keep k j v x ((i, w) ∷ (g, u) ∷ m) a h =
      ground (arith, find-emplace_keep k j v x ((g, u) ∷ m), KeysAbove-find i k ((g, u) ∷ m))

  pub find-emplace_other :
      (k j : ℕ) (v : V) (m : List (ℕ × V)) → k ≢ j → find k m ≡ none → find k (emplace j v m) ≡ none
  unfolding find emplace
  find-emplace_other k j v [] ne h = ground arith
  find-emplace_other k j v ((i, w) ∷ m) ne h = ground (arith, find-emplace_other k j v m)

-- `m[k].push_back(v)`.
unfoldable pub push_back_at : ℕ → ℕ → List (ℕ × List ℕ) → List (ℕ × List ℕ)
push_back_at k v [] = (k, v ∷ []) ∷ []
push_back_at k v ((j, w) ∷ m) =
    if ltb k j
    then (k, v ∷ []) ∷ (j, w) ∷ m
    else (if k == j then (j, w ++ v ∷ []) ∷ m else (j, w) ∷ push_back_at k v m)

-- What `m[k]` reads, which is an empty vector on a missing key.
abbrev pub at_or_empty : ℕ → List (ℕ × List ℕ) → List ℕ
at_or_empty k m = elim (find k m) [ none ↦ [] | some v ↦ v ]

push_back_at-KeysAbove :
    (low k v : ℕ) (m : List (ℕ × List ℕ))
    → low < k
    → KeysAbove low m
    → KeysAbove low (push_back_at k v m)
unfolding push_back_at
push_back_at-KeysAbove low k v [] h a = (h, tt)
push_back_at-KeysAbove low k v ((j, w) ∷ m) h a = ground (arith, push_back_at-KeysAbove j k v m)

pub push_back_at-HasKeysAscending :
    (k v : ℕ) (m : List (ℕ × List ℕ)) → HasKeysAscending m → HasKeysAscending (push_back_at k v m)
unfolding push_back_at
push_back_at-HasKeysAscending k v [] a = tt
push_back_at-HasKeysAscending k v ((j, w) ∷ m) a = ground (arith, push_back_at-KeysAbove j k v m)

-- `m[k].push_back(v)` appends at `k` and changes no other entry.
pub at_or_empty-push_back_at :
    (p k v : ℕ) (m : List (ℕ × List ℕ))
    → HasKeysAscending m
    → at_or_empty p (push_back_at k v m)
      ≡ (if p == k then at_or_empty p m ++ v ∷ [] else at_or_empty p m)
unfolding push_back_at find
at_or_empty-push_back_at p k v [] a = ground arith
at_or_empty-push_back_at p k v ((j, w) ∷ []) a = ground arith
at_or_empty-push_back_at p k v ((j, w) ∷ (i, u) ∷ m) a =
    ground (arith, at_or_empty-push_back_at p k v ((i, u) ∷ m), KeysAbove-find i k m)
