-- ===== src/Collections/Sorted.antt =====
-- The keys of a `std::map<std::string, V>` ascend, so that each is there once.
use husky_kylin.Prelude.{
  List, [], ◌∷◌, ◌≡◌, ◌≢◌, inl, inr, arith, Text, text_eq, text_lt, text_eq-true, text_lt_irrefl,
  text_lt_trans, text_lt-total, true, Bool-cases, subst, sym,
}
use husky_kylin.Collections.All
use husky_kylin.Collections.All.{All}
use husky_kylin.Collections.Dict.{put, erase}

module _ {ℓ} {V : Type ℓ} where
  abbrev pub IsSorted : List (Text × V) → Type ℓ
  IsSorted [] = Unit
  IsSorted ((k, v) ∷ m) = All (λ e. text_lt k e.0 ≡ true) m × IsSorted m

  module _ {κ} (P : Text × V → Type κ) where
    pub All-put : (k : Text) (v : V) (m : List (Text × V)) → P (k, v) → All P m → All P (put k v m)
    unfolding put
    All-put k v [] p a = (p, tt)
    All-put k v ((j, w) ∷ m) p (q, a) = elim (Bool-cases (text_eq k j)) [
      | inl e ↦ rw e (p, a)
      | inr ne ↦ elim (Bool-cases (text_lt k j)) [
        | inl lt ↦ rw (ne, lt) (p, (q, a))
        | inr ge ↦ rw (ne, ge) (q, All-put k v m p a)
      ]
    ]

    pub All-erase : (k : Text) (m : List (Text × V)) → All P m → All P (erase k m)
    unfolding erase
    All-erase k [] a = tt
    All-erase k ((j, w) ∷ m) (q, a) = elim (Bool-cases (text_eq k j)) [
      | inl e ↦ rw e (All-erase k m a)
      | inr ne ↦ rw ne (q, All-erase k m a)
    ]

  pub put-IsSorted : (k : Text) (v : V) (m : List (Text × V)) → IsSorted m → IsSorted (put k v m)
  unfolding put
  put-IsSorted k v [] s = (tt, tt)
  put-IsSorted k v ((j, w) ∷ m) (above, s) = elim (Bool-cases (text_eq k j)) [
    | inl e ↦
        rw e (subst (λ x. All (λ e. text_lt x e.0 ≡ true) m) (sym (text_eq-true k j e)) above, s)
    | inr ne ↦ elim (Bool-cases (text_lt k j)) [
      | inl lt ↦
          rw (ne, lt)
            ((lt, All.All-map _ _ m (λ e h. text_lt_trans k j e.0 lt h) above), (above, s))
      | inr ge ↦
          rw (ne, ge)
            (
              All-put (λ e. text_lt j e.0 ≡ true) k v m (text_lt-total k j ne ge) above,
              put-IsSorted k v m s,
            )
    ]
  ]

  pub erase-IsSorted : (k : Text) (m : List (Text × V)) → IsSorted m → IsSorted (erase k m)
  unfolding erase
  erase-IsSorted k [] s = tt
  erase-IsSorted k ((j, w) ∷ m) (above, s) = elim (Bool-cases (text_eq k j)) [
    | inl e ↦ rw e (erase-IsSorted k m s)
    | inr ne ↦ rw ne (All-erase (λ e. text_lt j e.0 ≡ true) k m above, erase-IsSorted k m s)
  ]

  -- The first key is none of the others.
  pub IsSorted-ne :
      (k : Text) (v : V) (m : List (Text × V)) → IsSorted ((k, v) ∷ m) → All (λ e. k ≢ e.0) m
  IsSorted-ne k v m (above, s) =
      All.All-map _ _ m
        (λ e h same. ground (arith, text_lt_irrefl k, subst (λ x. text_lt k x ≡ true) (sym same) h))
        above
