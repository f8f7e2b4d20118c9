-- ===== src/Collections/Dict.antt =====
-- `std::map<std::string, V>` as the list of its entries in ascending order of the keys.
use husky_kylin.Prelude.{
  refl, ap, Option, none, some, List, [], ◌∷◌, ◌≡◌, ◌≢◌, arith, if◌then◌else◌, Text, text_eq,
  text_lt, text_eq_refl, text_eq-ne, text_eq-true,
}

abbrev pub get_or_else {ℓ} : {V : Type ℓ} → V → Option V → V
get_or_else d none = d
get_or_else d (some v) = v

module _ {ℓ} {V : Type ℓ} where
  unfoldable pub lookup : Text → List (Text × V) → Option V
  lookup k [] = none
  lookup k ((j, v) ∷ m) = if text_eq k j then some v else lookup k m

  -- `m[k] = v`.
  unfoldable pub put : Text → V → List (Text × V) → List (Text × V)
  put k v [] = (k, v) ∷ []
  put k v ((j, w) ∷ m) =
      if text_eq k j
      then (k, v) ∷ m
      else (if text_lt k j then (k, v) ∷ (j, w) ∷ m else (j, w) ∷ put k v m)

  unfoldable pub erase : Text → List (Text × V) → List (Text × V)
  erase k [] = []
  erase k ((j, w) ∷ m) = if text_eq k j then erase k m else (j, w) ∷ erase k m

  -- What `m[k]` reads, which is a value-initialised `d` on a missing key.
  unfoldable pub at_or : V → Text → List (Text × V) → V
  at_or d k m = get_or_else d (lookup k m)

  pub lookup-put_self : (k : Text) (v : V) (m : List (Text × V)) → lookup k (put k v m) ≡ some v
  unfolding lookup put
  lookup-put_self k v [] = rw (text_eq_refl k) refl
  lookup-put_self k v ((j, w) ∷ m) = ground (arith, text_eq_refl k, lookup-put_self k v m)

  pub lookup-put_other :
      (i k : Text) (v : V) (m : List (Text × V)) → i ≢ k → lookup i (put k v m) ≡ lookup i m
  unfolding lookup put
  lookup-put_other i k v [] ne = rw (text_eq-ne i k ne) refl
  lookup-put_other i k v ((j, w) ∷ m) ne =
      ground (arith, text_eq-ne i k ne, text_eq-true k j, lookup-put_other i k v m ne)

  pub lookup-erase_self : (k : Text) (m : List (Text × V)) → lookup k (erase k m) ≡ none
  unfolding lookup erase
  lookup-erase_self k [] = refl
  lookup-erase_self k ((j, w) ∷ m) = ground (arith, lookup-erase_self k m)

  pub lookup-erase_other :
      (i k : Text) (m : List (Text × V)) → i ≢ k → lookup i (erase k m) ≡ lookup i m
  unfolding lookup erase
  lookup-erase_other i k [] ne = refl
  lookup-erase_other i k ((j, w) ∷ m) ne =
      ground (arith, text_eq-ne i k ne, text_eq-true k j, lookup-erase_other i k m ne)

  pub at_or-put_self : (d : V) (k : Text) (v : V) (m : List (Text × V)) → at_or d k (put k v m) ≡ v
  unfolding at_or
  at_or-put_self d k v m = ap (get_or_else d) (lookup-put_self k v m)

  pub at_or-put_other :
      (d : V) (i k : Text) (v : V) (m : List (Text × V))
      → i ≢ k
      → at_or d i (put k v m) ≡ at_or d i m
  unfolding at_or
  at_or-put_other d i k v m ne = ap (get_or_else d) (lookup-put_other i k v m ne)

  pub at_or-erase_self : (d : V) (k : Text) (m : List (Text × V)) → at_or d k (erase k m) ≡ d
  unfolding at_or
  at_or-erase_self d k m = ap (get_or_else d) (lookup-erase_self k m)

  pub at_or-erase_other :
      (d : V) (i k : Text) (m : List (Text × V)) → i ≢ k → at_or d i (erase k m) ≡ at_or d i m
  unfolding at_or
  at_or-erase_other d i k m ne = ap (get_or_else d) (lookup-erase_other i k m ne)

  pub at_or-missing : (d : V) (k : Text) (m : List (Text × V)) → lookup k m ≡ none → at_or d k m ≡ d
  unfolding at_or
  at_or-missing d k m h = ap (get_or_else d) h

  pub at_or-known :
      (d v : V) (k : Text) (m : List (Text × V)) → lookup k m ≡ some v → at_or d k m ≡ v
  unfolding at_or
  at_or-known d v k m h = ap (get_or_else d) h
