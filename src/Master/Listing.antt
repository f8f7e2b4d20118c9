-- ===== src/Master/Listing.antt =====
-- The files that a listing of a directory gives, apart from how the assigners go through it.
use husky_kylin.Prelude.{
  ℕ, ◌≡◌, ◌≢◌, ◌⊎◌, inl, inr, arith, refl, ap, sym, ◌∙◌, subst, true, false, Bool-cases, Option,
  none, some, Option-cases, List, [], ◌∷◌, ◌++◌, Text, text_eq, text_eq_refl, text_eq-true,
}
use husky_kylin.Collections.All.{All}
use husky_kylin.Collections.Dict.{lookup, put, lookup-put_self, lookup-put_other}
use husky_kylin.Collections.Sorted.{IsSorted, put-IsSorted}
use husky_kylin.Master.Hdfs.{FileInfo}

-- The entries that are files.
abbrev pub files_only : List FileInfo → List FileInfo
files_only [] = []
files_only (info ∷ infos) = elim info.is_file as (λ x. List FileInfo) [
  | true ↦ info ∷ files_only infos
  | false ↦ files_only infos
]

-- The names before the first at which the reader throws, with what it says of them.
abbrev pub readable : (Text → Option ℕ) → List FileInfo → List (Text × ℕ)
readable size [] = []
readable size (info ∷ infos) = elim (size info.name) as (λ x. List (Text × ℕ)) [
  | none ↦ []
  | some n ↦ (info.name, n) ∷ readable size infos
]

abbrev pub files_listed : (Text → Option ℕ) → List FileInfo → List (Text × ℕ)
files_listed size infos = readable size (files_only infos)

-- An entry that does not end the reading.
abbrev pub IsPassed : (Text → Option ℕ) → FileInfo → Type 0
IsPassed size info = (info.is_file ≡ false) ⊎ ((n : ℕ) × (size info.name ≡ some n))

module _ (size : Text → Option ℕ) where
  pub files_listed-append :
      (earlier later : List FileInfo)
      → All (IsPassed size) earlier
      → files_listed size (earlier ++ later) ≡ files_listed size earlier ++ files_listed size later
  files_listed-append [] later passed = refl
  files_listed-append (info ∷ earlier) later (p, passed) = elim p [
    | inl dir ↦ rw dir (files_listed-append earlier later passed)
    | inr (n, e) ↦ elim (Bool-cases info.is_file) [
      | inl file ↦
          rw (file, readable, e)
            (ap (λ fs. (info.name, n) ∷ fs) (files_listed-append earlier later passed))
      | inr dir ↦ rw dir (files_listed-append earlier later passed)
    ]
  ]

  pub files_listed-cons :
      (info : FileInfo) (n : ℕ) (later : List FileInfo)
      → info.is_file ≡ true
      → size info.name ≡ some n
      → files_listed size (info ∷ later) ≡ (info.name, n) ∷ files_listed size later
  files_listed-cons info n later file e = rw (file, readable, e) refl

  module _ {ℓ} (P : Text → Type ℓ) where
    pub files_listed-All :
        (infos : List FileInfo)
        → All (λ info. P info.name) infos
        → All (λ f. P f.0) (files_listed size infos)
    files_listed-All [] all = tt
    files_listed-All (info ∷ infos) (p, all) = elim (Bool-cases info.is_file) [
      | inr dir ↦ rw dir (files_listed-All infos all)
      | inl file ↦ elim (Option-cases (size info.name)) [
        | inl e ↦ rw (file, readable, e) tt
        | inr (n, e) ↦ rw (file, readable, e) (p, files_listed-All infos all)
      ]
    ]

  -- The number of a listed file is the reader's.
  pub files_listed-size :
      (infos : List FileInfo) → All (λ f. size f.0 ≡ some f.1) (files_listed size infos)
  files_listed-size [] = tt
  files_listed-size (info ∷ infos) = elim (Bool-cases info.is_file) [
    | inr dir ↦ rw dir (files_listed-size infos)
    | inl file ↦ elim (Option-cases (size info.name)) [
      | inl e ↦ rw (file, readable, e) tt
      | inr (n, e) ↦ rw (file, readable, e) (e, files_listed-size infos)
    ]
  ]

-- A map with the same entries as a list of files, whose names ascend.
pub record IsMapOf (files sizes : List (Text × ℕ)) : Type 0 where
  pub ascending : IsSorted sizes
  pub same : (name : Text) → lookup name sizes ≡ lookup name files

-- The files put into a map one after the other.
abbrev pub sizes_of : List (Text × ℕ) → List (Text × ℕ) → List (Text × ℕ)
sizes_of [] sizes = sizes
sizes_of ((name, n) ∷ files) sizes = sizes_of files (put name n sizes)

sizes_of-IsSorted :
    (files sizes : List (Text × ℕ)) → IsSorted sizes → IsSorted (sizes_of files sizes)
sizes_of-IsSorted [] sizes sorted = sorted
sizes_of-IsSorted ((name, n) ∷ files) sizes sorted =
    sizes_of-IsSorted files (put name n sizes) (put-IsSorted name n sizes sorted)

-- What the map has for a name: what the files have, or else what was there.
abbrev or_else : Option ℕ → Option ℕ → Option ℕ
or_else none b = b
or_else (some a) b = some a

module _ (size : Text → Option ℕ) where
  lookup-size :
      (files : List (Text × ℕ)) (name : Text) (n : ℕ)
      → All (λ f. size f.0 ≡ some f.1) files
      → lookup name files ≡ some n
      → size name ≡ some n
  unfolding lookup
  lookup-size [] name n all e = absurd (ground (arith, e))
  lookup-size ((other, m) ∷ files) name n (here, all) e = elim (Bool-cases (text_eq name other)) [
    | inl same ↦
        let value : m ≡ n = ground (arith, same, e) in
        ap size (text_eq-true name other same) ∙ here ∙ ap some value
    | inr ne ↦ lookup-size files name n all (ground (arith, ne, e))
  ]

  lookup-sizes_of :
      (files sizes : List (Text × ℕ)) (name : Text)
      → All (λ f. size f.0 ≡ some f.1) files
      → lookup name (sizes_of files sizes) ≡ or_else (lookup name files) (lookup name sizes)
  unfolding lookup
  lookup-sizes_of [] sizes name all = refl
  lookup-sizes_of ((other, m) ∷ files) sizes name (here, all) =
      elim (Bool-cases (text_eq name other)) [
        | inr ne ↦
            let differ : name ≢ other =
              λ e. ground (arith, ne, subst (λ x. text_eq name x ≡ true) e (text_eq_refl name)) in
            rw ne (
              lookup-sizes_of files (put other m sizes) name all
              ∙ ap (or_else (lookup name files)) (lookup-put_other name other m sizes differ))
        | inl same ↦
            let e = text_eq-true name other same in
            let put_there : lookup name (put other m sizes) ≡ some m =
              subst (λ x. lookup x (put other m sizes) ≡ some m) (sym e)
                (lookup-put_self other m sizes) in
            rw same (
              lookup-sizes_of files (put other m sizes) name all
              ∙ elim (Option-cases (lookup name files)) [
                | inl missing ↦ rw missing put_there
                | inr (n, found) ↦
                    rw found (sym (lookup-size files name n all found) ∙ ap size e ∙ here)
              ])
      ]

  pub sizes_of-IsMapOf :
      (infos : List FileInfo)
      → IsMapOf (files_listed size infos) (sizes_of (files_listed size infos) [])
  unfolding lookup
  sizes_of-IsMapOf infos = record {
    ascending = sizes_of-IsSorted (files_listed size infos) [] tt;
    same = λ name.
        lookup-sizes_of (files_listed size infos) [] name (files_listed-size size infos)
        ∙ or_none (lookup name (files_listed size infos));
  }
    where
      or_none : (a : Option ℕ) → or_else a none ≡ a
      or_none none = refl
      or_none (some a) = refl
