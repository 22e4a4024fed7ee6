-- ===== src/Crypto/Files/Memory.antt =====
-- A file system in memory: the files by their paths, the newest first. A path is the list of its
-- names, the last one first, and a directory is where a file lies.
use fabric_common.Base.{
  or_right, ◌≡◌, ◌≢◌, refl, ap, ◌∙◌, ◌↔◌, inl, inr, Bool, true, false, Option, none, some, List, [],
  ◌∷◌, ◌||◌, ◌&&◌, Text, text_eq, text_eq_iff, if◌then◌else◌, Bool-cases, arith,
}
use fabric_common.Crypto.Files.{Bytes, FileSystem, IsLawful, contains}

abbrev pub FilePath : Type 0
FilePath = List Text

abbrev pub Store : Type 0
Store = List (FilePath × Bytes)

abbrev pub path_eq : FilePath → FilePath → Bool
path_eq [] [] = true
path_eq (s ∷ p) (t ∷ q) = text_eq s t && path_eq p q
path_eq _ _ = false

path_eq_iff : (p q : FilePath) → (path_eq p q ≡ true) ↔ (p ≡ q)
path_eq_iff [] [] = ground arith
path_eq_iff [] (t ∷ q) = ground arith
path_eq_iff (s ∷ p) [] = ground arith
path_eq_iff (s ∷ p) (t ∷ q) = ground (arith, text_eq_iff s t, path_eq_iff p q)

abbrev pub child : FilePath → Text → FilePath
child d t = t ∷ d

abbrev pub dirname : FilePath → FilePath
dirname [] = []
dirname (t ∷ d) = d

abbrev pub read : Store → FilePath → Option Bytes
read [] q = none
read ((p, b) ∷ s) q = let rest = read s q in if path_eq p q then some b else rest

-- `p` is the path or one of the directories above it.
abbrev pub lies_in : FilePath → FilePath → Bool
lies_in [] p = path_eq [] p
lies_in (t ∷ q) p = path_eq (t ∷ q) p || lies_in q p

abbrev pub path_exists : Store → FilePath → Bool
path_exists [] p = false
path_exists ((q, b) ∷ s) p = lies_in q p || path_exists s p

abbrev pub add_name : FilePath → FilePath → List Text → List Text
add_name d [] names = names
add_name d (t ∷ e) names = if path_eq e d then t ∷ names else names

abbrev pub names_in : Store → FilePath → List Text
names_in [] d = []
names_in ((p, b) ∷ s) d = add_name d p (names_in s d)

abbrev pub non_empty : List Text → Option (List Text)
non_empty [] = none
non_empty (n ∷ names) = some (n ∷ names)

abbrev pub memory : FileSystem
memory = record {
  State = Store;
  FilePath = FilePath;
  child = child;
  dirname = dirname;
  path_exists = path_exists;
  ensure_dir = λ p s. s;
  readdir = λ s d. non_empty (names_in s d);
  read = read;
  output = λ p b s. (p, b) ∷ s;
}

lies_in_refl : (p q : FilePath) → path_eq q p ≡ true → lies_in q p ≡ true
lies_in_refl p [] h = h
lies_in_refl p (t ∷ q) h = rw h refl

path_exists_read :
    (p : FilePath) (s : Store) {b : Bytes} → read s p ≡ some b → path_exists s p ≡ true
path_exists_read p [] h = absurd (cc)
path_exists_read p ((q, c) ∷ s) h = elim (Bool-cases (path_eq q p)) [
  | inl t ↦ rw (lies_in_refl p q t) refl
  | inr f ↦ ground (arith, path_exists_read p s (rw f at h))
]

read_rest :
    (p q : FilePath) (c : Bytes) (s : Store) {b : Bytes}
    → path_eq p q ≡ false
    → read ((p, c) ∷ s) q ≡ some b
    → read s q ≡ some b
read_rest p q c s f h = rw f at h

names_read :
    (d : FilePath) (t : Text) (s : Store) {b : Bytes}
    → read s (t ∷ d) ≡ some b
    → contains (names_in s d) t ≡ true
names_read d t [] h = absurd (cc)
names_read d t (([], c) ∷ s) h = names_read d t s h
names_read d t ((u ∷ e, c) ∷ s) h = elim (Bool-cases (path_eq e d)) [
  | inr f ↦
      let apart : path_eq (u ∷ e) (t ∷ d) ≡ false = ground (arith, f) in
      rw f (names_read d t s (read_rest (u ∷ e) (t ∷ d) c s apart h))
  | inl k ↦ elim (Bool-cases (text_eq u t)) [
    | inl same ↦ rw (k, same) refl
    | inr other ↦
        let apart : path_eq (u ∷ e) (t ∷ d) ≡ false = rw other refl in
        rw (k, other) (names_read d t s (read_rest (u ∷ e) (t ∷ d) c s apart h))
  ]
]

exists_names :
    (d : FilePath) (t : Text) (s : Store)
    → contains (names_in s d) t ≡ true
    → path_exists s (t ∷ d) ≡ true
exists_names d t [] h = absurd (cc)
exists_names d t (([], c) ∷ s) h = exists_names d t s h
exists_names d t ((u ∷ e, c) ∷ s) h = elim (Bool-cases (path_eq e d)) [
  | inr f ↦
      or_right (lies_in (u ∷ e) (t ∷ d)) (path_exists s (t ∷ d)) (exists_names d t s (rw f at h))
  | inl k ↦ elim (Bool-cases (text_eq u t)) [
    | inl same ↦ rw (same, k) refl
    | inr other ↦
        or_right (lies_in (u ∷ e) (t ∷ d)) (path_exists s (t ∷ d))
          (exists_names d t s (rw other at rw k at h))
  ]
]

listed : (names : List Text) (t : Text) → contains names t ≡ true → non_empty names ≡ some names
listed [] t h = absurd (cc)
listed (n ∷ names) t h = refl

listed_names :
    (all_names : List Text) {names : List Text}
    → non_empty all_names ≡ some names
    → all_names ≡ names
listed_names [] h = absurd (cc)
listed_names (n ∷ rest) h = cc

pub memory-IsLawful : IsLawful memory
memory-IsLawful = record {
  read-output = λ p b s. rw ((path_eq_iff p p).1 refl) refl;
  read-output_other = λ p q b s apart. elim (Bool-cases (path_eq p q)) [
    | inl t ↦ absurd (apart ((path_eq_iff p q).0 t))
    | inr f ↦ rw f refl
  ];
  read-ensure_dir = λ p q s. refl;
  path_exists-read = λ p s h. path_exists_read p s h;
  readdir-read =
      λ d t s w h. let has = names_read d t s h in (names_in s d, listed (names_in s d) t has, has);
  path_exists-readdir = λ d t s h has.
      exists_names d t s (ap (λ ns. contains ns t) (listed_names (names_in s d) h) ∙ has);
}

pub path_eq-apart : (p q : FilePath) → path_eq p q ≡ false → p ≢ q
path_eq-apart p q h e = let same : path_eq p q ≡ true = (path_eq_iff p q).1 e in absurd (cc)
