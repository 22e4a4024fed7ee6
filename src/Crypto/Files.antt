-- ===== src/Crypto/Files.antt =====
-- The file system that the code works on, and what it assumes of it. `child d t` is
-- `path.resolve(d, t)`. A write does not fail here.
pub mod Memory
use fabric_common.Base.{
  ℕ, ◌≡◌, ◌≢◌, Bool, true, false, Option, none, some, List, [], ◌∷◌, ◌||◌, ◌&&◌, Text, text_eq, any,
  all, is_word,
}

abbrev pub Bytes : Type 0
Bytes = List ℕ

pub record FileSystem : Type 1 where
  pub State : Type 0
  pub FilePath : Type 0
  pub child : FilePath → Text → FilePath
  pub dirname : FilePath → FilePath
  pub path_exists : State → FilePath → Bool
  pub ensure_dir : FilePath → State → State
  pub readdir : State → FilePath → Option (List Text)
  pub read : State → FilePath → Option Bytes
  pub output : FilePath → Bytes → State → State

abbrev pub contains : List Text → Text → Bool
contains names t = any (λ n. text_eq n t) names

pub record IsLawful (F : FileSystem) : Type 0 where
  pub read-output : (p : F.FilePath) (b : Bytes) (s : F.State) → F.read (F.output p b s) p ≡ some b
  pub read-output_other :
      (p q : F.FilePath) (b : Bytes) (s : F.State) → p ≢ q → F.read (F.output p b s) q ≡ F.read s q
  pub read-ensure_dir : (p q : F.FilePath) (s : F.State) → F.read (F.ensure_dir p s) q ≡ F.read s q
  pub path_exists-read :
      (p : F.FilePath) (s : F.State) {b : Bytes} → F.read s p ≡ some b → F.path_exists s p ≡ true
  pub readdir-read :
      (d : F.FilePath) (t : Text) (s : F.State) {b : Bytes}
      → all is_word t ≡ true
      → F.read s (F.child d t) ≡ some b
      → (names : List Text) × (F.readdir s d ≡ some names) × (contains names t ≡ true)
  pub path_exists-readdir :
      (d : F.FilePath) (t : Text) (s : F.State) {names : List Text}
      → F.readdir s d ≡ some names
      → contains names t ≡ true
      → F.path_exists s (F.child d t) ≡ true
