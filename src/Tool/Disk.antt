-- ===== src/Tool/Disk.antt =====
-- The files that a run sees, by path, and the temporary files of `createTmpFile`, which is a
-- parameter. A write does not fail here.
use fabric_common.Base.{
  ◌≡◌, refl, inl, inr, Bool, true, false, not, Option, none, some, List, [], ◌∷◌, ◌&&◌, ◌||◌, arith,
  Text, text_eq, if◌then◌else◌, text_eq_iff, Bool-cases,
}
use fabric_common.Endorsement.Check.{Bytes}

abbrev pub Disk : Type 0
Disk = List (Text × Bytes)

unfoldable pub read_file : Text → Disk → Option Bytes
read_file p [] = none
read_file p ((q, b) ∷ d) = if text_eq q p then some b else read_file p d

unfoldable pub path_exists : Text → Disk → Bool
path_exists p [] = false
path_exists p ((q, b) ∷ d) = text_eq q p || path_exists p d

unfoldable pub write_file : Text → Bytes → Disk → Disk
write_file p c [] = (p, c) ∷ []
write_file p c ((q, b) ∷ d) =
    let rest = write_file p c d in if text_eq q p then (q, c) ∷ d else (q, b) ∷ rest

unfoldable pub remove_file : Text → Disk → Disk
remove_file p [] = []
remove_file p ((q, b) ∷ d) =
    let rest = remove_file p d in if text_eq q p then rest else (q, b) ∷ rest

-- `createTmpFile({postfix})`: the path of the new file, and the files with it.
abbrev pub CreateTmp : Type 0
CreateTmp = Text → Disk → Text × Disk

-- The file is new, and no other changes.
pub record IsFresh (create : CreateTmp) : Type 0 where
  pub path_exists-before : (x : Text) (d : Disk) → path_exists (create x d).0 d ≡ false
  pub path_exists-after :
      (x : Text) (d : Disk) (q : Text)
      → path_exists q (create x d).1 ≡ text_eq (create x d).0 q || path_exists q d

pub path_exists-write_file :
    (p q : Text) (c : Bytes) (d : Disk)
    → path_exists q (write_file p c d) ≡ text_eq p q || path_exists q d
unfolding path_exists write_file
path_exists-write_file p q c [] = ground arith
path_exists-write_file p q c ((r, b) ∷ d) =
    ground
      (arith, text_eq_iff r p, text_eq_iff r q, text_eq_iff p q, path_exists-write_file p q c d)

pub path_exists-remove_file :
    (p q : Text) (d : Disk) → path_exists q (remove_file p d) ≡ not (text_eq p q) && path_exists q d
unfolding path_exists remove_file
path_exists-remove_file p q [] = ground arith
path_exists-remove_file p q ((r, b) ∷ d) =
    ground (arith, text_eq_iff r p, text_eq_iff r q, text_eq_iff p q, path_exists-remove_file p q d)

pub read_file-path_exists :
    (p : Text) (d : Disk) → path_exists p d ≡ true → (b : Bytes) × (read_file p d ≡ some b)
unfolding path_exists read_file
read_file-path_exists p [] h = absurd (cc)
read_file-path_exists p ((q, b) ∷ d) h = elim (Bool-cases (text_eq q p)) [
  | inl t ↦ (b, rw t refl)
  | inr f ↦ rw f (read_file-path_exists p d (rw f at h))
]
