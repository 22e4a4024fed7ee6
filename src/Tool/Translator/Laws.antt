-- ===== src/Tool/Translator/Laws.antt =====
-- Which files a call of configtxlator leaves.
use mathlib.Core.Path.{subst}
use fabric_common.Base.{
  ℕ, suc, ◌≡◌, refl, sym, ap, ◌∙◌, ◌⊎◌, inl, inr, Bool, true, false, not, Option, none, some, List,
  [], ◌∷◌, ◌&&◌, ◌||◌, arith, Text, text_eq, text_eq_iff, any, all, length, Bool-cases,
}
use fabric_common.Base.Result.{Result, ok, err}
use fabric_common.Endorsement.Check.{Bytes}
use fabric_common.Tool.Disk.{
  Disk, CreateTmp, IsFresh, path_exists, remove_file, path_exists-write_file,
  path_exists-remove_file, read_file-path_exists,
}
use fabric_common.Tool.Translator.{
  Failure, run_failed, Tmp, create_all, write_one, write_all, remove_all, last_path, finish_run,
  on_files, compute_update, update_cmd,
}

abbrev pub mem : Text → List Text → Bool
mem q ps = any (λ p. text_eq p q) ps

-- That no two of the paths are one.
abbrev pub distinct : List Text → Bool
distinct [] = true
distinct (p ∷ ps) = not (mem p ps) && distinct ps

module _ (create : CreateTmp) (fresh : IsFresh create) where
  path_exists-create_all :
      (ts : List Tmp) (d : Disk) (q : Text)
      → path_exists q (create_all create ts d).1
        ≡ mem q (create_all create ts d).0 || path_exists q d
  unfolding create_all
  path_exists-create_all [] d q = refl
  path_exists-create_all (t ∷ ts) d q =
      let d1 = (create t.postfix d).1 in
      ground (arith, path_exists-create_all ts d1 q, fresh.path_exists-after t.postfix d q)

  create_all-new :
      (ts : List Tmp) (d : Disk) (q : Text)
      → mem q (create_all create ts d).0 ≡ true
      → path_exists q d ≡ false
  unfolding create_all
  create_all-new [] d q h = absurd (cc)
  create_all-new (t ∷ ts) d q h =
      let p = (create t.postfix d).0 in
      let d1 = (create t.postfix d).1 in
      let after = fresh.path_exists-after t.postfix d q in
      elim (Bool-cases (text_eq p q)) [
        | inl e ↦
            ap (λ r. path_exists r d) (sym (ground (arith, text_eq_iff p q)))
            ∙ fresh.path_exists-before t.postfix d
        | inr f ↦ sym (rw f at after) ∙ create_all-new ts d1 q (rw f at h)
      ]

  -- What is made later is not made earlier, so no two of the files are one.
  distinct-create_all : (ts : List Tmp) (d : Disk) → distinct (create_all create ts d).0 ≡ true
  unfolding create_all
  distinct-create_all [] d = refl
  distinct-create_all (t ∷ ts) d =
      let p = (create t.postfix d).0 in
      let d1 = (create t.postfix d).1 in
      let after = fresh.path_exists-after t.postfix d p in
      elim (Bool-cases (mem p (create_all create ts d1).0)) [
        | inr f ↦ rw f (distinct-create_all ts d1)
        | inl m ↦
            let same = text_eq_iff p p in
            let gone = create_all-new ts d1 p m in absurd (ground (arith, same, gone, after))
      ]

  length-create_all : (ts : List Tmp) (d : Disk) → length (create_all create ts d).0 ≡ length ts
  unfolding create_all
  length-create_all [] d = refl
  length-create_all (t ∷ ts) d = ap suc (length-create_all ts (create t.postfix d).1)

path_exists-write_one :
    (c : Option Bytes) (p : Text) (d : Disk) (q : Text)
    → path_exists p d ≡ true
    → path_exists q (write_one c p d) ≡ path_exists q d
path_exists-write_one none p d q h = refl
path_exists-write_one (some c) p d q h = elim (Bool-cases (text_eq p q)) [
  | inl e ↦
      let same : p ≡ q = ground (arith, text_eq_iff p q) in
      path_exists-write_file p q c d ∙ rw e (sym (ap (λ r. path_exists r d) (sym same) ∙ h))
  | inr f ↦ path_exists-write_file p q c d ∙ rw f refl
]

path_exists-write_all :
    (ts : List Tmp) (ps : List Text) (d : Disk) (q : Text)
    → ((p : Text) → mem p ps ≡ true → path_exists p d ≡ true)
    → path_exists q (write_all ts ps d) ≡ path_exists q d
unfolding write_all
path_exists-write_all [] ps d q h = refl
path_exists-write_all (t ∷ ts) [] d q h = refl
path_exists-write_all (t ∷ ts) (p ∷ ps) d q h =
    let there = h p (ground (arith, text_eq_iff p p)) in
    path_exists-write_all ts ps (write_one t.content p d) q
      (λ r k. path_exists-write_one t.content p d r there ∙ h r (ground (arith)))
    ∙ path_exists-write_one t.content p d q there

path_exists-remove_all :
    (ps : List Text) (d : Disk) (q : Text)
    → path_exists q (remove_all ps d) ≡ not (mem q ps) && path_exists q d
unfolding remove_all
path_exists-remove_all [] d q = refl
path_exists-remove_all (p ∷ ps) d q =
    ground (arith, path_exists-remove_all ps (remove_file p d) q, path_exists-remove_file p q d)

last_path-mem : (p : Text) (ps : List Text) → mem (last_path (p ∷ ps)) (p ∷ ps) ≡ true
last_path-mem p [] = ground (arith, text_eq_iff p p)
last_path-mem p (q ∷ ps) = ground (arith, last_path-mem q ps)

removed :
    (m before after : Bool)
    → after ≡ m || before
    → (m ≡ true → before ≡ false)
    → not m && after ≡ before
removed true before after h k = sym (k refl)
removed false before after h k = h

all-new :
    (ps : List Text) (d : Disk)
    → ((q : Text) → mem q ps ≡ true → path_exists q d ≡ false)
    → all (λ p. not (path_exists p d)) ps ≡ true
all-new [] d h = refl
all-new (p ∷ ps) d h =
    rw (h p (ground (arith, text_eq_iff p p))) (all-new ps d (λ q k. h q (ground arith)))

-- A run makes no file and removes none: its output is there before.
abbrev pub KeepsFiles : {X : Type 0} → (Text → Disk → Result X (Unit {0}) × Disk) → Type 0
KeepsFiles run =
    (command : Text) (d : Disk) (q : Text) → path_exists q (run command d).1 ≡ path_exists q d

module _ {X : Type 0} (create : CreateTmp) (run : Text → Disk → Result X (Unit {0}) × Disk)
    (fresh : IsFresh create) (keeps : KeepsFiles run) where
  -- The files of a call, when the binary has run.
  path_exists-run :
      (ts : List Tmp) (command : List Text → Text) (d : Disk) (q : Text)
      → let made = create_all create ts d in
        path_exists q (run (command made.0) (write_all ts made.0 made.1)).1
        ≡ mem q made.0 || path_exists q d
  path_exists-run ts command d q =
      let made = create_all create ts d in
      keeps (command made.0) (write_all ts made.0 made.1) q
      ∙ path_exists-write_all ts made.0 made.1 q
          (λ p h. path_exists-create_all create fresh ts d p ∙ rw h refl)
      ∙ path_exists-create_all create fresh ts d q

  -- What the end of a call leaves, from what the run leaves.
  finish_run-ok :
      (p : Text) (ps : List Text) (d d' : Disk)
      → ((q : Text) → path_exists q d' ≡ mem q (p ∷ ps) || path_exists q d)
      → ((q : Text) → mem q (p ∷ ps) ≡ true → path_exists q d ≡ false)
      → (b : Bytes) × ((finish_run create run (p ∷ ps) (ok tt, d')).0 ≡ ok b)
        × ((q : Text)
            → path_exists q (finish_run create run (p ∷ ps) (ok tt, d')).1 ≡ path_exists q d)
  finish_run-ok p ps d d' after new =
      let (b, found) =
        read_file-path_exists (last_path (p ∷ ps)) d'
          (after (last_path (p ∷ ps)) ∙ rw (last_path-mem p ps) refl) in
      (
        b,
        rw found refl,
        λ q. rw found (
            path_exists-remove_all (p ∷ ps) d' q
            ∙ removed (mem q (p ∷ ps)) (path_exists q d) (path_exists q d') (after q) (new q)),
      )

  -- What a call has come to, and the files behind it.
  abbrev pub Settled : Disk → ℕ → Result (Failure X) Bytes × Disk → Type 0
  Settled d n r =
      ((b : Bytes) × (r.0 ≡ ok b) × ((q : Text) → path_exists q r.1 ≡ path_exists q d))
      ⊎ ((x : X) × (ps : List Text) × (r.0 ≡ err (run_failed x))
          × (length ps ≡ n)
          × (distinct ps ≡ true)
          × (all (λ p. not (path_exists p d)) ps ≡ true)
          × ((q : Text) → path_exists q r.1 ≡ mem q ps || path_exists q d))

  finish_run-Settled :
      (p : Text) (ps : List Text) (d : Disk) (r : Result X (Unit {0}) × Disk)
      → distinct (p ∷ ps) ≡ true
      → ((q : Text) → path_exists q r.1 ≡ mem q (p ∷ ps) || path_exists q d)
      → ((q : Text) → mem q (p ∷ ps) ≡ true → path_exists q d ≡ false)
      → Settled d (length (p ∷ ps)) (finish_run create run (p ∷ ps) r)
  finish_run-Settled p ps d (ok u, d') apart after new = inl (finish_run-ok p ps d d' after new)
  finish_run-Settled p ps d (err x, d') apart after new =
      inr (x, p ∷ ps, refl, refl, apart, all-new (p ∷ ps) d new, after)

  on_files-Settled :
      (t : Tmp) (ts : List Tmp) (command : List Text → Text) (d : Disk)
      → Settled d (suc (length ts)) (on_files create run (t ∷ ts) command d)
  unfolding on_files create_all
  on_files-Settled t ts command d =
      let p = (create t.postfix d).0 in
      let ps = (create_all create ts (create t.postfix d).1).0 in
      let made = create_all create (t ∷ ts) d in
      subst (λ n. Settled d n (on_files create run (t ∷ ts) command d))
        (length-create_all create fresh (t ∷ ts) d)
        (finish_run-Settled p ps d (run (command made.0) (write_all (t ∷ ts) made.0 made.1))
          (distinct-create_all create fresh (t ∷ ts) d) (path_exists-run (t ∷ ts) command d)
          (create_all-new create fresh (t ∷ ts) d))

  -- Where a temporary file is new when it is made and a run makes and removes no file, the
  -- computation of an update returns, and the files are those of before; or the run throws, and the
  -- files are those of before and three different ones that were not there.
  pub compute_update-Settled :
      (resolve : Text → Text → Text) (bin_path channel : Text) (original updated : Bytes) (d : Disk)
      → Settled d 3 (compute_update create run resolve bin_path channel original updated d)
  unfolding compute_update
  compute_update-Settled resolve bin_path channel original updated d =
      on_files-Settled record { postfix = []; content = some original }
        (record { postfix = []; content = some updated }
          ∷ record { postfix = []; content = none }
          ∷ [])
        (update_cmd create run resolve bin_path channel) d
