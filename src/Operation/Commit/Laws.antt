-- ===== src/Operation/Commit/Laws.antt =====
-- What the repeated commit comes to.
use mathlib.Core.Path.{subst}
use fabric_common.Base.{
  conditions, ℕ, zero, suc, ◌+◌, ◌<◌, ◌≡◌, refl, ap, ◌∙◌, inl, inr, Bool, true, false, Option, none,
  some, [], ◌∷◌, Text, codes, text_eq, is_empty, ◌&&◌, if◌then◌else◌, arith, Bool-cases,
  Option-cases, text_eq_iff, some_inj,
}
use fabric_common.Base.Result.{Result, ok, err}
use fabric_common.Endorsement.Check.{Commit, Thrown, commit_success}
use fabric_common.Endorsement.Manager.{Sdk, Manager, commit}
use fabric_common.Operation.Outcome.{Failure, no_leader, Outcome, returned, threw}
use fabric_common.Operation.Commit.{has_no_leader, check_commit, judge_commit, commit_from}

abbrev pub IsSuccess : Commit → Type 0
IsSuccess c = (c.status ≡ codes "SUCCESS") × (c.info ≡ [])

module _ {E Payload Signed : Type 0} (sdk : ℕ → Sdk E Payload Signed) (m : Manager E Payload) where
  -- The n-th commit finds no leader.
  abbrev pub IsLeaderless : ℕ → Type 0
  IsLeaderless n = (c : Commit) × (commit (sdk n) none m ≡ ok c) × (has_no_leader c ≡ true)

  -- So do `k` commits from the n-th on.
  abbrev pub AreLeaderless : ℕ → ℕ → Type 0
  AreLeaderless n zero = Unit
  AreLeaderless n (suc k) = IsLeaderless n × AreLeaderless (suc n) k

  -- The commit number `n` succeeds.
  abbrev pub IsCommitted : ℕ → Type 0
  IsCommitted n = (c : Commit) × (commit (sdk n) none m ≡ ok c) × IsSuccess c

no_info : (s : Text) → is_empty s ≡ true → s ≡ []
no_info [] h = refl
no_info (c ∷ s) h = absurd (cc)

module _ {E X : Type 0} where
  passes :
      (c : Commit) {d : Commit}
      → ◌≡◌ {A = Outcome (Failure E X) Commit} (check_commit (commit_success c)) (returned d)
      → text_eq c.status (codes "SUCCESS") && is_empty c.info ≡ true
  unfolding commit_success
  passes c h = elim (Bool-cases (text_eq c.status (codes "SUCCESS") && is_empty c.info)) [
    | inl s ↦ s
    | inr s ↦ absurd (cc (rw s at h))
  ]

  success :
      (c : Commit) {d : Commit}
      → ◌≡◌ {A = Outcome (Failure E X) Commit} (check_commit (commit_success c)) (returned d)
      → IsSuccess c
  unfolding commit_success
  success c h =
      let (s, i) = conditions (text_eq c.status (codes "SUCCESS")) (is_empty c.info) (passes c h) in
      ((text_eq_iff c.status (codes "SUCCESS")).0 s, no_info c.info i)

  again :
      (wait : Bool) (r : Result (Thrown E) Commit)
      → ◌≡◌ {A = Option (Outcome (Failure E X) Commit)} (judge_commit wait r) none
      → (c : Commit) × (r ≡ ok c) × (has_no_leader c ≡ true)
  unfolding judge_commit
  again wait (err x) h = absurd (cc)
  again wait (ok c) h = elim (Bool-cases (has_no_leader c)) [
    | inl t ↦ (c, refl, t)
    | inr f ↦ absurd (cc (rw f at h))
  ]

  refused :
      (wait : Bool) (c : Commit) {d : Commit}
      → ◌≡◌ {A = Option (Outcome (Failure E X) Commit)}
          (if wait then none else some (threw (no_leader c.info)))
          (some (returned d))
      → ⊥
  refused true c h = cc
  refused false c h = cc

  done :
      (wait : Bool) (r : Result (Thrown E) Commit) {d : Commit}
      → ◌≡◌ {A = Option (Outcome (Failure E X) Commit)} (judge_commit wait r) (some (returned d))
      → (c : Commit) × (r ≡ ok c) × IsSuccess c
  unfolding judge_commit
  done wait (err x) h = absurd (cc)
  done wait (ok c) {d} h = elim (Bool-cases (has_no_leader c)) [
    | inr f ↦ (c, refl, success c (some_inj (rw f at h)))
    | inl t ↦ absurd (refused wait c (rw t at h))
  ]

module _ {E X Payload Signed : Type 0} (sdk : ℕ → Sdk E Payload Signed) (m : Manager E Payload)
    (wait : Bool) where
  -- What is returned was committed, behind commits that found no leader.
  pub commit_from-IsCommitted :
      (fuel n : ℕ) {c : Commit}
      → commit_from {X = X} sdk fuel n wait m ≡ returned c
      → (k : ℕ) × (k < fuel) × AreLeaderless sdk m n k × IsCommitted sdk m (n + k)
  unfolding commit_from
  commit_from-IsCommitted zero n h = absurd (cc)
  commit_from-IsCommitted (suc fuel) n {c} h =
      elim (Option-cases (judge_commit {X = X} wait (commit (sdk n) none m))) [
        | inl e ↦
            let (k, l, w, s) = commit_from-IsCommitted fuel (suc n) (rw (commit_from, e) at h) in
            (
              suc k,
              omega arith,
              (again {X = X} wait (commit (sdk n) none m) e, w),
              subst (IsCommitted sdk m) (omega arith) s,
            )
        | inr (o, e) ↦ (
          0,
          omega arith,
          tt,
          subst (IsCommitted sdk m) (omega arith)
              (done {X = X} wait (commit (sdk n) none m) (e ∙ ap some (rw (commit_from, e) at h))),
        )
      ]

module _ {E X Payload Signed : Type 0} (sdk : ℕ → Sdk E Payload Signed)
    (m : Manager E Payload) where
  leaderless_again :
      (r : Result (Thrown E) Commit)
      → (c : Commit) × (r ≡ ok c) × (has_no_leader c ≡ true)
      → ◌≡◌ {A = Option (Outcome (Failure E X) Commit)} (judge_commit true r) none
  unfolding judge_commit
  leaderless_again r (c, e, t) = rw e (rw t refl)

  success-judge :
      (r : Result (Thrown E) Commit)
      → (c : Commit) × (r ≡ ok c) × IsSuccess c
      → (c : Commit) × ◌≡◌ {A = Option (Outcome (Failure E X) Commit)}
          (judge_commit true r)
          (some (returned c))
  unfolding judge_commit has_no_leader commit_success
  success-judge r (c, e, (s, i)) =
      (c, rw (e, judge_commit, has_no_leader, commit_success, s, i) refl)

  -- A commit that succeeds behind fewer than `fuel` ones without a leader is returned.
  pub commit_from-returned :
      (fuel n k : ℕ)
      → k < fuel
      → AreLeaderless sdk m n k
      → IsCommitted sdk m (n + k)
      → (c : Commit) × (commit_from {X = X} sdk fuel n true m ≡ returned c)
  unfolding commit_from
  commit_from-returned zero n k h l s = elim h [ ]
  commit_from-returned (suc fuel) n zero h l s =
      let (c, e) =
        success-judge (commit (sdk n) none m) (subst (IsCommitted sdk m) (omega arith) s) in
      (c, rw (commit_from, e) refl)
  commit_from-returned (suc fuel) n (suc k) h (l, ls) s =
      let (c, e) =
        commit_from-returned fuel (suc n) k (omega arith) ls
          (subst (IsCommitted sdk m) (omega arith) s) in
      (c, rw (commit_from, leaderless_again (commit (sdk n) none m) l) e)
