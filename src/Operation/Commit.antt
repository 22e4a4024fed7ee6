-- ===== src/Operation/Commit.antt =====
-- The commit of `ChaincodeLifecycleOperation.approve` of nodejs/chaincodeOperation.js: it asks the
-- orderer again as long as that has no Raft leader. `sdk n` is the SDK at the n-th commit, since what
-- an orderer answers changes with time. The sleep between two commits is left out.
pub mod Laws
use fabric_common.Base.{
  ℕ, zero, suc, Bool, Option, none, some, Text, codes, text_eq, ◌&&◌, if◌then◌else◌,
}
use fabric_common.Base.Result.{Result, ok, err}
use fabric_common.Endorsement.Check.{Thrown, Commit, commit_success}
use fabric_common.Endorsement.Manager.{Sdk, Manager, commit}
use fabric_common.Operation.Outcome.{
  Failure, proposal, no_leader, Outcome, returned, threw, waiting,
}

unfoldable pub has_no_leader : Commit → Bool
has_no_leader c =
    text_eq c.status (codes "SERVICE_UNAVAILABLE") && text_eq c.info (codes "no Raft leader")

module _ {E X : Type 0} where
  abbrev pub check_commit : Result (Thrown E) Commit → Outcome (Failure E X) Commit
  check_commit (ok c) = returned c
  check_commit (err x) = threw (proposal x)

  -- What one commit comes to; `none` is to try again.
  unfoldable pub judge_commit :
      Bool → Result (Thrown E) Commit → Option (Outcome (Failure E X) Commit)
  unfolding has_no_leader commit_success
  judge_commit wait (err x) = some (threw (proposal x))
  judge_commit wait (ok c) =
      let retry = if wait then none else some (threw (no_leader c.info)) in
      if has_no_leader c then retry else some (check_commit (commit_success c))

  module _ {Payload Signed : Type 0} (sdk : ℕ → Sdk E Payload Signed) where
    -- `_commit` at most `fuel` times, from the n-th commit on.
    unfoldable pub commit_from : ℕ → ℕ → Bool → Manager E Payload → Outcome (Failure E X) Commit
    unfolding judge_commit
    commit_from zero n wait m = waiting
    commit_from (suc fuel) n wait m =
        let rest = commit_from fuel (suc n) wait m in
        elim (judge_commit wait (commit (sdk n) none m)) [ none ↦ rest | some o ↦ o ]
