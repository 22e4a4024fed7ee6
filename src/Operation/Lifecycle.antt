-- ===== src/Operation/Lifecycle.antt =====
-- `ChaincodeLifecycleOperation` of nodejs/chaincodeOperation.js. Its state is the proposal, with the
-- properties set on it, and what the setters hold. `sdk n` is the SDK at the n-th commit of a call,
-- and `sdk 0` that of its proposal. The deliveries are what the event service brings.
pub mod Laws
pub mod Approval
use fabric_common.Base.{ℕ, Bool, Option, none, some, List, Text, is_empty, ◌*◌, if◌then◌else◌}
use fabric_common.Base.Result.{Result, ok, err}
use fabric_common.Base.Decimal.{print_int}
use fabric_common.Policy.Proto.{MspRole}
use fabric_common.Policy.Collection.{EndorsementPolicy}
use fabric_common.Policy.Gate as Gate
use fabric_common.Endorsement.Check.{Bytes, Proposal, Thrown, Commit}
use fabric_common.Endorsement.Manager.{Sdk, Manager, commit}
use fabric_common.Endorsement.Lifecycle.{
  Answer, Definition, Properties, install_chaincode, approve_for_my_org, check_commit_readiness,
  commit_chaincode_definition, query_chaincode_definition,
}
use fabric_common.Events.Query.{Delivery, TxEvent, TxFailure, wait_for_tx}
use fabric_common.Operation.Outcome.{
  Failure, proposal, policy, Outcome, returned, threw, waiting, after_tx,
}
use fabric_common.Operation.Assign.{PolicySource, CollectionSource, Settings, Collections, assign}
use fabric_common.Operation.Commit.{check_commit, commit_from}

pub record Operation (E Payload : Type 0) : Type 0 where
  pub manager : Manager E Payload
  pub properties : Properties Collections
  pub settings : Settings

module _ {E Payload : Type 0} where
  abbrev pub with_manager : Operation E Payload → Manager E Payload → Operation E Payload
  with_manager o m = record o { manager = m }

  abbrev pub set_endorsement_policy :
      Option PolicySource → Operation E Payload → Operation E Payload
  set_endorsement_policy s o = record o { settings = record o.settings { endorsement_policy = s } }

  abbrev pub set_collections_config :
      Option (List CollectionSource) → Operation E Payload → Operation E Payload
  set_collections_config cs o = record o { settings = record o.settings { collections = cs } }

-- `version || _defaultVersion(sequence)`
abbrev pub version_or_default : Option Text → ℕ → Text
version_or_default none sequence = print_int sequence
version_or_default (some v) sequence = if is_empty v then print_int sequence else v

-- `version = _defaultVersion(sequence)` of a parameter: an empty version stays.
abbrev pub version_given : Option Text → ℕ → Text
version_given none sequence = print_int sequence
version_given (some v) sequence = v

module _ {E X : Type 0} where
  -- A `return result` where the flag makes the call return nothing.
  abbrev pub unless_flagged :
      {A : Type 0} → Result (Thrown E) (Answer E A) → Outcome (Failure E X) (Option (Answer E A))
  unless_flagged (err x) = threw (proposal x)
  unless_flagged (ok a) = returned (if a.flag then none else some a)

  -- A `return queryResults` unless the flag is set.
  abbrev pub found_results :
      {A : Type 0} → Result (Thrown E) (Answer E A) → Outcome (Failure E X) (Option (List A))
  found_results (err x) = threw (proposal x)
  found_results (ok a) = returned (if a.flag then none else some a.query_results)

  abbrev pub results_of :
      {A : Type 0} → Result (Thrown E) (Answer E A) → Outcome (Failure E X) (List A)
  results_of (err x) = threw (proposal x)
  results_of (ok a) = returned a.query_results

  -- The wait for the transaction behind a commit.
  unfoldable pub then_wait :
      {A C : Type 0}
      → Text
      → List (Delivery (TxFailure X) TxEvent)
      → A
      → Outcome (Failure E X) C
      → Outcome (Failure E X) A
  unfolding wait_for_tx
  then_wait valid events a (returned c) = after_tx a (wait_for_tx valid events)
  then_wait valid events a (threw x) = threw x
  then_wait valid events a waiting = waiting

module _ {E X Payload A : Type 0} where
  -- What follows `assign`, if it does not throw.
  abbrev pub with_assigned :
      Operation E Payload
      → Option Gate.Failure × Properties Collections
      → (Operation E Payload → Outcome (Failure E X) A × Operation E Payload)
      → Outcome (Failure E X) A × Operation E Payload
  with_assigned o (some x, p) k = (threw (policy x), record o { properties = p })
  with_assigned o (none, p) k = k (record o { properties = p })

module _ {E X Payload Signed : Type 0} (sdk : ℕ → Sdk E Payload Signed) where
  -- `install`
  unfoldable pub install :
      {Label : Type 0}
      → (Bytes → Bytes)
      → (Bytes → Option Label)
      → Option Bytes
      → Option Text
      → ℕ
      → Operation E Payload
      → Outcome (Failure E X) (Option (Answer E Label)) × Operation E Payload
  unfolding install_chaincode
  install encode_args decode file package_id endorsers o =
      let (result, m) =
        install_chaincode (sdk 0) encode_args decode file package_id (some (30000 * endorsers))
          o.manager in
      (unless_flagged result, with_manager o m)

  -- `queryChaincodeDefinition`
  unfoldable pub query_definition :
      {A : Type 0}
      → (Text → Bytes)
      → (Bytes → Option A)
      → (Bytes → Option A)
      → Option Text
      → Operation E Payload
      → Outcome (Failure E X) (Option (List A)) × Operation E Payload
  unfolding query_chaincode_definition
  query_definition encode_name decode_one decode_many name o =
      let (result, m) =
        query_chaincode_definition (sdk 0) encode_name decode_one decode_many name o.manager in
      (found_results result, with_manager o m)

  module _ (valid : Text) where
    -- What `approve` does after the endorsement.
    unfoldable pub finish_approve :
        ℕ
        → Bool
        → List (Delivery (TxFailure X) TxEvent)
        → Operation E Payload
        → Result (Thrown E) (Answer E Unit) × Manager E Payload
        → Outcome (Failure E X) (Option (Answer E Unit)) × Operation E Payload
    unfolding commit_from then_wait
    finish_approve fuel wait events o (err x, m) = (threw (proposal x), with_manager o m)
    finish_approve fuel wait events o (ok a, m) =
        let silent = record m { assert_commit_result = none } in
        let committed = then_wait valid events (some a) (commit_from sdk fuel 0 wait silent) in
        if a.flag then (returned none, with_manager o m) else (committed, with_manager o silent)

    -- What `commitChaincodeDefinition` does after the endorsement.
    unfoldable pub finish_commit :
        List (Delivery (TxFailure X) TxEvent)
        → Operation E Payload
        → Result (Thrown E) (Proposal E) × Manager E Payload
        → Outcome (Failure E X) (Proposal E) × Operation E Payload
    unfolding then_wait
    finish_commit events o (err x, m) = (threw (proposal x), with_manager o m)
    finish_commit events o (ok result, m) =
        (then_wait valid events result (check_commit (commit (sdk 0) none m)), with_manager o m)

module _ (encode : MspRole → Bytes) (decode_role : Bytes → MspRole)
    (encode_policy : EndorsementPolicy Bytes → Bytes) {E X Payload Signed : Type 0}
    (sdk : ℕ → Sdk E Payload Signed) (encode_definition : Definition Collections → Bytes)
    (valid : Text) where
  -- `approve`
  unfoldable pub approve :
      ℕ
      → Text
      → ℕ
      → Option Text
      → Option Text
      → Bool
      → Bool
      → List (Delivery (TxFailure X) TxEvent)
      → Operation E Payload
      → Outcome (Failure E X) (Option (Answer E Unit)) × Operation E Payload
  unfolding assign approve_for_my_org finish_approve
  approve fuel name sequence package_id version init_required wait events o =
      with_assigned o
        (assign encode decode_role encode_policy o.settings init_required o.properties)
        (λ p. finish_approve sdk valid fuel wait events p (
          approve_for_my_org (sdk 0) encode_definition name (version_or_default version sequence)
            sequence package_id p.properties p.manager))

  -- `checkCommitReadiness`
  unfoldable pub commit_readiness :
      {Approvals : Type 0}
      → (Bytes → Option Approvals)
      → Text
      → ℕ
      → Option Text
      → Bool
      → Operation E Payload
      → Outcome (Failure E X) (List Approvals) × Operation E Payload
  unfolding assign
  commit_readiness decode name sequence version init_required o =
      with_assigned o
        (assign encode decode_role encode_policy o.settings init_required o.properties)
        (λ p.
          let (result, m) =
            check_commit_readiness (sdk 0) encode_definition decode name
              (version_given version sequence) sequence p.properties p.manager in
          (results_of result, with_manager p m))

  -- `commitChaincodeDefinition`
  unfoldable pub commit_definition :
      Text
      → ℕ
      → Option Text
      → Bool
      → List (Delivery (TxFailure X) TxEvent)
      → Operation E Payload
      → Outcome (Failure E X) (Proposal E) × Operation E Payload
  unfolding assign finish_commit
  commit_definition name sequence version init_required events o =
      with_assigned o
        (assign encode decode_role encode_policy o.settings init_required o.properties)
        (λ p. finish_commit sdk valid events p (
          commit_chaincode_definition (sdk 0) encode_definition name
            (version_given version sequence) sequence p.properties p.manager))
