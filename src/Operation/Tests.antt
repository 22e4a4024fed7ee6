-- ===== src/Operation/Tests.antt =====
-- Runs of the operations with an SDK that sends nothing, and the witnesses of what is proved about
-- them. The first commit finds no leader, and the second succeeds.
use fabric_common.Base.{
  ℕ, zero, suc, ◌≡◌, refl, true, false, none, some, List, [], ◌∷◌, Text, codes, arith,
}
use fabric_common.Base.Result.{ok}
use fabric_common.Base.Decimal.{print_int}
use fabric_common.Policy.Proto.{MspRole}
use fabric_common.Endorsement.Check.{
  Bytes, Endorsement, Proposal, Commit, endorse_all, san_check, commit_success, commit_error,
}
use fabric_common.Endorsement.Manager.{Sdk, send, commit, apply_nonce}
use fabric_common.Endorsement.Lifecycle.{
  Answer, Properties, approve_for_my_org, commit_chaincode_definition,
}
use fabric_common.Events.Query.{Delivery, event, TxEvent, TxFailure, wait_for_tx}
use fabric_common.Operation.Outcome.{Failure, Outcome, returned, threw, proposal}
use fabric_common.Operation.Assign.{Collections, assign}
use fabric_common.Operation.Commit.{has_no_leader}
use fabric_common.Operation.Lifecycle.{Operation, approve, commit_definition}
use fabric_common.Operation.Lifecycle.Approval.{IsApproved, approve-IsApproved, approve-returned}

abbrev role_bytes : MspRole → Bytes
role_bytes r = []

abbrev answer : Endorsement
answer = record {
  response = record { status = 200; message = []; payload = [] };
  url = codes "peer0";
}

abbrev result : Proposal ℕ
result = record { errors = []; responses = answer ∷ []; query_results = [] }

abbrev commit_of : ℕ → Commit
commit_of zero = record { status = codes "SERVICE_UNAVAILABLE"; info = codes "no Raft leader" }
commit_of (suc n) = record { status = codes "SUCCESS"; info = [] }

abbrev sdk_of : Commit → Sdk ℕ Unit Unit
sdk_of c = record {
  calculate_transaction_id = λ id nonce. codes "tx";
  build = λ id q. (tt, id);
  build_commit = λ id. tt;
  sign = λ p id. tt;
  attach = λ p s. tt;
  send = λ s t. ok result;
  commit = λ s t. ok c;
}

abbrev sdk : ℕ → Sdk ℕ Unit Unit
sdk n = sdk_of (commit_of n)

abbrev operation : Operation ℕ Unit
operation = record {
  manager = record {
    identity = record { nonce = none; transaction_id = [] };
    assert_proposal_result = some (endorse_all none);
    assert_commit_result = some commit_success;
    sign_function = none;
  };
  properties = record {
    endorsement_plugin = none;
    init_required = false;
    validation_plugin = none;
    validation_parameter = none;
    collections = none;
  };
  settings = record { endorsement_policy = none; collections = none };
}

abbrev valid : Text
valid = codes "VALID"

abbrev tx : TxEvent
tx = record { block_number = 7; transaction_id = codes "tx"; status = valid }

abbrev events : List (Delivery (TxFailure ℕ) TxEvent)
events = event tx ∷ []

abbrev approved : Answer ℕ Unit
approved = record { result = result; flag = false; query_results = [] }

abbrev role_of : Bytes → MspRole
role_of b = record { msp_identifier = []; role = 0 }

approve-returned_example :
    (approve role_bytes role_of
      (λ p. [])
      sdk
      (λ d. [])
      valid
      2
      (codes "cc")
      1
      none
      none
      false
      true
      events
      operation).0
    ≡ returned (some approved)
unfolding assign approve_for_my_org send apply_nonce endorse_all san_check commit has_no_leader
approve-returned_example =
    approve-returned role_bytes role_of (λ p. []) sdk (λ d. []) valid 2 (codes "cc") 1 none none
      false events operation 1 refl refl refl (omega arith) ((commit_of 0, refl, refl), tt)
      (commit_of 1, refl, (refl, refl)) (tx, [], refl, refl)

abbrev properties : Properties Collections
properties = operation.properties

approve-IsApproved_example :
    let run =
      approve role_bytes role_of
        (λ p. [])
        sdk
        (λ d. [])
        valid
        2
        (codes "cc")
        1
        none
        none
        false
        true
        events
        operation in
    ((assign role_bytes role_of (λ p. []) operation.settings false properties).0 ≡ none)
    × ((approve_for_my_org
          (sdk 0)
          (λ d. [])
          (codes "cc")
          (codes "1")
          1
          none
          properties
          operation.manager).0
        ≡ ok approved)
    × (approved.flag ≡ false)
    × IsApproved sdk valid 2 true events run.1
unfolding assign print_int
approve-IsApproved_example =
    approve-IsApproved role_bytes role_of (λ p. []) sdk (λ d. []) valid 2 (codes "cc") 1 none none
      false events operation true approve-returned_example

-- The status of a commit that an orderer refuses.
abbrev refused : Commit
refused = record { status = codes "BAD_REQUEST"; info = [] }

abbrev commits : Operation ℕ Unit → Outcome (Failure ℕ ℕ) (Proposal ℕ)
commits o =
    (commit_definition role_bytes role_of (λ p. []) (λ n. sdk_of refused) (λ d. []) valid
      (codes "cc") 1 none false events o).0

-- A new operation throws where the orderer refuses the definition.
refused_definition : commits operation ≡ threw (proposal (commit_error (codes "BAD_REQUEST") []))
unfolding commit_definition commit_chaincode_definition assign send apply_nonce endorse_all
    san_check commit commit_success
refused_definition = refl

-- After an approval the same call returns, if the event is that of a valid transaction.
refused_after_approval :
    commits
      (approve role_bytes role_of
        (λ p. [])
        sdk
        (λ d. [])
        valid
        2
        (codes "cc")
        1
        none
        none
        false
        true
        events
        operation).1
    ≡ returned result
unfolding commit_definition commit_chaincode_definition assign approve approve_for_my_org send
    apply_nonce endorse_all san_check commit wait_for_tx
refused_after_approval = refl
