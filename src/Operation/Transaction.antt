-- ===== src/Operation/Transaction.antt =====
-- `Transaction` of nodejs/transaction.js, and the transient map of nodejs/formatter/txProposal.js.
-- `from_text` is `Buffer.from`. The options are the timeouts that the calls pass on.
use fabric_common.Base.{
  ℕ, Bool, false, true, Option, none, some, List, map, Text, codes, if◌then◌else◌,
}
use fabric_common.Base.Result.{Result, ok, err}
use fabric_common.Endorsement.Check.{Bytes, Proposal, Thrown, endorse_all, commit_success}
use fabric_common.Endorsement.Manager.{Identity, Request, Sdk, Manager, send, commit}
use fabric_common.Events.Query.{Delivery, TxEvent, TxFailure}
use fabric_common.Operation.Outcome.{Failure, proposal, Outcome, returned, threw}
use fabric_common.Operation.Lifecycle.{then_wait}
use fabric_common.Operation.Commit.{check_commit}

pub record Call : Type 0 where
  pub fcn : Text
  pub args : List Bytes
  pub transient_map : Option (List (Text × Text))
  pub nonce : Option Bytes

abbrev pub transient_map_transform :
    (Text → Bytes) → Option (List (Text × Text)) → Option (List (Text × Bytes))
transient_map_transform from_text none = none
transient_map_transform from_text (some m) = some (map (λ e. (e.0, from_text e.1)) m)

-- The manager of a new transaction.
abbrev pub new_manager : {E Payload : Type 0} → Identity → Manager E Payload
new_manager identity = record {
  identity = identity;
  assert_proposal_result = some (endorse_all none);
  assert_commit_result = some commit_success;
  sign_function = none;
}

abbrev pub request_of : (Text → Bytes) → Bool → Call → Request
request_of from_text init c = record {
  fcn = if init then codes "init" else c.fcn;
  args = c.args;
  transient_map = transient_map_transform from_text c.transient_map;
  init = init;
  nonce = c.nonce;
  generate_transaction_id = true;
}

-- Where the finality is not required.
abbrev pub sent : {E X A C : Type 0} → A → Result (Thrown E) C → Outcome (Failure E X) A
sent a (ok c) = returned a
sent a (err x) = threw (proposal x)

module _ {E Payload Signed : Type 0} (from_text : Text → Bytes) (sdk : Sdk E Payload Signed) where
  -- `evaluate`
  unfoldable pub evaluate :
      Call → Option ℕ → Manager E Payload → Result (Thrown E) (Proposal E) × Manager E Payload
  unfolding send
  evaluate c timeout m = send sdk (request_of from_text false c) timeout m

  module _ {X : Type 0} (valid : Text) where
    -- What `submit` does after the endorsement.
    unfoldable pub finish_submit :
        Option ℕ
        → Bool
        → List (Delivery (TxFailure X) TxEvent)
        → Result (Thrown E) (Proposal E) × Manager E Payload
        → Outcome (Failure E X) (Proposal E) × Manager E Payload
    unfolding commit then_wait
    finish_submit timeout finality events (err x, m) = (threw (proposal x), m)
    finish_submit timeout finality events (ok result, m) =
        let committed = commit sdk timeout m in
        let final = then_wait valid events result (check_commit committed) in
        (if finality then final else sent result committed, m)

    -- `submit`
    unfoldable pub submit :
        Call
        → Bool
        → Option ℕ
        → Option ℕ
        → Bool
        → List (Delivery (TxFailure X) TxEvent)
        → Manager E Payload
        → Outcome (Failure E X) (Proposal E) × Manager E Payload
    unfolding finish_submit
    submit c init proposal_timeout commit_timeout finality events m =
        finish_submit commit_timeout finality events
          (send sdk (request_of from_text init c) proposal_timeout m)
