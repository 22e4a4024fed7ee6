-- ===== src/Operation/Lifecycle/Laws.antt =====
-- What the operations on chaincodes come to.
use fabric_common.Base.{◌≡◌, refl, Option, none, some, List, Text}
use fabric_common.Policy.Gate as Gate
use fabric_common.Endorsement.Lifecycle.{Properties}
use fabric_common.Events.Settling.{Promise, pending, resolved, rejected}
use fabric_common.Events.Query.{Delivery, TxEvent, TxFailure, wait_for_tx}
use fabric_common.Events.Query.Tx.{StartsValid, wait_for_tx-resolved, wait_for_tx-StartsValid}
use fabric_common.Operation.Outcome.{Failure, Outcome, returned, threw, waiting, after_tx}
use fabric_common.Operation.Assign.{Collections}
use fabric_common.Operation.Lifecycle.{Operation, with_assigned, then_wait}

module _ {E X Payload A : Type 0} where
  -- What a call returns, it returns behind `assign`.
  pub with_assigned-returned :
      (o : Operation E Payload) (r : Option Gate.Failure × Properties Collections)
      (k : Operation E Payload → Outcome (Failure E X) A × Operation E Payload) {a : A}
      → (with_assigned o r k).0 ≡ returned a
      → (r.0 ≡ none) × (with_assigned o r k ≡ k (record o { properties = r.1 }))
  with_assigned-returned o (none, p) k h = (refl, refl)
  with_assigned-returned o (some x, p) k h = absurd (cc)

  pub with_assigned-none :
      (o : Operation E Payload) (r : Option Gate.Failure × Properties Collections)
      (k : Operation E Payload → Outcome (Failure E X) A × Operation E Payload)
      → r.0 ≡ none
      → with_assigned o r k ≡ k (record o { properties = r.1 })
  with_assigned-none o (none, p) k h = refl
  with_assigned-none o (some x, p) k h = absurd (cc)

module _ {E X A : Type 0} where
  waited :
      (a b : A) (p : Promise TxEvent (TxFailure X))
      → ◌≡◌ {A = Outcome (Failure E X) A} (after_tx a p) (returned b)
      → (a ≡ b) × (e : TxEvent) × (p ≡ resolved e)
  waited a b pending h = absurd (cc)
  waited a b (resolved e) h = (cc, e, refl)
  waited a b (rejected x) h = absurd (cc)

  pub then_wait-returned :
      {C : Type 0} (valid : Text) (ds : List (Delivery (TxFailure X) TxEvent)) (a b : A)
      (o : Outcome (Failure E X) C)
      → then_wait valid ds a o ≡ returned b
      → (a ≡ b) × ((c : C) × (o ≡ returned c)) × StartsValid valid ds
  unfolding then_wait
  then_wait-returned valid ds a b (returned c) h =
      let (same, e, k) = waited a b (wait_for_tx valid ds) h in
      (same, (c, refl), wait_for_tx-StartsValid valid ds k)
  then_wait-returned valid ds a b (threw x) h = absurd (cc)
  then_wait-returned valid ds a b waiting h = absurd (cc)

  pub returned-then_wait :
      {C : Type 0} (valid : Text) (ds : List (Delivery (TxFailure X) TxEvent)) (a : A) (c : C)
      → StartsValid valid ds
      → ◌≡◌ {A = Outcome (Failure E X) A} (then_wait valid ds a (returned c)) (returned a)
  unfolding then_wait
  returned-then_wait valid ds a c h = let (e, k) = wait_for_tx-resolved valid ds h in rw k refl
