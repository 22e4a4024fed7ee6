-- ===== src/Operation/Lifecycle/Approval.antt =====
-- What an approval promises: when it returns, what it leaves behind, and that it does return.
use mathlib.Core.Path.{subst}
use fabric_common.Base.{
  ℕ, ◌<◌, ◌≡◌, refl, ap, ◌∙◌, sym, inl, inr, Bool, true, false, Option, none, some, List, Text,
  Bool-cases, some_inj, arith,
}
use fabric_common.Base.Result.{Result, ok, err, ok_inj}
use fabric_common.Policy.Gate as Gate
use fabric_common.Policy.Proto.{MspRole}
use fabric_common.Policy.Collection.{EndorsementPolicy}
use fabric_common.Endorsement.Check.{Bytes, Thrown}
use fabric_common.Endorsement.Manager.{Sdk, Manager}
use fabric_common.Endorsement.Lifecycle.{Answer, Definition, Properties, approve_for_my_org}
use fabric_common.Events.Query.{Delivery, TxEvent, TxFailure}
use fabric_common.Events.Query.Tx.{StartsValid}
use fabric_common.Operation.Outcome.{Failure, Outcome, returned}
use fabric_common.Operation.Assign.{Collections, assign}
use fabric_common.Operation.Commit.{commit_from}
use fabric_common.Operation.Commit.Laws.{
  AreLeaderless, IsCommitted, commit_from-IsCommitted, commit_from-returned,
}
use fabric_common.Operation.Lifecycle.{
  Operation, with_manager, version_or_default, finish_approve, then_wait, approve,
}
use fabric_common.Operation.Lifecycle.Laws.{
  with_assigned-returned, with_assigned-none, then_wait-returned, returned-then_wait,
}

-- The manager once the check of the commit is switched off.
abbrev pub silenced : {E Payload : Type 0} → Manager E Payload → Manager E Payload
silenced m = record m { assert_commit_result = none }

module _ {E X Payload Signed : Type 0} (sdk : ℕ → Sdk E Payload Signed) (valid : Text) (fuel : ℕ)
    (wait : Bool) (events : List (Delivery (TxFailure X) TxEvent)) where
  abbrev pub IsApproved : Operation E Payload → Type 0
  IsApproved next =
      (next.manager.assert_commit_result ≡ none)
      × ((k : ℕ) × (k < fuel) × AreLeaderless sdk next.manager 0 k × IsCommitted sdk next.manager k)
      × StartsValid valid events

  -- What is left to do where something has changed.
  abbrev rest_of :
      Operation E Payload
      → Answer E Unit
      → Manager E Payload
      → Outcome (Failure E X) (Option (Answer E Unit)) × Operation E Payload
  rest_of o a m = (
    then_wait valid events (some a) (commit_from sdk fuel 0 wait (silenced m)),
    with_manager o (silenced m),
  )

  finish_approve-rest_of :
      (o : Operation E Payload) (a : Answer E Unit) (m : Manager E Payload)
      → a.flag ≡ false
      → finish_approve sdk valid fuel wait events o (ok a, m) ≡ rest_of o a m
  unfolding finish_approve
  finish_approve-rest_of o a m f = rw f refl

  rest_of-IsApproved :
      (o : Operation E Payload) (a b : Answer E Unit) (m : Manager E Payload)
      → (rest_of o b m).0 ≡ returned (some a)
      → (b ≡ a) × IsApproved (rest_of o b m).1
  rest_of-IsApproved o a b m h =
      let (same, (c, e), starts) =
        then_wait-returned valid events (some b) (some a) (commit_from sdk fuel 0 wait (silenced m))
          h in
      let (k, l, w, s) = commit_from-IsCommitted sdk (silenced m) wait fuel 0 e in
      (
        some_inj same,
        (refl, (k, l, w, subst (IsCommitted sdk (silenced m)) (omega arith) s), starts),
      )

  finish_approve-IsApproved :
      (o : Operation E Payload) (r : Result (Thrown E) (Answer E Unit) × Manager E Payload)
      {a : Answer E Unit}
      → (finish_approve sdk valid fuel wait events o r).0 ≡ returned (some a)
      → (r.0 ≡ ok a)
        × (a.flag ≡ false)
        × IsApproved (finish_approve sdk valid fuel wait events o r).1
  unfolding finish_approve
  finish_approve-IsApproved o (err x, m) h = absurd (cc)
  finish_approve-IsApproved o (ok b, m) {a} h = elim (Bool-cases b.flag) [
    | inl t ↦ absurd (cc (rw t at h))
    | inr f ↦
        let e = finish_approve-rest_of o b m f in
        let (same, approved) = rest_of-IsApproved o a b m (ap (λ p. p.0) (sym e) ∙ h) in
        (
          ap ok same,
          subst (λ x. x.flag ≡ false) same f,
          subst (λ p. IsApproved p.1) (sym e) approved,
        )
  ]

  finish_approve-returned :
      (o : Operation E Payload) (r : Result (Thrown E) (Answer E Unit) × Manager E Payload) (k : ℕ)
      {a : Answer E Unit}
      → wait ≡ true
      → r.0 ≡ ok a
      → a.flag ≡ false
      → k < fuel
      → AreLeaderless sdk (silenced r.1) 0 k
      → IsCommitted sdk (silenced r.1) k
      → StartsValid valid events
      → (finish_approve sdk valid fuel wait events o r).0 ≡ returned (some a)
  unfolding finish_approve
  finish_approve-returned o (err x, m) k w h f l ls s v = absurd (cc)
  finish_approve-returned o (ok b, m) k {a} w h f l ls s v =
      let (c, e) =
        commit_from-returned {X = X} sdk (silenced m) fuel 0 k l ls
          (subst (IsCommitted sdk (silenced m)) (omega arith) s) in
      let e' = subst (λ b. commit_from {X = X} sdk fuel 0 b (silenced m) ≡ returned c) (sym w) e in
      let f' : b.flag ≡ false = subst (λ x. x.flag ≡ false) (sym (ok_inj h)) f in
      ap (λ p. p.0) (finish_approve-rest_of o b m f')
      ∙ ap (then_wait valid events (some b)) e'
      ∙ returned-then_wait valid events (some b) c v
      ∙ ap (λ x. returned (some x)) (ok_inj h)

module _ (encode : MspRole → Bytes) (decode_role : Bytes → MspRole)
    (encode_policy : EndorsementPolicy Bytes → Bytes) {E X Payload Signed : Type 0}
    (sdk : ℕ → Sdk E Payload Signed) (encode_definition : Definition Collections → Bytes)
    (valid : Text) (fuel : ℕ) (name : Text) (sequence : ℕ) (package_id version : Option Text)
    (init_required : Bool) (events : List (Delivery (TxFailure X) TxEvent))
    (o : Operation E Payload) where
  -- What `assign` leads to, and the proposal that follows.
  abbrev pub assigned : Option Gate.Failure × Properties Collections
  assigned = assign encode decode_role encode_policy o.settings init_required o.properties

  abbrev pub asked : Result (Thrown E) (Answer E Unit) × Manager E Payload
  asked =
      approve_for_my_org (sdk 0) encode_definition name (version_or_default version sequence)
        sequence package_id (assigned.1) o.manager

  abbrev goes_on :
      Bool
      → Operation E Payload
      → Outcome (Failure E X) (Option (Answer E Unit)) × Operation E Payload
  goes_on wait p = finish_approve sdk valid fuel wait events p (
      approve_for_my_org (sdk 0) encode_definition name (version_or_default version sequence)
        sequence package_id p.properties p.manager)

  -- An approval that returns a result has got one from the peers that reports a change, some commit
  -- succeeded behind commits that found no Raft leader, and the first event is that of a valid
  -- transaction. It leaves the check of later commits switched off.
  pub approve-IsApproved :
      (wait : Bool) {a : Answer E Unit}
      → let run =
          approve encode decode_role encode_policy sdk encode_definition valid fuel name sequence
            package_id version init_required wait events o in
        run.0 ≡ returned (some a)
        → (assigned.0 ≡ none)
          × (asked.0 ≡ ok a)
          × (a.flag ≡ false)
          × IsApproved sdk valid fuel wait events run.1
  unfolding approve
  approve-IsApproved wait {a} h =
      let (n, e) = with_assigned-returned o assigned (goes_on wait) h in
      let p = record o { properties = assigned.1 } in
      let (r, f, approved) =
        finish_approve-IsApproved sdk valid fuel wait events p asked (ap (λ q. q.0) (sym e) ∙ h) in
      (n, r, f, subst (λ q. IsApproved sdk valid fuel wait events q.1) (sym e) approved)

  -- With `waitForConsensus`, an approval that changes something returns its result: the commits that
  -- find no leader are fewer than `fuel`, the next one succeeds, and the first event is that of a
  -- valid transaction.
  pub approve-returned :
      (k : ℕ) {a : Answer E Unit}
      → assigned.0 ≡ none
      → asked.0 ≡ ok a
      → a.flag ≡ false
      → k < fuel
      → AreLeaderless sdk (silenced asked.1) 0 k
      → IsCommitted sdk (silenced asked.1) k
      → StartsValid valid events
      → (approve encode decode_role encode_policy sdk encode_definition valid fuel name sequence
          package_id version init_required true events o).0
        ≡ returned (some a)
  unfolding approve
  approve-returned k {a} n h f l ls s v =
      ap (λ q. q.0) (with_assigned-none o assigned (goes_on true) n)
      ∙ finish_approve-returned sdk valid fuel true events record o { properties = assigned.1 }
          asked k refl h f l ls s v
