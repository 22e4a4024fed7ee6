-- ===== src/Endorsement/Manager.antt =====
-- `ProposalManager` of nodejs/admin/proposal.js. The SDK's part (the building, the signing and the
-- sending of a proposal) and the digest of the transaction id are the fields of `Sdk`.
use fabric_common.Base.{
  ℕ, ◌≡◌, refl, sym, ap, ◌∙◌, inl, inr, Bool, false, Option, none, some, List, Text,
}
use fabric_common.Base.Result.{Result, ok, err, ◌>>=◌, Result-cases, ok_inj}
use fabric_common.Endorsement.Check.{Bytes, Proposal, Thrown, endorse_all, Commit}

-- The identity context: it holds the nonce and the transaction id of the last proposal.
pub record Identity : Type 0 where
  pub nonce : Option Bytes
  pub transaction_id : Text

pub record Request : Type 0 where
  pub fcn : Text
  pub args : List Bytes
  pub transient_map : Option (List (Text × Bytes))
  pub init : Bool
  pub nonce : Option Bytes
  pub generate_transaction_id : Bool

pub record Sdk (E Payload Signed : Type 0) : Type 0 where
  pub calculate_transaction_id : Identity → Bytes → Text
  pub build : Identity → Request → Payload × Identity
  pub build_commit : Identity → Payload
  pub sign : Payload → Identity → Signed
  pub attach : Payload → Bytes → Signed
  pub send : Signed → Option ℕ → Result (Thrown E) (Proposal E)
  pub commit : Signed → Option ℕ → Result (Thrown E) Commit

abbrev pub Handler : Type 0 → Type 0
Handler E = Proposal E → Result (Thrown E) (Proposal E)

pub record Manager (E Payload : Type 0) : Type 0 where
  pub identity : Identity
  pub assert_proposal_result : Option (Handler E)
  pub assert_commit_result : Option (Commit → Result (Thrown E) Commit)
  pub sign_function : Option (Payload → Bytes)

module _ {E Payload Signed : Type 0} (sdk : Sdk E Payload Signed) where
  -- The setter `resultHandler`; `none` is undefined or null.
  abbrev pub set_result_handler : Option (Handler E) → Manager E Payload → Manager E Payload
  set_result_handler none m = record m { assert_proposal_result = some (endorse_all none) }
  set_result_handler (some h) m = record m { assert_proposal_result = some h }

  -- The request and the identity, where the caller gives a nonce.
  unfoldable pub apply_nonce : Identity → Request → Identity × Request
  apply_nonce id q = elim q.nonce [
    | none ↦ (id, q)
    | some n ↦
        let given = record id { nonce = some n } in
        (
          record given { transaction_id = sdk.calculate_transaction_id given n },
          record q { generate_transaction_id = false },
        )
  ]

  abbrev pub sign_payload : Option (Payload → Bytes) → Payload → Identity → Signed
  sign_payload none payload id = sdk.sign payload id
  sign_payload (some f) payload id = sdk.attach payload (f payload)

  -- `typeof this.assertProposalResult === 'function' && this.assertProposalResult(results)`
  abbrev pub assert_result : Option (Handler E) → Handler E
  assert_result none r = ok r
  assert_result (some h) r = h r >>= λ _. ok r

  -- `send`
  unfoldable pub send :
      Request → Option ℕ → Manager E Payload → Result (Thrown E) (Proposal E) × Manager E Payload
  unfolding apply_nonce
  send q timeout m =
      let (id, q') = apply_nonce m.identity q in
      let (payload, id') = sdk.build id q' in
      let signed = sign_payload m.sign_function payload id' in
      (
        sdk.send signed timeout >>= assert_result m.assert_proposal_result,
        record m { identity = id' },
      )

  -- `commit`
  unfoldable pub commit : Option ℕ → Manager E Payload → Result (Thrown E) Commit
  commit timeout m =
      let payload = sdk.build_commit m.identity in
      sdk.commit (sign_payload m.sign_function payload m.identity) timeout >>= λ result.
      elim m.assert_commit_result [ none ↦ ok result | some f ↦ f result ]

  passed :
      (o : Option (Handler E)) (h : Handler E) (sent : Result (Thrown E) (Proposal E))
      {r : Proposal E}
      → o ≡ some h
      → (sent >>= assert_result o) ≡ ok r
      → (out : Proposal E) × (h r ≡ ok out)
  passed o h (err x) e k = absurd (cc)
  passed o h (ok s) {r} e k = elim (Result-cases (h s)) [
    | inl (out, f) ↦ let same : s ≡ r = ok_inj (rw f at rw e at k) in (out, ap h (sym same) ∙ f)
    | inr (x, f) ↦ absurd (cc (rw f at rw e at k))
  ]

  -- A proposal that is returned was passed by the handler, if there is one.
  pub send-assert_result :
      (q : Request) (timeout : Option ℕ) (m : Manager E Payload) (h : Handler E) {r : Proposal E}
      → m.assert_proposal_result ≡ some h
      → (send q timeout m).0 ≡ ok r
      → (out : Proposal E) × (h r ≡ ok out)
  unfolding send
  send-assert_result q timeout m h {r} e k =
      let (id, q') = apply_nonce m.identity q in
      let (payload, id') = sdk.build id q' in
      passed m.assert_proposal_result h
        (sdk.send (sign_payload m.sign_function payload id') timeout) e k

  pub send-keeps_handler :
      (q : Request) (timeout : Option ℕ) (m : Manager E Payload)
      → (send q timeout m).1.assert_proposal_result ≡ m.assert_proposal_result
  unfolding send
  send-keeps_handler q timeout m = refl
