-- ===== src/View/Block/Laws.antt =====
-- When the entries of a block are read, and as what.
use fabric_common.Base.{
  ◌≡◌, refl, ◌⊎◌, inl, inr, Bool, true, false, List, [], ◌∷◌, ◌++◌, ◌&&◌, all, Text, text_eq,
  Bool-cases,
}
use fabric_common.Base.Result.{Result, ok, err}
use fabric_common.Endorsement.Check.{Bytes}
use fabric_common.View.Block.{
  Creator, SignatureHeader, Entry, Body, config, actions, unknown, Transaction, Failure,
  wrong_tx_id, unknown_transaction, not_one_action, calculate_transaction_id, transactions_of,
  checked_entry, collect_txs, data_view,
}

-- A test, and the outcome that goes with it.
abbrev pub Judged : {A : Type 0} → Bool → A → Result Failure A → Type 0
Judged b a r = ((b ≡ true) × (r ≡ ok a)) ⊎ ((b ≡ false) × (x : Failure) × (r ≡ err x))

module _ {Config : Type 0} where
  -- A configuration, or one action.
  abbrev pub is_readable : Body Config → Bool
  is_readable (config c) = true
  is_readable (actions (a ∷ [])) = true
  is_readable _ = false

  -- The transactions of a block, without the checks.
  abbrev pub invocation_of : Text → SignatureHeader → Body Config → List Transaction
  invocation_of tx_id header (actions (a ∷ [])) =
      record { tx_id = tx_id; invocation = a; signature_header = header } ∷ []
  invocation_of tx_id header _ = []

  abbrev pub invocations : List (Entry Config) → List Transaction
  invocations [] = []
  invocations (e ∷ es) = invocation_of e.tx_id e.signature_header e.body ++ invocations es

module _ {Config : Type 0} (sha2_256 : Bytes → Text) (encode_identity : Creator → Bytes) where
  abbrev pub is_sound : Entry Config → Bool
  is_sound e =
      text_eq (calculate_transaction_id sha2_256 encode_identity e.signature_header) e.tx_id
      && is_readable e.body

  body-Judged :
      (tx_id : Text) (header : SignatureHeader) (b : Body Config)
      → Judged
          (is_readable b)
          (invocation_of tx_id header b)
          (transactions_of sha2_256 encode_identity tx_id header b)
  body-Judged tx_id header (config c) = inl (refl, refl)
  body-Judged tx_id header (actions []) = inr (refl, not_one_action, refl)
  body-Judged tx_id header (actions (a ∷ [])) = inl (refl, refl)
  body-Judged tx_id header (actions (a ∷ b ∷ as')) = inr (refl, not_one_action, refl)
  body-Judged tx_id header unknown = inr (refl, unknown_transaction, refl)

  entry-Judged :
      (e : Entry Config)
      → Judged
          (is_sound e)
          (invocation_of e.tx_id e.signature_header e.body)
          (checked_entry sha2_256 encode_identity e)
  unfolding checked_entry
  entry-Judged e =
      elim (Bool-cases
        (text_eq (calculate_transaction_id sha2_256 encode_identity e.signature_header) e.tx_id)) [
          | inl t ↦ rw t (body-Judged e.tx_id e.signature_header e.body)
          | inr f ↦ rw f (inr (refl, wrong_tx_id, refl))
        ]

  collect_txs-Judged :
      (es : List (Entry Config))
      → Judged (all is_sound es) (invocations es) (collect_txs sha2_256 encode_identity es)
  unfolding collect_txs
  collect_txs-Judged [] = inl (refl, refl)
  collect_txs-Judged (e ∷ es) = elim (entry-Judged e) [
    | inr (f, x, h) ↦ inr (rw f refl, x, rw h refl)
    | inl (t, h) ↦ elim (collect_txs-Judged es) [
      | inl (u, k) ↦ inl (rw (t, u) refl, rw (h, k) refl)
      | inr (u, x, k) ↦ inr (rw (t, u) refl, x, rw (h, k) refl)
    ]
  ]

  -- The reading of a block's data: where the id of every entry is the digest of its signature header
  -- and each holds a configuration or one action, it returns the entries and one transaction for each
  -- action, in order; otherwise it throws.
  pub data_view-Judged :
      (es : List (Entry Config))
      → Judged (all is_sound es) (es, invocations es) (data_view sha2_256 encode_identity es)
  unfolding data_view
  data_view-Judged es = elim (collect_txs-Judged es) [
    | inl (t, h) ↦ inl (t, rw h refl)
    | inr (f, x, h) ↦ inr (f, x, rw h refl)
  ]
