-- ===== src/Events/Query/Tx.antt =====
-- What `waitForTx` settles with.
use fabric_common.Base.{◌≡◌, refl, true, inl, inr, List, [], ◌∷◌, Text, text_eq, Bool-cases}
use fabric_common.Events.Settling.{resolved, rejected}
use fabric_common.Events.Query.{
  Delivery, failure, event, listen, on_tx, TxEvent, TxFailure, invalid, wait_for_tx,
}
use fabric_common.Events.Query.Laws.{KeepsSettled, settled, resolve-settled, reject-settled}

module _ {X : Type 0} (valid : Text) where
  tx_keeps : KeepsSettled (on_tx {X = X} valid)
  tx_keeps (failure x) l h = reject-settled x l.promise h
  tx_keeps (event e) l h = elim (Bool-cases (text_eq e.status valid)) [
    | inl t ↦ rw t (resolve-settled e l.promise h)
    | inr t ↦ rw t (reject-settled (invalid e) l.promise h)
  ]

  -- The first delivery is an event of a valid transaction.
  abbrev pub StartsValid : List (Delivery (TxFailure X) TxEvent) → Type 0
  StartsValid ds =
      (e : TxEvent) × (rest : List (Delivery (TxFailure X) TxEvent)) × (ds ≡ event e ∷ rest)
      × (text_eq e.status valid ≡ true)

  first_valid :
      (e : TxEvent) (ds : List (Delivery (TxFailure X) TxEvent))
      → text_eq e.status valid ≡ true
      → wait_for_tx valid (event e ∷ ds) ≡ resolved e
  unfolding wait_for_tx
  first_valid e ds t =
      rw (wait_for_tx, listen, t)
        (settled (on_tx valid) tx_keeps ds
          record { local = tt; promise = resolved e; registered = true } refl)

  pub wait_for_tx-resolved :
      (ds : List (Delivery (TxFailure X) TxEvent))
      → StartsValid ds
      → (e : TxEvent) × (wait_for_tx valid ds ≡ resolved e)
  wait_for_tx-resolved ds (e, rest, d, t) = (e, rw d (first_valid e rest t))

  -- The wait only resolves where the first delivery is such an event.
  pub wait_for_tx-StartsValid :
      (ds : List (Delivery (TxFailure X) TxEvent)) {e : TxEvent}
      → wait_for_tx valid ds ≡ resolved e
      → StartsValid ds
  unfolding wait_for_tx listen
  wait_for_tx-StartsValid [] h = absurd (cc)
  wait_for_tx-StartsValid (failure x ∷ ds) h =
      let k =
        settled (on_tx valid) tx_keeps ds
          record { local = tt; promise = rejected x; registered = true } refl in
      absurd (cc)
  wait_for_tx-StartsValid (event e ∷ ds) h = elim (Bool-cases (text_eq e.status valid)) [
    | inl t ↦ (e, ds, refl, t)
    | inr t ↦
        let k =
          settled (on_tx valid) tx_keeps ds
            record { local = tt; promise = rejected (invalid e); registered = true } refl in
        absurd (cc (rw (wait_for_tx, listen, t) at h))
  ]
