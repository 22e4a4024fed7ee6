-- ===== src/Events/Deliver/Laws.antt =====
-- What a delivery settles with, and the state in which it leaves the stream.
use mathlib.Core.List.{append_assoc, append-nil}
use mathlib.Core.Path.{subst}
use fabric_common.Base.{
  ◌≡◌, refl, sym, ap, ◌∙◌, ◌⊎◌, inl, inr, Bool, true, false, ◌||◌, List, [], ◌∷◌, ◌++◌, map,
  Bool-cases,
}
use fabric_common.Base.Result.{Result, ok, ok_inj, Result-cases}
use fabric_common.Events.Settling.{
  Promise, pending, resolved, rejected, resolve, reject, is_settled,
}
use fabric_common.Events.Deliver.{
  Status, full_block, status, unknown, timed_out, Signal, on_data, on_status, on_end, on_timeout,
  on_error, Delivering, settled_with, is_success, handle, handle_all, started, send_deliver, fire,
  Endpoint, Orderer, connect_endpoint, connect,
}

module _ {A X : Type 0} where
  kept_resolve : (a : A) (p : Promise A X) → is_settled p ≡ true → resolve a p ≡ p
  kept_resolve a pending h = absurd (cc)
  kept_resolve a (resolved b) h = refl
  kept_resolve a (rejected x) h = refl

  kept_reject : (x : X) (p : Promise A X) → is_settled p ≡ true → reject x p ≡ p
  kept_reject x pending h = absurd (cc)
  kept_reject x (resolved b) h = refl
  kept_reject x (rejected y) h = refl

module _ {Block : Type 0} where
  handle-settled :
      (s : Signal Block) (d : Delivering Block)
      → is_settled d.promise ≡ true
      → (handle s d).promise ≡ d.promise
  unfolding handle
  handle-settled (on_data (full_block b)) d h = refl
  handle-settled (on_data (status s n)) d h = elim (Bool-cases (is_success s)) [
    | inl t ↦ rw (t, handle) (kept_resolve tt d.promise h)
    | inr t ↦ rw (t, handle) (kept_reject _ d.promise h)
  ]
  handle-settled (on_data unknown) d h = kept_reject _ d.promise h
  handle-settled on_status d h = refl
  handle-settled on_end d h = refl
  handle-settled on_timeout d h = elim (Bool-cases d.timer) [
    | inl t ↦ ap (λ b. (fire b d).promise) t ∙ kept_reject (timed_out d.error_msg) d.promise h
    | inr t ↦ ap (λ b. (fire b d).promise) t
  ]
  handle-settled (on_error e) d h = kept_reject _ d.promise h

  -- Once a delivery is settled, no signal changes what it settled with.
  pub handle_all-settled :
      (ss : List (Signal Block)) (d : Delivering Block)
      → is_settled d.promise ≡ true
      → (handle_all ss d).promise ≡ d.promise
  unfolding handle_all
  handle_all-settled [] d h = refl
  handle_all-settled (s ∷ ss) d h =
      handle_all-settled ss (handle s d) (ap is_settled (handle-settled s d h) ∙ h)
      ∙ handle-settled s d h

  -- The blocks that the signals bring.
  abbrev pub blocks_of : List (Signal Block) → List Block
  blocks_of [] = []
  blocks_of (on_data (full_block b) ∷ ss) = b ∷ blocks_of ss
  blocks_of (s ∷ ss) = blocks_of ss

  fire-responses : (b : Bool) (d : Delivering Block) → (fire b d).responses ≡ d.responses
  fire-responses true d = refl
  fire-responses false d = refl

  -- Each block is pushed, whether the delivery is settled or not, and nothing else is.
  handle_all-responses :
      (ss : List (Signal Block)) (d : Delivering Block)
      → (handle_all ss d).responses ≡ d.responses ++ blocks_of ss
  unfolding handle_all handle
  handle_all-responses [] d = sym (append-nil d.responses)
  handle_all-responses (on_data (full_block b) ∷ ss) d =
      handle_all-responses ss (handle (on_data (full_block b)) d)
      ∙ append_assoc d.responses (b ∷ []) (blocks_of ss)
  handle_all-responses (on_data (status s n) ∷ ss) d =
      handle_all-responses ss (handle (on_data (status s n)) d)
      ∙ ap (λ r. r ++ blocks_of ss)
          (elim (Bool-cases (is_success s)) [ inl t ↦ rw t refl | inr t ↦ rw t refl ])
  handle_all-responses (on_data unknown ∷ ss) d =
      handle_all-responses ss (handle (on_data unknown) d)
  handle_all-responses (on_status ∷ ss) d = handle_all-responses ss d
  handle_all-responses (on_end ∷ ss) d = handle_all-responses ss (handle on_end d)
  handle_all-responses (on_timeout ∷ ss) d =
      handle_all-responses ss (handle on_timeout d)
      ∙ ap (λ r. r ++ blocks_of ss) (fire-responses d.timer d)
  handle_all-responses (on_error e ∷ ss) d = handle_all-responses ss (handle (on_error e) d)

  blocks_of-append :
      (bs : List Block) (s : Status) (n : Bool) (rest : List (Signal Block))
      → blocks_of (map (λ b. on_data (full_block b)) bs ++ on_data (status s n) ∷ rest)
        ≡ bs ++ blocks_of rest
  blocks_of-append [] s n rest = refl
  blocks_of-append (b ∷ bs) s n rest = ap (λ r. b ∷ r) (blocks_of-append bs s n rest)

  succeeds :
      (s : Status) (n : Bool) (d : Delivering Block)
      → is_success s ≡ true
      → d.promise ≡ pending
      → (handle (on_data (status s n)) d).promise ≡ resolved tt
  unfolding handle
  succeeds s n d h p = rw (h, handle) (ap (resolve tt) p)

  gathered :
      (bs : List Block) (rest : List (Signal Block)) (s : Status) (n : Bool) (d : Delivering Block)
      → is_success s ≡ true
      → d.promise ≡ pending
      → (handle_all (map (λ b. on_data (full_block b)) bs ++ on_data (status s n) ∷ rest) d).promise
        ≡ resolved tt
  unfolding handle_all handle
  gathered [] rest s n d h p =
      handle_all-settled rest (handle (on_data (status s n)) d) (ap is_settled (succeeds s n d h p))
      ∙ succeeds s n d h p
  gathered (b ∷ bs) rest s n d h p =
      gathered bs rest s n (record d { responses = d.responses ++ b ∷ [] }) h p

  -- A delivery of blocks and then a status of success resolves to exactly these blocks, in order,
  -- whatever signals follow, an end, an error or the timer; only a block that still comes behind the
  -- status is pushed onto the array that the caller has.
  pub send_deliver-blocks :
      (bs : List Block) (s : Status) (n : Bool) (rest : List (Signal Block))
      → is_success s ≡ true
      → settled_with
          (send_deliver (map (λ b. on_data (full_block b)) bs ++ on_data (status s n) ∷ rest))
        ≡ resolved (bs ++ blocks_of rest)
  unfolding send_deliver
  send_deliver-blocks bs s n rest h =
      let signals = map (λ b. on_data (full_block b)) bs ++ on_data (status s n) ∷ rest in
      rw (gathered bs rest s n started h refl)
        (ap resolved (handle_all-responses signals started ∙ blocks_of-append bs s n rest))

  -- A delivery that is settled has ended its stream.
  abbrev pub IsEnded : Delivering Block → Type 0
  IsEnded d = (is_settled d.promise ≡ false) ⊎ (d.ended ≡ true)

  handle-IsEnded : (s : Signal Block) (d : Delivering Block) → IsEnded d → IsEnded (handle s d)
  unfolding handle
  handle-IsEnded (on_data (full_block b)) d h = h
  handle-IsEnded (on_data (status s n)) d h = elim (Bool-cases (is_success s)) [
    | inl t ↦ inr (rw (t, handle) refl)
    | inr t ↦ inr (rw (t, handle) refl)
  ]
  handle-IsEnded (on_data unknown) d h = inr refl
  handle-IsEnded on_status d h = h
  handle-IsEnded on_end d h = h
  handle-IsEnded on_timeout d h = elim (Bool-cases d.timer) [
    | inl t ↦ subst (λ b. IsEnded (fire b d)) (sym t) (inr refl)
    | inr t ↦ subst (λ b. IsEnded (fire b d)) (sym t) h
  ]
  handle-IsEnded (on_error e) d h = inr refl

  handle_all-IsEnded :
      (ss : List (Signal Block)) (d : Delivering Block) → IsEnded d → IsEnded (handle_all ss d)
  unfolding handle_all
  handle_all-IsEnded [] d h = h
  handle_all-IsEnded (s ∷ ss) d h = handle_all-IsEnded ss (handle s d) (handle-IsEnded s d h)

  -- A settled delivery has ended its stream, in every state that the signals can lead to. From then on
  -- no signal changes whether it is resolved or why it is rejected, and the array of the responses
  -- gets the blocks that still come, in order, and nothing else.
  pub send_deliver-IsEnded :
      (ss rest : List (Signal Block))
      → (is_settled (send_deliver ss).promise ≡ false)
        ⊎ (((send_deliver ss).ended ≡ true)
            × ((handle_all rest (send_deliver ss)).promise ≡ (send_deliver ss).promise)
            × ((handle_all rest (send_deliver ss)).responses
                ≡ (send_deliver ss).responses ++ blocks_of rest))
  unfolding send_deliver
  send_deliver-IsEnded ss rest = elim (Bool-cases (is_settled (handle_all ss started).promise)) [
    | inr f ↦ inl f
    | inl t ↦ elim (handle_all-IsEnded ss started (inl refl)) [
      | inl f ↦ inl f
      | inr e ↦ inr (
        e,
        handle_all-settled rest (handle_all ss started) t,
        handle_all-responses rest (handle_all ss started),
      )
    ]
  ]

connect_endpoint-again :
    {X : Type 0} (open_connection : Endpoint → Result X Endpoint) (e e' : Endpoint)
    → ((i : Endpoint) (j : Endpoint)
        → open_connection i ≡ ok j
        → (j.connected || j.has_service) ≡ true)
    → connect_endpoint open_connection e ≡ ok e'
    → connect_endpoint open_connection e' ≡ ok e'
unfolding connect_endpoint
connect_endpoint-again open_connection e e' opens h =
    elim (Bool-cases (e.connected || e.has_service)) [
      | inl t ↦ ap (connect_endpoint open_connection) (sym (ok_inj (rw t at h))) ∙ h
      | inr t ↦ rw (opens e e' (rw t at h)) refl
    ]

-- Where a connection that is opened is connected or has its service, to connect an orderer that was
-- connected changes nothing.
pub connect-again :
    {X : Type 0} (open_connection : Endpoint → Result X Endpoint) (o o' : Orderer)
    → ((i : Endpoint) (j : Endpoint)
        → open_connection i ≡ ok j
        → (j.connected || j.has_service) ≡ true)
    → connect open_connection o ≡ ok o'
    → connect open_connection o' ≡ ok o'
unfolding connect
connect-again open_connection o o' opens h =
    elim (Result-cases (connect_endpoint open_connection o.committer)) [
      | inr (x, f) ↦ absurd (cc (rw f at h))
      | inl (c, f) ↦ elim (Result-cases (connect_endpoint open_connection o.eventer)) [
        | inr (x, g) ↦ absurd (cc (rw g at rw f at h))
        | inl (e, g) ↦
            let same = ok_inj (rw g at rw f at h) in
            ap (connect open_connection) (sym same)
            ∙ rw (connect_endpoint-again open_connection o.committer c opens f)
                (rw (connect_endpoint-again open_connection o.eventer e opens g) refl)
            ∙ ap ok same
      ]
    ]
