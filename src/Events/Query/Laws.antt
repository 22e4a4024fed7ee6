-- ===== src/Events/Query/Laws.antt =====
-- What the waits for blocks and transactions settle with.
use mathlib.Core.List.{append_assoc}
use fabric_common.Base.{
  ℕ, zero, suc, ◌+◌, ◌≡◌, refl, ap, ◌∙◌, ◌⊎◌, inl, inr, true, false, Option, none, some, List, [],
  ◌∷◌, ◌++◌, map, ◌==◌, if◌then◌else◌, leb, ltb, length, get_elem?, arith, Bool-cases, Option-cases,
  length-append,
}
use fabric_common.Events.Settling.{
  Promise, pending, resolved, rejected, resolve, reject, is_settled, resolved_inj,
}
use fabric_common.Events.Query.{
  Delivery, failure, event, Listener, Callback, listen, fresh, Block, on_until_block,
  on_future_block, on_replay, wait_until_block, wait_for_blocks, TxEvent, replay_tx,
}

module _ {S A X B : Type 0} where
  -- A callback that does not touch a promise once it is settled.
  abbrev pub KeepsSettled : Callback S A X B → Type 0
  KeepsSettled callback =
      (d : Delivery X B) (l : Listener S A X)
      → is_settled l.promise ≡ true
      → (callback d l).promise ≡ l.promise

  pub settled :
      (callback : Callback S A X B)
      → KeepsSettled callback
      → (ds : List (Delivery X B)) (l : Listener S A X) → is_settled l.promise ≡ true
      → (listen callback ds l).promise ≡ l.promise
  unfolding listen
  settled callback keeps [] l h = refl
  settled callback keeps (d ∷ ds) l h = elim (Bool-cases l.registered) [
    | inr t ↦
        ap (λ b. (listen callback ds (if b then callback d l else l)).promise) t
        ∙ settled callback keeps ds l h
    | inl t ↦
        ap (λ b. (listen callback ds (if b then callback d l else l)).promise) t
        ∙ settled callback keeps ds (callback d l) (ap is_settled (keeps d l h) ∙ h)
        ∙ keeps d l h
  ]

module _ {A X : Type 0} where
  pub resolve-settled : (a : A) (p : Promise A X) → is_settled p ≡ true → resolve a p ≡ p
  resolve-settled a pending h = absurd (cc)
  resolve-settled a (resolved b) h = refl
  resolve-settled a (rejected x) h = refl

  pub reject-settled : (x : X) (p : Promise A X) → is_settled p ≡ true → reject x p ≡ p
  reject-settled x pending h = absurd (cc)
  reject-settled x (resolved b) h = refl
  reject-settled x (rejected y) h = refl

module _ {X Content : Type 0} where
  -- What comes first: an error, or the block at a height.
  abbrev pub first_outcome : ℕ → List (Delivery X (Block Content)) → Promise (Block Content) X
  first_outcome target [] = pending
  first_outcome target (failure x ∷ ds) = rejected x
  first_outcome target (event b ∷ ds) =
      let rest = first_outcome target ds in if b.height == target then resolved b else rest

  pub first_outcome-height :
      (target : ℕ) (ds : List (Delivery X (Block Content))) {c : Block Content}
      → first_outcome target ds ≡ resolved c
      → c.height ≡ target
  first_outcome-height target [] h = absurd (cc)
  first_outcome-height target (failure x ∷ ds) h = absurd (cc)
  first_outcome-height target (event b ∷ ds) {c} h = elim (Bool-cases (b.height == target)) [
    | inl t ↦
        let same : ◌≡◌ {A = Promise (Block Content) X} (resolved b) (resolved c) = rw t at h in
        ground (arith, resolved_inj same)
    | inr f ↦ first_outcome-height target ds (rw f at h)
  ]

  until_keeps : (target : ℕ) → KeepsSettled (on_until_block {X = X} {Content = Content} target)
  until_keeps target (failure x) l h = reject-settled x l.promise h
  until_keeps target (event b) l h = elim (Bool-cases (b.height == target)) [
    | inl t ↦ rw t (resolve-settled b l.promise h)
    | inr t ↦ rw t refl
  ]

  until :
      (target : ℕ) (ds : List (Delivery X (Block Content)))
      → (listen (on_until_block target) ds (fresh tt)).promise ≡ first_outcome target ds
  unfolding listen
  until target [] = refl
  until target (failure x ∷ ds) =
      settled (on_until_block target) (until_keeps target) ds
        record { local = tt; promise = rejected x; registered = true } refl
  until target (event b ∷ ds) = elim (Bool-cases (b.height == target)) [
    | inl t ↦
        rw (t, listen)
          (settled (on_until_block target) (until_keeps target) ds
            record { local = tt; promise = resolved b; registered = false } refl)
    | inr t ↦ rw (t, listen) (until target ds)
  ]

  -- The wait for a height settles with what comes first: the block at that height, or an error. It
  -- stays pending as long as neither has come.
  pub wait_until_block-first_outcome :
      (target : ℕ) (ds : List (Delivery X (Block Content)))
      → wait_until_block target ds ≡ first_outcome target ds
  unfolding wait_until_block
  wait_until_block-first_outcome target ds = until target ds

  future_keeps : (steps : ℕ) → KeepsSettled (on_future_block {X = X} {Content = Content} steps)
  future_keeps steps (failure x) l h = reject-settled x l.promise h
  future_keeps steps (event b) l h = elim (Bool-cases (ltb (length l.local) steps)) [
    | inl t ↦ rw t refl
    | inr t ↦ rw t (resolve-settled b l.promise h)
  ]

  abbrev settle_with : Option (Block Content) → Promise (Block Content) X
  settle_with none = pending
  settle_with (some b) = resolved b

  future :
      (steps : ℕ) (bs seen : List (Block Content)) (n : ℕ)
      → n + length seen ≡ steps
      → (listen
          (on_future_block steps)
          (map event bs)
          record { local = seen; promise = pending; registered = true }).promise
        ≡ settle_with (get_elem? bs n)
  unfolding listen
  future steps [] seen n h = refl
  future steps (b ∷ bs) seen zero h =
      let full : ltb (length seen) steps ≡ false = ground (arith, h) in
      rw (full, listen)
        (settled (on_future_block steps) (future_keeps steps) (map event bs)
          record { local = seen; promise = resolved b; registered = false } refl)
  future steps (b ∷ bs) seen (suc n) h =
      let room : ltb (length seen) steps ≡ true = ground (arith, h) in
      rw (room, listen)
        (future steps bs (seen ++ b ∷ []) n (omega (arith, length-append seen (b ∷ []))))

  -- Of blocks that come without an error, the wait for `futureSteps` of them settles with the one
  -- behind the first `futureSteps`, and stays pending as long as it has not come.
  pub wait_for_blocks-get_elem? :
      (steps : ℕ) (bs : List (Block Content))
      → ((b : Block Content) × (get_elem? bs steps ≡ some b)
          × (wait_for_blocks {X = X} steps (map event bs) ≡ resolved b))
        ⊎ ((get_elem? bs steps ≡ none) × (wait_for_blocks {X = X} steps (map event bs) ≡ pending))
  unfolding wait_for_blocks
  wait_for_blocks-get_elem? steps bs = elim (Option-cases (get_elem? bs steps)) [
    | inl h ↦ inr (h, future steps bs [] steps (omega arith) ∙ ap settle_with h)
    | inr (b, h) ↦ inl (b, h, future steps bs [] steps (omega arith) ∙ ap settle_with h)
  ]

module _ {X : Type 0} where
  replay_keeps : (max : ℕ) → KeepsSettled (on_replay {X = X} max)
  replay_keeps max (failure x) l h = reject-settled x l.promise h
  replay_keeps max (event e) l h = elim (Bool-cases (leb max (length (l.local ++ e ∷ [])))) [
    | inl t ↦ rw t (resolve-settled (l.local ++ e ∷ []) l.promise h)
    | inr t ↦ rw t refl
  ]

  replaying :
      (max : ℕ) (es got : List TxEvent) (n : ℕ) (rest : List (Delivery X TxEvent))
      → suc n + length got ≡ max
      → length es ≡ suc n
      → (listen
          (on_replay max)
          (map event es ++ rest)
          record { local = got; promise = pending; registered = true }).promise
        ≡ resolved (got ++ es)
  unfolding listen
  replaying max [] got n rest h k = absurd (cc)
  replaying max (e ∷ []) got zero rest h k =
      let full : leb max (length (got ++ e ∷ [])) ≡ true =
        ground (arith, length-append got (e ∷ []), h) in
      rw (full, listen)
        (settled (on_replay max) (replay_keeps max) rest
          record { local = got ++ e ∷ []; promise = resolved (got ++ e ∷ []); registered = false }
          refl)
  replaying max (e ∷ []) got (suc n) rest h k = absurd (ground arith)
  replaying max (e ∷ f ∷ es) got zero rest h k = absurd (ground arith)
  replaying max (e ∷ f ∷ es) got (suc n) rest h k =
      let room : leb max (length (got ++ e ∷ [])) ≡ false =
        ground (arith, length-append got (e ∷ []), h) in
      rw (room, listen)
        (replaying max (f ∷ es) (got ++ e ∷ []) n rest (omega (arith, length-append got (e ∷ [])))
            (omega arith)
          ∙ ap resolved (append_assoc got (e ∷ []) (f ∷ es)))

  -- A replay of at least one transaction settles with the first `MaxTxAmount` of them, in order, as
  -- soon as these have come, whatever the service brings behind them.
  pub replay_tx-length :
      (es : List TxEvent) (n : ℕ) (rest : List (Delivery X TxEvent))
      → length es ≡ suc n
      → replay_tx (suc n) (map event es ++ rest) ≡ resolved es
  unfolding replay_tx
  replay_tx-length es n rest h = replaying (suc n) es [] n rest (omega arith) h
