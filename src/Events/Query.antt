-- ===== src/Events/Query.antt =====
-- `EventHubQuery` of nodejs/eventHub.js: the callbacks, on what the event service brings, and the
-- seek positions of `build` in nodejs/admin/eventHub.js. An event service calls the callback with an
-- error alone or with an event alone, and no longer once the listener is unregistered. The height of
-- a block is the number that parseInt reads from its header. The logger is left out.
pub mod Laws
pub mod Tx
use fabric_common.Base.{
  ℕ, suc, Bool, true, false, Option, none, some, List, [], ◌∷◌, ◌++◌, ◌==◌, if◌then◌else◌, leb, ltb,
  length, Text, text_eq,
}
use fabric_common.Events.Settling.{Promise, pending, resolved, rejected, resolve, reject}

pub data Delivery (X A : Type 0) : Type 0 where
  failure : X → Delivery X A
  event : A → Delivery X A

-- A listener with the state `S` that its callback keeps.
pub record Listener (S A X : Type 0) : Type 0 where
  pub local : S
  pub promise : Promise A X
  pub registered : Bool

abbrev pub Callback : Type 0 → Type 0 → Type 0 → Type 0 → Type 0
Callback S A X B = Delivery X B → Listener S A X → Listener S A X

-- The calls of a callback, one for each delivery, while the listener is registered.
unfoldable pub listen :
    {S A X B : Type 0} → Callback S A X B → List (Delivery X B) → Listener S A X → Listener S A X
listen callback [] l = l
listen callback (d ∷ ds) l = listen callback ds (if l.registered then callback d l else l)

abbrev pub fresh : {S A X : Type 0} → S → Listener S A X
fresh s = record { local = s; promise = pending; registered = true }

pub record Block (Content : Type 0) : Type 0 where
  pub height : ℕ
  pub content : Content

module _ {X Content : Type 0} where
  -- `getSingleBlock`: an error is not looked at.
  abbrev pub on_single_block : ℕ → Callback Unit (Block Content) X (Block Content)
  on_single_block number (failure x) l = l
  on_single_block number (event b) l =
      if b.height == number then record l { promise = resolve b l.promise } else l

  -- `getLastBlock`: on an error the callback throws where it takes the block out of undefined, and the
  -- promise is as it was.
  abbrev pub on_last_block : Callback Unit (Block Content) X (Block Content)
  on_last_block (failure x) l = l
  on_last_block (event b) l = record l { promise = resolve b l.promise }

  -- `waitUntilBlock`
  abbrev pub on_until_block : ℕ → Callback Unit (Block Content) X (Block Content)
  on_until_block target (failure x) l = record l { promise = reject x l.promise }
  on_until_block target (event b) l =
      if b.height == target
      then record l { registered = false; promise = resolve b l.promise }
      else l

  -- `waitForBlocks`, where the state is `futureBlocks`.
  abbrev pub on_future_block : ℕ → Callback (List (Block Content)) (Block Content) X (Block Content)
  on_future_block steps (failure x) l = record l { promise = reject x l.promise }
  on_future_block steps (event b) l =
      if ltb (length l.local) steps
      then record l { local = l.local ++ b ∷ [] }
      else record l { registered = false; promise = resolve b l.promise }

  unfoldable pub get_single_block :
      ℕ → List (Delivery X (Block Content)) → Promise (Block Content) X
  unfolding listen
  get_single_block number ds = (listen (on_single_block number) ds (fresh tt)).promise

  unfoldable pub get_last_block : List (Delivery X (Block Content)) → Promise (Block Content) X
  unfolding listen
  get_last_block ds = (listen on_last_block ds (fresh tt)).promise

  unfoldable pub wait_until_block :
      ℕ → List (Delivery X (Block Content)) → Promise (Block Content) X
  unfolding listen
  wait_until_block target ds = (listen (on_until_block target) ds (fresh tt)).promise

  unfoldable pub wait_for_blocks : ℕ → List (Delivery X (Block Content)) → Promise (Block Content) X
  unfolding listen
  wait_for_blocks steps ds = (listen (on_future_block steps) ds (fresh [])).promise

pub record TxEvent : Type 0 where
  pub block_number : ℕ
  pub transaction_id : Text
  pub status : Text

-- Why a wait for a transaction rejects: the service's error, or the event with a status that is not
-- valid.
pub data TxFailure (X : Type 0) : Type 0 where
  service : X → TxFailure X
  invalid : TxEvent → TxFailure X

module _ {X : Type 0} where
  -- `waitForTx`; `valid` is the name of the validation code 0.
  abbrev pub on_tx : Text → Callback Unit TxEvent (TxFailure X) TxEvent
  on_tx valid (failure x) l = record l { promise = reject x l.promise }
  on_tx valid (event e) l =
      if text_eq e.status valid
      then record l { promise = resolve e l.promise }
      else record l { promise = reject (invalid e) l.promise }

  -- `replayTx`, where the state is `result`.
  abbrev pub on_replay : ℕ → Callback (List TxEvent) (List TxEvent) X TxEvent
  on_replay max (failure x) l = record l { registered = false; promise = reject x l.promise }
  on_replay max (event e) l =
      let result = l.local ++ e ∷ [] in
      if leb max (length result)
      then record l { local = result; registered = false; promise = resolve result l.promise }
      else record l { local = result }

  unfoldable pub replay_tx : ℕ → List (Delivery X TxEvent) → Promise (List TxEvent) X
  unfolding listen
  replay_tx max ds = (listen (on_replay max) ds (fresh [])).promise

  unfoldable pub wait_for_tx :
      Text → List (Delivery (TxFailure X) TxEvent) → Promise TxEvent (TxFailure X)
  unfolding listen
  wait_for_tx valid ds = (listen (on_tx valid) ds (fresh tt)).promise

-- What a caller gives for a block number.
pub data Bound : Type 0 where
  newest oldest : Bound
  at : ℕ → Bound
  other : Bound

pub data SeekPosition : Type 0 where
  seek_newest seek_oldest : SeekPosition
  seek_specified : ℕ → SeekPosition

pub record SeekInfo : Type 0 where
  pub start : SeekPosition
  pub stop : SeekPosition
  pub fail_if_not_ready : Bool

abbrev pub seek_start : Bound → SeekPosition
seek_start oldest = seek_oldest
seek_start newest = seek_newest
seek_start (at n) = seek_specified n
seek_start other = seek_newest

-- `Long.MAX_VALUE` is a parameter.
abbrev pub seek_stop : ℕ → Bound → SeekPosition
seek_stop max oldest = seek_oldest
seek_stop max newest = seek_newest
seek_stop max (at n) = seek_specified n
seek_stop max other = seek_specified max

-- The seek information of `build`.
unfoldable pub seek_info : ℕ → Bound → Bound → Bool → SeekInfo
seek_info max start stop behavior = record {
  start = seek_start start;
  stop = seek_stop max stop;
  fail_if_not_ready = behavior;
}
