-- ===== src/Client/Peer.antt =====
-- `Peer` of nodejs/admin/peer.js, and the calls of nodejs/admin/orderer.js of the same kind. An
-- endpoint's connection is the SDK's: `open_connection` and `wait_for_ready` are what its calls come
-- to and what they make of the endpoint, and a service is always constructed. The logger is left out.
pub mod Laws
use fabric_common.Base.{
  ℕ, Bool, true, false, not, Option, none, some, List, [], ◌∷◌, ◌&&◌, ◌||◌, ◌==◌, if◌then◌else◌,
  Text, codes, text_eq, contains,
}
use fabric_common.Base.Result.{Result, ok, err}
use fabric_common.Base.Io.{Io, ◌>>=◌, pure}
use fabric_common.Events.Settling.{Promise, pending, resolved, rejected}
use fabric_common.Events.Deliver.{Endpoint, connect_endpoint}

-- What a stream delivers, and how it stands.
pub data Delivered : Type 0 where
  blocks filtered_blocks blocks_with_private_data : Delivered

pub record Stream : Type 0 where
  pub delivered : Delivered
  pub paused : Bool
  pub readable : Bool
  pub writable : Bool

pub record Peer : Type 0 where
  pub endorser : Endpoint
  pub eventer : Endpoint
  pub discoverer : Endpoint
  pub stream : Option Stream

pub data Role : Type 0 where
  endorsing eventing discovering : Role

abbrev pub at : Role → Peer → Endpoint
at endorsing p = p.endorser
at eventing p = p.eventer
at discovering p = p.discoverer

abbrev pub set_at : Role → Endpoint → Peer → Peer
set_at endorsing e p = record p { endorser = e }
set_at eventing e p = record p { eventer = e }
set_at discovering e p = record p { discoverer = e }

-- `getServiceEndpoints`
abbrev pub roles : List Role
roles = endorsing ∷ eventing ∷ discovering ∷ []

module _ {X : Type 0} where
  abbrev pub store_at : Role → Peer → Result X Endpoint → Result X (Unit {0}) × Peer
  store_at r p (ok e) = (ok tt, set_at r e p)
  store_at r p (err x) = (err x, p)

  -- The loop of `connect`.
  unfoldable pub connect_each : (Endpoint → Result X Endpoint) → List Role → Io Peer X (Unit {0})
  unfolding connect_endpoint
  connect_each open_connection [] = pure tt
  connect_each open_connection (r ∷ rs) =
      (λ p. store_at r p (connect_endpoint open_connection (at r p))) >>= λ _.
      connect_each open_connection rs

  unfoldable pub connect_peer : (Endpoint → Result X Endpoint) → Io Peer X (Unit {0})
  unfolding connect_each
  connect_peer open_connection = connect_each open_connection roles

-- `disconnect`, on what the SDK makes of an endpoint.
unfoldable pub disconnect_peer : (Endpoint → Endpoint) → Peer → Peer
disconnect_peer disconnect p = record p {
  endorser = disconnect p.endorser;
  eventer = disconnect p.eventer;
  discoverer = disconnect p.discoverer;
}

-- What `ping` makes of the outcome of `waitForReady`.
unfoldable pub judge_ready : Result Text (Unit {0}) → Result Text Bool
judge_ready (ok _) = ok true
judge_ready (err message) =
    if contains message (codes "Failed to connect before the deadline")
    then ok false
    else err message

-- `ping` of an endpoint: a new service stands in it before the outcome is known.
unfoldable pub ping_endpoint :
    (Endpoint → Result Text (Unit {0}) × Endpoint) → Endpoint → Result Text Bool × Endpoint
unfolding judge_ready
ping_endpoint wait_for_ready e =
    let (r, e') = wait_for_ready (record e { has_service = true }) in (judge_ready r, e')

unfoldable pub ping : (Endpoint → Result Text (Unit {0}) × Endpoint) → Io Peer Text Bool
unfolding ping_endpoint
ping wait_for_ready p =
    let (r, e) = ping_endpoint wait_for_ready p.endorser in (r, record p { endorser = e })

-- `isStreamReady`
unfoldable pub is_stream_ready : Peer → Bool
is_stream_ready p = elim p.stream [
  | none ↦ false
  | some s ↦ not s.paused && s.readable && s.writable
]

pub data BlockType : Type 0 where
  filtered_block full_block private_block other_type : BlockType

abbrev pub delivered_of : BlockType → Delivered
delivered_of filtered_block = filtered_blocks
delivered_of full_block = blocks
delivered_of private_block = blocks_with_private_data
delivered_of other_type = blocks

module _ {X : Type 0} (wait_for_ready : Endpoint → Result X (Unit {0}) × Endpoint) where
  abbrev pub with_stream : BlockType → Peer → Result X (Unit {0}) → Result X (Unit {0}) × Peer
  with_stream t p (err x) = (err x, p)
  with_stream t p (ok _) = (
    ok tt,
    record p {
      stream =
          some
            record { delivered = delivered_of t; paused = false; readable = true; writable = true };
    },
  )

  -- `connectStream`
  unfoldable pub connect_stream : BlockType → Io Peer X (Unit {0})
  connect_stream t p =
      let (r, e) = wait_for_ready (record p.eventer { has_service = true }) in
      with_stream t (record p { eventer = e }) r

pub record StreamError : Type 0 where
  pub error_code : ℕ
  pub details : Text

pub data Refusal : Type 0 where
  no_stream : Refusal
  stream_error : StreamError → Refusal

-- The listener for one error: what comes behind the first changes nothing.
unfoldable pub on_cancelled : List StreamError → Promise Text Refusal
on_cancelled [] = pending
on_cancelled (e ∷ es) =
    if e.error_code == 1 && text_eq e.details (codes "Cancelled on client")
    then resolved e.details
    else rejected (stream_error e)

-- `disconnectStream`, on the errors that the stream brings once it is cancelled. Without a stream the
-- executor throws.
unfoldable pub disconnect_stream : List StreamError → Peer → Promise Text Refusal × Peer
unfolding on_cancelled
disconnect_stream errors p = elim p.stream [
  | none ↦ (rejected no_stream, p)
  | some s ↦ (on_cancelled errors, record p { stream = none })
]
