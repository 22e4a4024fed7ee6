-- ===== src/Events/Deliver.antt =====
-- `Orderer` of nodejs/admin/orderer.js: the delivery of blocks, the connections and the join over
-- HTTP. A stream is the list of its signals; the write to the stream and the message REQUEST_TIMEOUT
-- come before any signal, as the executor runs to its end first. The promise is resolved with the array
-- of the responses itself, which later blocks are still pushed onto. The logger is left out.
pub mod Laws
use fabric_common.Base.{
  ℕ, Bool, true, false, Option, none, some, List, [], ◌∷◌, ◌++◌, ◌==◌, ◌&&◌, ◌||◌, if◌then◌else◌,
  Text, codes, text_eq, is_empty,
}
use fabric_common.Base.Result.{Result, ok, err, ◌>>=◌}
use fabric_common.Events.Settling.{Promise, pending, resolved, resolve, reject, then_do}

pub data Status : Type 0 where
  named : Text → Status
  code : ℕ → Status

-- A status comes with the test `block === null` on the response, which is the decoder's.
pub data Response (Block : Type 0) : Type 0 where
  full_block : Block → Response Block
  status : Status → (is_null : Bool) → Response Block
  unknown : Response Block

pub record StreamError : Type 0 where
  pub error_code : ℕ
  pub message : Text
  pub original_message : Option Text

pub data Refusal : Type 0 where
  timed_out : Text → Refusal
  invalid_status : Status → (is_null : Bool) → Refusal
  system_error : Refusal
  stream_error : StreamError → Refusal

pub data Signal (Block : Type 0) : Type 0 where
  on_data : Response Block → Signal Block
  on_status on_end on_timeout : Signal Block
  on_error : StreamError → Signal Block

-- The stream as the code leaves it: whether `end` and `cancel` were called and whether the timer is
-- set. What the promise resolves with is the one array `responses`, so it holds no copy of it.
pub record Delivering (Block : Type 0) : Type 0 where
  pub promise : Promise (Unit {0}) Refusal
  pub responses : List Block
  pub error_msg : Text
  pub ended : Bool
  pub cancelled : Bool
  pub timer : Bool

-- `status === SUCCESS || status === 200`
unfoldable pub is_success : Status → Bool
is_success (named s) = text_eq s (codes "SUCCESS")
is_success (code n) = n == 200

pub unavailable : StreamError → StreamError
unavailable e =
    if e.error_code == 14
    then record e { original_message = some e.message; message = codes "SERVICE_UNAVAILABLE" }
    else e

module _ {Block : Type 0} where
  abbrev pub resolve_end : Delivering Block → Delivering Block
  resolve_end d = record d { ended = true; promise = resolve tt d.promise }

  abbrev pub reject_end : Refusal → Delivering Block → Delivering Block
  reject_end x d = record d { ended = true; promise = reject x d.promise }

  -- The timer fires only while it is set, and once.
  abbrev pub fire : Bool → Delivering Block → Delivering Block
  fire true d = record (reject_end (timed_out d.error_msg) d) { timer = false }
  fire false d = d

  -- What who waits for the promise reads: the array that it was resolved with, as it is now.
  abbrev pub settled_with : Delivering Block → Promise (List Block) Refusal
  settled_with d = then_do d.promise (λ _. resolved d.responses)

  -- The handlers of the stream's signals.
  unfoldable pub handle : Signal Block → Delivering Block → Delivering Block
  unfolding is_success unavailable
  handle (on_data (full_block b)) d = record d { responses = d.responses ++ b ∷ [] }
  handle (on_data (status s n)) d =
      if is_success s then resolve_end d else reject_end (invalid_status s n) d
  handle (on_data unknown) d = reject_end system_error d
  handle on_status d = d
  handle on_end d = record d { timer = false; cancelled = true }
  handle on_timeout d = fire d.timer d
  handle (on_error e) d = reject_end (stream_error (unavailable e)) d

  unfoldable pub handle_all : List (Signal Block) → Delivering Block → Delivering Block
  unfolding handle
  handle_all [] d = d
  handle_all (s ∷ ss) d = handle_all ss (handle s d)

  -- The executor of the promise: the timer is set, the envelope written.
  abbrev pub started : Delivering Block
  started = record {
    promise = pending;
    responses = [];
    error_msg = codes "REQUEST_TIMEOUT";
    ended = false;
    cancelled = false;
    timer = true;
  }

  -- `sendDeliver`
  unfoldable pub send_deliver : List (Signal Block) → Delivering Block
  unfolding handle_all
  send_deliver signals = handle_all signals started

-- What the constructor makes of its arguments: the host and the url.
pub record OrdererOpts : Type 0 where
  pub orderer_port : Text
  pub tls_ca_cert : Option Text
  pub pem : Option Text
  pub orderer_host_name : Option Text
  pub host : Option Text

abbrev pub or_text : Option Text → Text → Text
or_text none d = d
or_text (some s) d = if is_empty s then d else s

unfoldable pub host_of : OrdererOpts → Text
host_of o = or_text o.host (or_text o.orderer_host_name (codes "localhost"))

-- The certificate; `read_file` is `none` on a file that does not exist.
unfoldable pub pem_of : (Text → Option Text) → OrdererOpts → Text
pem_of read_file o = or_text o.pem (elim o.tls_ca_cert [
  | none ↦ []
  | some path ↦ elim (read_file path) [ none ↦ [] | some s ↦ s ]
])

unfoldable pub orderer_url : (Text → Option Text) → OrdererOpts → Text
unfolding host_of pem_of
orderer_url read_file o =
    (if is_empty (pem_of read_file o) then codes "grpc://" else codes "grpcs://")
    ++ host_of o
    ++ codes ":"
    ++ o.orderer_port

-- An endpoint of the SDK, as far as the code looks at it.
pub record Endpoint : Type 0 where
  pub connected : Bool
  pub has_service : Bool
  pub connect_attempted : Bool

-- The committer and the eventer, `getServiceEndpoints`.
pub record Orderer : Type 0 where
  pub committer : Endpoint
  pub eventer : Endpoint

pub reset : Orderer → Orderer
reset o = record {
  committer = record o.committer { connect_attempted = false };
  eventer = record o.eventer { connect_attempted = false };
}

module _ {X : Type 0} (open_connection : Endpoint → Result X Endpoint) where
  unfoldable pub connect_endpoint : Endpoint → Result X Endpoint
  connect_endpoint e = if e.connected || e.has_service then ok e else open_connection e

  -- `connect`: the eventer is not tried where the committer's connection throws.
  unfoldable pub connect : Orderer → Result X Orderer
  unfolding connect_endpoint
  connect o = connect_endpoint o.committer >>= λ c.
      connect_endpoint o.eventer >>= λ e. ok record { committer = c; eventer = e }

-- The outcome of an HTTP request that fails.
pub record HttpError : Type 0 where
  pub status_code : ℕ
  pub status_message : Text
  pub data_error : Text

pub already_exists : Text
already_exists = codes "cannot join: channel already exists"

-- `Orderer.join`, on the outcome of the request: it returns the body or the error of the body.
pub join_channel : {Body : Type 0} → Result HttpError Body → Result HttpError (Option Body)
unfolding already_exists
join_channel (ok body) = ok (some body)
join_channel (err e) =
    if e.status_code == 405
      && text_eq e.status_message (codes "Method Not Allowed")
      && text_eq e.data_error already_exists
    then ok none
    else err e

pub join_url : Bool → Text → Text
join_url admin_tls base =
    (if admin_tls then codes "https://" else codes "http://")
    ++ base
    ++ codes "/participation/v1/channels"
