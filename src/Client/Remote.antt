-- ===== src/Client/Remote.antt =====
-- `RemoteOptsTransform` and `defaultGRPCOptions` of nodejs/formatter/remote.js: the options of a gRPC
-- endpoint. An object is the list of its entries in the order in which they were put; undefined is
-- the value of a key that is missing. The logger is left out. The code changes the object that it is
-- given and returns another.
pub mod Laws
use Prim.Native.String.{String}
use text.Mathlib.Text.{◌==◌ as str_eq}
use fabric_common.Base.{
  ℕ, Bool, true, false, not, List, [], ◌∷◌, if◌then◌else◌, ◌==◌, Text, is_empty,
}
use fabric_common.Base.Result.{Result, ok, err}

pub data ℤ : Type 0 where
  pos : ℕ → ℤ
  negsuc : ℕ → ℤ

pub data Value : Type 0 where
  undefined : Value
  string : Text → Value
  integer : ℤ → Value
  bool : Bool → Value
  -- an object, or a number that is no integer: a condition that holds
  other : Value

abbrev pub Opts : Type 0
Opts = List (String × Value)

-- `o[key]`
unfoldable pub get : String → Opts → Value
get key [] = undefined
get key ((k, v) ∷ o) = if str_eq k key then v else get key o

-- `o[key] = v`: an entry keeps its place, a new one goes to the end.
unfoldable pub assign : String → Value → Opts → Opts
assign key v [] = (key, v) ∷ []
assign key v ((k, w) ∷ o) =
    let rest = assign key v o in if str_eq k key then (k, v) ∷ o else (k, w) ∷ rest

-- `delete o[key]`
unfoldable pub remove : String → Opts → Opts
remove key [] = []
remove key ((k, w) ∷ o) = let rest = remove key o in if str_eq k key then rest else (k, w) ∷ rest

-- A value as a condition.
abbrev pub is_zero : ℤ → Bool
is_zero (pos n) = n == 0
is_zero (negsuc n) = false

abbrev pub truthy : Value → Bool
truthy undefined = false
truthy (string s) = not (is_empty s)
truthy (integer n) = not (is_zero n)
truthy (bool b) = b
truthy other = true

-- The loop that deletes the entries whose value is no condition.
unfoldable pub drop_falsy : Opts → Opts
drop_falsy [] = []
drop_falsy ((k, v) ∷ o) = let rest = drop_falsy o in if truthy v then (k, v) ∷ rest else rest

-- `Object.assign(base, o)`
unfoldable pub merge : Opts → Opts → Opts
unfolding assign
merge base [] = base
merge base ((k, v) ∷ o) = merge (assign k v base) o

abbrev pub default_grpc_options : Opts
default_grpc_options =
    ("grpc.max_receive_message_length", integer (negsuc 0))
    ∷ ("grpc.max_send_message_length", integer (negsuc 0))
    ∷ ("grpc.keepalive_time_ms", integer (pos 120000))
    ∷ ("grpc.http2.min_time_between_pings_ms", integer (pos 120000))
    ∷ ("grpc.keepalive_timeout_ms", integer (pos 20000))
    ∷ ("grpc.http2.max_pings_without_data", integer (pos 0))
    ∷ ("grpc.keepalive_permit_without_calls", integer (pos 1))
    ∷ []

-- `t && Number.isInteger(t) ? t : 3000`
abbrev pub timeout_of : Value → ℤ
timeout_of (integer n) = if is_zero n then pos 3000 else n
timeout_of _ = pos 3000

-- The block on `sslTargetNameOverride`.
unfoldable pub override_ssl : Value → Opts → Opts
unfolding assign remove
override_ssl v o =
    if truthy v
    then remove "sslTargetNameOverride"
        (assign "grpc.default_authority" v (assign "grpc.ssl_target_name_override" v o))
    else o

unfoldable pub set_timeouts : Value → Value → Opts → Opts
unfolding assign remove
set_timeouts ready request o = assign "requestTimeout" (integer (timeout_of request)) (
    remove "waitForReadyTimeout"
      (assign "grpc-wait-for-ready-timeout" (integer (timeout_of ready)) o))

-- The caller's object, as the code leaves it.
unfoldable pub normalised : Opts → Opts
unfolding get override_ssl set_timeouts drop_falsy
normalised o = drop_falsy (
    set_timeouts (get "waitForReadyTimeout" o) (get "requestTimeout" o)
      (override_ssl (get "sslTargetNameOverride" o) o))

pub data HostError : Type 0 where
  host_is_no_text : HostError

-- `host && host.toLowerCase() !== host`: on a host that is no text the call throws.
abbrev pub has_to_lower_case : Value → Bool
has_to_lower_case (string s) = true
has_to_lower_case v = not (truthy v)

-- `RemoteOptsTransform`
unfoldable pub remote_opts_transform : Opts → Result HostError Opts
unfolding get normalised merge
remote_opts_transform o =
    if has_to_lower_case (get "host" o)
    then ok (merge default_grpc_options (normalised o))
    else err host_is_no_text
