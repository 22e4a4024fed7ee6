-- ===== src/Config/Orderer.antt =====
-- The edits of the ordering service by `ConfigFactory` of nodejs/formatter/configFactory.js, under
-- the conventions of Config/Orgs.
pub mod Laws
use Prim.Native.Char.{code}
use Prim.Native.String
use Prim.Native.String.{String}
use text.Mathlib.Text.{◌==◌ as str_eq}
use fabric_common.Base.{
  ℕ, Bool, true, false, Option, none, some, List, [], ◌∷◌, map, ◌==◌, ◌||◌, if◌then◌else◌, not,
  codes, contains,
}
use fabric_common.Base.Result.{Result, ok, err, ◌>>=◌}
use fabric_common.Config.Orgs.{push_here}
use fabric_common.Config.Json.{
  Json, null, bool, number, string, array, object, Items, nil, cons, Fields, end, Failure,
  type_error, io_error, unsupported, Object, fields, items, get_path, Edit, edit_at, assign,
  delete_at, truthy, put, obj, arr,
}

-- `channel_group.groups.Orderer.values`
abbrev pub orderer_values : List String
orderer_values = "channel_group" ∷ "groups" ∷ "Orderer" ∷ "values" ∷ []

-- `channel_group.groups.Orderer.values.ConsensusType.value`
abbrev pub consensus_value : List String
consensus_value = "channel_group" ∷ "groups" ∷ "Orderer" ∷ "values" ∷ "ConsensusType" ∷ "value" ∷ []

-- `channel_group.groups.Orderer.values.ConsensusType.value.metadata`
abbrev pub metadata_path : List String
metadata_path =
    "channel_group" ∷ "groups" ∷ "Orderer" ∷ "values" ∷ "ConsensusType" ∷ "value" ∷ "metadata" ∷ []

-- `channel_group.values.OrdererAddresses.value.addresses`
abbrev pub addresses_path : List String
addresses_path = "channel_group" ∷ "values" ∷ "OrdererAddresses" ∷ "value" ∷ "addresses" ∷ []

-- `version.replace('.', '_')`: the first dot alone.
unfoldable pub replace_dot : String → String
replace_dot String.[] = ""
replace_dot (String.◌∷◌ c s) =
    let rest = String.◌∷◌ c (replace_dot s) in if code c == b'.' then String.◌++◌ "_" s else rest

-- `_fromSemVer`
unfoldable pub from_sem_ver : String → String
unfolding replace_dot
from_sem_ver version = String.◌++◌ "V" (replace_dot version)

abbrev pub capabilities_json : String → Json
capabilities_json version = obj ((from_sem_ver version, object end) ∷ [])

unfoldable pub set_capability : String → Edit
unfolding from_sem_ver
set_capability version config =
    get_path ("channel_group" ∷ "groups" ∷ "Orderer" ∷ "values" ∷ "Capabilities" ∷ []) (some config)
    >>= λ old.
        if truthy old
        then assign
            ("channel_group" ∷ "groups" ∷ "Orderer" ∷ "values" ∷ "Capabilities" ∷ "value" ∷ [])
            "capabilities" (capabilities_json version) config
        else assign orderer_values "Capabilities"
            (obj (
              ("mod_policy", string "Admins")
              ∷ ("value", obj (("capabilities", capabilities_json version) ∷ []))
              ∷ []))
            config

unfoldable pub includes : String → Items → Bool
includes addr nil = false
includes addr (cons (string s) vs) = str_eq s addr || includes addr vs
includes addr (cons _ vs) = includes addr vs

-- `addOrdererAddress`. A text has `includes` too, and no `push`.
unfoldable pub add_orderer_address : String → Edit
unfolding includes push_here
add_orderer_address addr config = get_path addresses_path (some config) >>= λ addresses.
    elim addresses [
      | some (array vs) ↦
          if includes addr vs
          then ok config
          else edit_at addresses_path (push_here (string addr)) config
      | some (string s) ↦ if contains (codes s) (codes addr) then ok config else err type_error
      | _ ↦ err type_error
    ]

unfoldable pub get_orderer_addresses : Json → Result Failure (Option Json)
get_orderer_addresses config = get_path addresses_path (some config)

-- `setConsensusType`: `etcdraft` is the one type that the switch accepts.
unfoldable pub set_consensus_type : String → Edit
set_consensus_type type config =
    if str_eq type "etcdraft"
    then (assign consensus_value "type" (string type) config >>= λ next.
        delete_at orderer_values "KafkaBrokers" next)
    else err unsupported

pub record Consenter : Type 0 where
  pub client_tls_cert : String
  pub server_tls_cert : String
  pub host : String
  pub port : Option ℕ

-- A consenter as the caller gives it.
abbrev pub consenter_json : Consenter → Json
consenter_json c = obj (
    ("client_tls_cert", string c.client_tls_cert)
    ∷ ("server_tls_cert", string c.server_tls_cert)
    ∷ ("host", string c.host)
    ∷ elim c.port [ none ↦ [] | some n ↦ ("port", number n) ∷ [] ])

abbrev pub port_of : Option ℕ → ℕ
port_of none = 7050
port_of (some n) = n

abbrev pub default_options : Json
default_options = obj (
    ("election_tick", number 10)
    ∷ ("heartbeat_tick", number 1)
    ∷ ("max_inflight_blocks", number 5)
    ∷ ("snapshot_interval_size", number 20971520)
    ∷ ("tick_interval", string "500ms")
    ∷ [])

abbrev pub given : Option Json → Json → Json
given o d = elim o [ none ↦ d | some j ↦ if truthy (some j) then j else d ]

-- `if (value) metadata[key] = value`
unfoldable pub assign_given : List String → String → Option Json → Edit
assign_given path key none config = ok config
assign_given path key (some v) config =
    if truthy (some v) then assign path key v config else ok config

module _ (to_base64 : String → Option String) where
  -- One consenter of new metadata, with its certificates read.
  unfoldable pub read_consenter : Consenter → Result Failure Json
  read_consenter c = elim (to_base64 c.client_tls_cert) [
    | none ↦ err io_error
    | some client ↦ elim (to_base64 c.server_tls_cert) [
      | none ↦ err io_error
      | some server ↦ ok (
          obj (
            ("client_tls_cert", string client)
            ∷ ("server_tls_cert", string server)
            ∷ ("host", string c.host)
            ∷ ("port", number (port_of c.port))
            ∷ []))
    ]
  ]

  unfoldable pub read_consenters : List Consenter → Result Failure (List Json)
  unfolding read_consenter
  read_consenters [] = ok []
  read_consenters (c ∷ cs) = read_consenter c >>= λ v. read_consenters cs >>= λ vs. ok (v ∷ vs)

  -- `setConsensusMetadata`
  unfoldable pub set_consensus_metadata : Option (List Consenter) → Option Json → Edit
  unfolding assign_given read_consenters
  set_consensus_metadata consenters options config = get_path metadata_path (some config) >>= λ old.
      if truthy old
      then (assign_given metadata_path "options" options config >>= λ next.
          assign_given metadata_path "consenters"
            (elim consenters [ none ↦ none | some cs ↦ some (arr (map consenter_json cs)) ]) next)
      else elim consenters [
        | none ↦ err type_error
        | some cs ↦ read_consenters cs >>= λ vs.
            assign consensus_value "metadata"
              (obj (("consenters", arr vs) ∷ ("options", given options default_options) ∷ []))
              config
      ]

-- `maintenanceMode`
unfoldable pub maintenance_mode : Bool → Edit
maintenance_mode is_direction_in config =
    assign consensus_value "state"
      (string (if is_direction_in then "STATE_MAINTENANCE" else "STATE_NORMAL")) config
