-- ===== src/Environment/Peer.antt =====
-- `envBuilder` of nodejs/peer.js, a section for each of its options. `none` is the TypeError of a
-- missing `statsD`.
pub mod Laws
use Prim.Native.String
use Prim.Native.String.{String}
use text.Mathlib.Text.{◌==◌ as str_eq}
use fabric_common.Base.{Bool, true, false, Option, none, some, List, [], ◌∷◌, ◌++◌, if◌then◌else◌}
use fabric_common.Environment.Setting.{
  Setting, concat_all, ◌:=◌, is_given, or_string, is_some, shown, logging_level, metrics_provider,
  Tls, Operations, Metrics, operations_tls,
}

-- `container.dockerSock`
abbrev pub docker_sock : String
docker_sock = "/run/containerd/containerd.sock"

pub record Msp : Type 0 where
  pub config_path : String
  pub id : String
  pub peer_host_name : String

pub record CouchDb : Type 0 where
  pub container_name : String
  pub user : Option String
  pub password : Option String

pub record ChaincodeTls : Type 0 where
  pub ca : String
  pub cert : String
  pub key : String

pub record ChaincodeOpts : Type 0 where
  pub attach_log : Bool
  pub docker_port : Option String
  pub tls : Option ChaincodeTls
  pub external : Bool

pub record PeerOpts : Type 0 where
  pub network : String
  pub msp : Msp
  pub tls : Option Tls
  pub couch_db : Option CouchDb

abbrev pub base_env : PeerOpts → List Setting
base_env o =
    ("CORE_VM_DOCKER_HOSTCONFIG_NETWORKMODE" := o.network)
    ∷ ("CORE_VM_ENDPOINT" := String.◌++◌ "unix://" docker_sock)
    ∷ ("CORE_LEDGER_HISTORY_ENABLEHISTORYDATABASE" := "true")
    ∷ ("CORE_PEER_GOSSIP_USELEADERELECTION" := "false")
    ∷ ("CORE_PEER_GOSSIP_ORGLEADER" := "true")
    ∷ ("CORE_PEER_GOSSIP_STATE_ENABLED" := "true")
    ∷ ("CORE_PEER_GOSSIP_EXTERNALENDPOINT" := String.◌++◌ o.msp.peer_host_name ":7051")
    ∷ ("CORE_PEER_LOCALMSPID" := o.msp.id)
    ∷ ("CORE_PEER_MSPCONFIGPATH" := o.msp.config_path)
    ∷ ("CORE_PEER_TLS_ENABLED" := shown (is_some o.tls))
    ∷ ("CORE_PEER_ID" := o.msp.peer_host_name)
    ∷ ("CORE_PEER_ADDRESS" := String.◌++◌ o.msp.peer_host_name ":7051")
    ∷ []

abbrev pub chaincode_tls_env : Option ChaincodeTls → List Setting
chaincode_tls_env none = []
chaincode_tls_env (some t) =
    ("CORE_VM_DOCKER_TLS_ENABLED" := "true")
    ∷ ("CORE_VM_DOCKER_TLS_CA_FILE" := t.ca)
    ∷ ("CORE_VM_DOCKER_TLS_CERT_FILE" := t.cert)
    ∷ ("CORE_VM_DOCKER_TLS_KEY_FILE" := t.key)
    ∷ []

-- The branch on `dockerPort`, by whether it is given.
abbrev pub endpoint_env : Bool → ChaincodeOpts → List Setting
endpoint_env true c =
    ("CORE_VM_ENDPOINT"
      := String.◌++◌ (if is_some c.tls then "https" else "http")
          (String.◌++◌ "://host.docker.internal:" (or_string c.docker_port "")))
    ∷ ("CORE_CHAINCODE_EXTERNALBUILDERS" := "[]")
    ∷ []
endpoint_env false c =
    if c.external then record { name = "CORE_VM_ENDPOINT"; value = none } ∷ [] else []

abbrev pub chaincode_env : Option ChaincodeOpts → List Setting
chaincode_env none = []
chaincode_env (some c) = concat_all (
    chaincode_tls_env c.tls
    ∷ endpoint_env (is_given c.docker_port) c
    ∷ (("CORE_VM_DOCKER_ATTACHSTDOUT" := shown c.attach_log) ∷ [])
    ∷ [])

abbrev pub logging_env : Option String → List Setting
logging_env none = []
logging_env (some level) =
    if is_given (some level)
    then ("FABRIC_LOGGING_SPEC" := logging_level level)
      ∷ ("CORE_CHAINCODE_LOGGING_LEVEL" := logging_level level)
      ∷ ("CORE_CHAINCODE_LOGGING_SHIM" := logging_level level)
      ∷ []
    else []

abbrev pub tls_env : Option Tls → List Setting
tls_env none = []
tls_env (some t) =
    ("CORE_PEER_TLS_KEY_FILE" := t.key)
    ∷ ("CORE_PEER_TLS_CERT_FILE" := t.cert)
    ∷ ("CORE_PEER_TLS_ROOTCERT_FILE" := t.ca_cert)
    ∷ []

-- A default stands only where the name is missing.
abbrev pub default_string : Option String → String → String
default_string none d = d
default_string (some s) d = s

abbrev pub couch_env : Option CouchDb → List Setting
couch_env none = []
couch_env (some c) =
    ("CORE_LEDGER_STATE_STATEDATABASE" := "CouchDB")
    ∷ ("CORE_LEDGER_STATE_COUCHDBCONFIG_COUCHDBADDRESS" := String.◌++◌ c.container_name ":5984")
    ∷ ("CORE_LEDGER_STATE_COUCHDBCONFIG_USERNAME" := default_string c.user "admin")
    ∷ ("CORE_LEDGER_STATE_COUCHDBCONFIG_PASSWORD" := default_string c.password "adminpw")
    ∷ []

abbrev pub operations_tls_env : Option Tls → List Setting
operations_tls_env none = []
operations_tls_env (some t) =
    ("CORE_OPERATIONS_TLS_ENABLED" := "true")
    ∷ ("CORE_OPERATIONS_TLS_CERT_FILE" := t.cert)
    ∷ ("CORE_OPERATIONS_TLS_KEY_FILE" := t.key)
    ∷ ("CORE_OPERATIONS_TLS_CLIENTAUTHREQUIRED" := "false")
    ∷ ("CORE_OPERATIONS_TLS_CLIENTROOTCAS_FILES" := t.ca_cert)
    ∷ []

abbrev pub operations_env : Option Operations → Option Tls → List Setting
operations_env none tls = []
operations_env (some o) tls =
    ("CORE_OPERATIONS_LISTENADDRESS" := "0.0.0.0:9443") ∷ operations_tls_env (operations_tls o tls)

abbrev pub statsd_env : Bool → String → Option String → Option (List Setting)
statsd_env false peer host = some []
statsd_env true peer none = none
statsd_env true peer (some host) = some (
    ("CORE_METRICS_STATSD_NETWORK" := "udp")
    ∷ ("CORE_METRICS_STATSD_ADDRESS" := String.◌++◌ host ":8125")
    ∷ ("CORE_METRICS_STATSD_PREFIX" := peer)
    ∷ [])

abbrev pub is_statsd : Option String → Bool
is_statsd none = false
is_statsd (some p) = str_eq p "statsd"

abbrev pub metrics_env : String → Option Metrics → Option (List Setting)
metrics_env peer none = some []
metrics_env peer (some m) = elim (statsd_env (is_statsd m.provider) peer m.statsd_host) [
  | none ↦ none
  | some rest ↦ some (("CORE_METRICS_PROVIDER" := metrics_provider m.provider) ∷ rest)
]

-- `envBuilder`
unfoldable pub peer_env :
    PeerOpts
    → Option String
    → Option Operations
    → Option Metrics
    → Option ChaincodeOpts
    → Option (List Setting)
peer_env o level operations metrics chaincode = elim (metrics_env o.msp.peer_host_name metrics) [
  | none ↦ none
  | some last ↦ some (
      concat_all (
        base_env o
        ∷ chaincode_env chaincode
        ∷ logging_env level
        ∷ tls_env o.tls
        ∷ couch_env o.couch_db
        ∷ operations_env operations o.tls
        ∷ last
        ∷ []))
]
