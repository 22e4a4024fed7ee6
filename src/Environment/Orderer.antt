-- ===== src/Environment/Orderer.antt =====
-- `envBuilder` of nodejs/orderer.js, a section for each of its options. `none` is the TypeError of a
-- missing `raft_tls`.
use Prim.Native.String
use Prim.Native.String.{String}
use text.Mathlib.Text.{◌==◌ as str_eq}
use fabric_common.Base.{Bool, true, false, Option, none, some, List, [], ◌∷◌, if◌then◌else◌}
use fabric_common.Environment.Setting.{
  Setting, concat_all, ◌:=◌, is_given, or_string, is_some, shown, logging_level, metrics_provider,
  Tls, root_cas_string, Operations, Metrics, operations_tls,
}

pub record RaftTls : Type 0 where
  pub tls : Tls
  pub port : Option String
  pub host : Option String

pub record OrdererOpts : Type 0 where
  pub bootstrap_file : Option String
  pub config_path : String
  pub id : String
  pub tls : Option Tls
  pub orderer_type : Option String
  pub raft_tls : Option RaftTls
  pub admin_tls : Option Tls

-- `[${rootCAsStringBuilder(tls)}]`
abbrev pub bracketed : Tls → String
bracketed t = String.◌++◌ "[" (String.◌++◌ (root_cas_string t) "]")

-- `admin_tls = tls`
abbrev pub admin_tls_of : OrdererOpts → Option Tls
admin_tls_of o = elim o.admin_tls [ none ↦ o.tls | some t ↦ some t ]

abbrev pub base_env : OrdererOpts → List Setting
base_env o =
    ("ORDERER_GENERAL_LISTENADDRESS" := "0.0.0.0")
    ∷ ("ORDERER_GENERAL_TLS_ENABLED" := shown (is_some o.tls))
    ∷ ("ORDERER_GENERAL_LOCALMSPID" := o.id)
    ∷ ("ORDERER_GENERAL_LOCALMSPDIR" := o.config_path)
    ∷ []

abbrev pub admin_tls_env : Option Tls → List Setting
admin_tls_env none = []
admin_tls_env (some t) =
    ("ORDERER_ADMIN_TLS_PRIVATEKEY" := t.key)
    ∷ ("ORDERER_ADMIN_TLS_CERTIFICATE" := t.cert)
    ∷ ("ORDERER_ADMIN_TLS_ROOTCAS" := bracketed t)
    ∷ ("ORDERER_ADMIN_TLS_CLIENTROOTCAS" := bracketed t)
    ∷ []

-- The branch on `bootStrapFile`, by whether it is given.
abbrev pub bootstrap_env : Bool → OrdererOpts → List Setting
bootstrap_env true o =
    ("ORDERER_GENERAL_BOOTSTRAPMETHOD" := "file")
    ∷ ("ORDERER_GENERAL_BOOTSTRAPFILE"
        := String.◌++◌ "/etc/hyperledger/configtx/" (or_string o.bootstrap_file ""))
    ∷ []
bootstrap_env false o =
    ("ORDERER_GENERAL_BOOTSTRAPMETHOD" := "none")
    ∷ ("ORDERER_CHANNELPARTICIPATION_ENABLED" := "true")
    ∷ ("ORDERER_ADMIN_LISTENADDRESS" := "0.0.0.0:9443")
    ∷ ("ORDERER_ADMIN_TLS_ENABLED" := shown (is_some (admin_tls_of o)))
    ∷ admin_tls_env (admin_tls_of o)

abbrev pub logging_env : Option String → List Setting
logging_env none = []
logging_env (some level) =
    if is_given (some level) then ("FABRIC_LOGGING_SPEC" := logging_level level) ∷ [] else []

abbrev pub tls_env : Option Tls → List Setting
tls_env none = []
tls_env (some t) =
    ("ORDERER_GENERAL_TLS_PRIVATEKEY" := t.key)
    ∷ ("ORDERER_GENERAL_TLS_CERTIFICATE" := t.cert)
    ∷ ("ORDERER_GENERAL_TLS_ROOTCAS" := bracketed t)
    ∷ []

-- Without TLS of its own the orderer needs a listener for its cluster.
abbrev pub cluster_listen_env : Bool → RaftTls → List Setting
cluster_listen_env true r = []
cluster_listen_env false r =
    ("ORDERER_GENERAL_CLUSTER_LISTENPORT" := or_string r.port "7050")
    ∷ ("ORDERER_GENERAL_CLUSTER_LISTENADDRESS" := or_string r.host "0.0.0.0")
    ∷ ("ORDERER_GENERAL_CLUSTER_SERVERCERTIFICATE" := r.tls.cert)
    ∷ ("ORDERER_GENERAL_CLUSTER_SERVERPRIVATEKEY" := r.tls.key)
    ∷ []

abbrev pub is_raft : Option String → Bool
is_raft none = false
is_raft (some type) = str_eq type "etcdraft"

abbrev pub cluster_env : Bool → Option Tls → Option RaftTls → Option (List Setting)
cluster_env false tls raft = some []
cluster_env true tls none = none
cluster_env true tls (some r) = some (
    ("ORDERER_GENERAL_CLUSTER_CLIENTCERTIFICATE" := r.tls.cert)
    ∷ ("ORDERER_GENERAL_CLUSTER_CLIENTPRIVATEKEY" := r.tls.key)
    ∷ ("ORDERER_GENERAL_CLUSTER_ROOTCAS" := bracketed r.tls)
    ∷ cluster_listen_env (is_some tls) r)

abbrev pub operations_tls_env : Option Tls → List Setting
operations_tls_env none = []
operations_tls_env (some t) =
    ("ORDERER_OPERATIONS_TLS_ENABLED" := "true")
    ∷ ("ORDERER_OPERATIONS_TLS_CERTIFICATE" := t.cert)
    ∷ ("ORDERER_OPERATIONS_TLS_PRIVATEKEY" := t.key)
    ∷ ("ORDERER_OPERATIONS_TLS_CLIENTAUTHREQUIRED" := "false")
    ∷ ("ORDERER_OPERATIONS_TLS_CLIENTROOTCAS" := bracketed t)
    ∷ []

abbrev pub operations_env : Option Operations → Option Tls → List Setting
operations_env none tls = []
operations_env (some o) tls =
    ("ORDERER_OPERATIONS_LISTENADDRESS" := "0.0.0.0:8443")
    ∷ operations_tls_env (operations_tls o tls)

abbrev pub metrics_env : Option Metrics → List Setting
metrics_env none = []
metrics_env (some m) = ("ORDERER_METRICS_PROVIDER" := metrics_provider m.provider) ∷ []

-- `envBuilder`
unfoldable pub orderer_env :
    OrdererOpts → Option String → Option Operations → Option Metrics → Option (List Setting)
orderer_env o level operations metrics =
    elim (cluster_env (is_raft o.orderer_type) o.tls o.raft_tls) [
      | none ↦ none
      | some cluster ↦ some (
          concat_all (
            base_env o
            ∷ bootstrap_env (is_given o.bootstrap_file) o
            ∷ logging_env level
            ∷ tls_env o.tls
            ∷ cluster
            ∷ operations_env operations o.tls
            ∷ metrics_env metrics
            ∷ []))
    ]
