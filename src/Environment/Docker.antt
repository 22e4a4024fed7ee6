-- ===== src/Environment/Docker.antt =====
-- `FabricDockerode` of nodejs/fabric-dockerode.js: what it asks the container engine to start, and the
-- clearing of chaincodes. The engine and the SDK's options builder are third-party code: the options
-- are the record of the calls of the builder, and the engine's calls are parameters. `none` is the
-- TypeError of `envBuilder`.
use Prim.Native.String.{String}
use Prim.Native.String
use fabric_common.Base.{Bool, true, false, Option, none, some, List, [], ◌∷◌, ◌++◌, if◌then◌else◌}
use fabric_common.Environment.Setting.{Setting, ◌:=◌, Operations, Metrics, is_given, or_string}
use fabric_common.Environment.Peer.{PeerOpts, ChaincodeOpts, peer_env, docker_sock, default_string}
use fabric_common.Environment.Orderer.{orderer_env, RaftTls}
use fabric_common.Environment.Orderer

infixr 60 ◌<>◌
abbrev pub ◌<>◌ : String → String → String
s <> t = String.◌++◌ s t

-- The calls of the builder, of each kind in order.
pub record ContainerOpts : Type 0 where
  pub image : String
  pub cmd : List String
  pub name : String
  pub env : List Setting
  pub volumes : List (String × String)
  pub ports : List String
  pub networks : List (String × List String)
  pub host_gateway : Bool

abbrev pub with_image : String → List String → String → ContainerOpts
with_image image cmd name = record {
  image = image;
  cmd = cmd;
  name = name;
  env = [];
  volumes = [];
  ports = [];
  networks = [];
  host_gateway = false;
}

abbrev pub set_volume : String → String → ContainerOpts → ContainerOpts
set_volume volume path o = record o { volumes = o.volumes ++ (volume, path) ∷ [] }

abbrev pub set_port_bind : String → ContainerOpts → ContainerOpts
set_port_bind port o = record o { ports = o.ports ++ port ∷ [] }

abbrev pub set_network : String → List String → ContainerOpts → ContainerOpts
set_network network aliases o = record o { networks = o.networks ++ (network, aliases) ∷ [] }

-- A volume or a port that is set only where it is given.
abbrev pub volume_if : Option String → String → ContainerOpts → ContainerOpts
volume_if v path o = if is_given v then set_volume (or_string v "") path o else o

abbrev pub operations_port : Option (Operations × String) → String → ContainerOpts → ContainerOpts
operations_port none port o = o
operations_port (some (ops, host_port)) port o = set_port_bind (host_port <> port) o

abbrev pub operations_of : Option (Operations × String) → Option Operations
operations_of none = none
operations_of (some (ops, port)) = some ops

abbrev pub peer_state : String
peer_state = "/var/hyperledger/production"

abbrev pub orderer_state : String
orderer_state = "/var/hyperledger/production/orderer/"

abbrev pub msp_root : String
msp_root = "/etc/hyperledger/crypto-config"

-- `imagePullIfNotExist` is called for these images; a tag of the CA that is missing is Fabric's.
unfoldable pub fabric_images : Option String → Option String → Bool → List String
fabric_images fabric_tag ca_tag java =
    let ca : Option String = elim ca_tag [ none ↦ fabric_tag | some t ↦ some t ] in
    (if is_given fabric_tag
      then ((if java then "hyperledger/fabric-javaenv:" else "hyperledger/fabric-ccenv:")
          <> or_string fabric_tag "")
        ∷ ("hyperledger/fabric-orderer:" <> or_string fabric_tag "")
        ∷ ("hyperledger/fabric-peer:" <> or_string fabric_tag "")
        ∷ []
      else [])
    ++ (if is_given ca then ("hyperledger/fabric-ca:" <> or_string ca "") ∷ [] else [])
    ++ "couchdb:3.3.2" ∷ []

pub record Parent : Type 0 where
  pub enrollment_id : String
  pub enrollment_secret : String
  pub host : String
  pub port : String

pub record CaOpts : Type 0 where
  pub container_name : String
  pub port : String
  pub image_tag : String
  pub admin_name : Option String
  pub admin_password : Option String
  pub tls : Bool
  pub cn : Option String
  pub hosts : Option (List String)

abbrev pub comma_rest : List String → String
comma_rest [] = ""
comma_rest (h ∷ hs) = "," <> h <> comma_rest hs

-- `hosts.toString()`
abbrev pub comma_hosts : List String → String
comma_hosts [] = ""
comma_hosts (h ∷ hs) = h <> comma_rest hs

unfoldable pub intermediate_option : Bool → Option Parent → String
intermediate_option tls none = ""
intermediate_option tls (some p) =
    " -u "
    <> (if tls then "https" else "http")
    <> "://"
    <> p.enrollment_id
    <> ":"
    <> p.enrollment_secret
    <> "@"
    <> p.host
    <> ":"
    <> p.port

unfoldable pub ca_command : CaOpts → Option Parent → String
unfolding intermediate_option
ca_command o parent =
    "fabric-ca-server start -d -b "
    <> or_string o.admin_name "Admin"
    <> ":"
    <> or_string o.admin_password "passwd"
    <> " "
    <> (if o.tls then "--tls.enabled" else "")
    <> " --cors.enabled "
    <> intermediate_option o.tls parent
    <> (if is_given o.cn then " --csr.cn=" <> or_string o.cn "" else "")
    <> elim o.hosts as (λ h. String) [ none ↦ "" | some hs ↦ " --csr.hosts=" <> comma_hosts hs ]
    <> " --cfg.affiliations.allowremove --cfg.identities.allowremove"

-- `runCA`: the network of the caller is not used.
unfoldable pub run_ca : CaOpts → Option Parent → ContainerOpts
unfolding ca_command
run_ca o parent = set_network "bridge" [] (
    set_port_bind (o.port <> ":7054") (
      with_image ("hyperledger/fabric-ca:" <> o.image_tag) ("sh" ∷ "-c" ∷ ca_command o parent ∷ [])
        o.container_name))

pub record OrdererRun : Type 0 where
  pub container_name : String
  pub image_tag : String
  pub port : String
  pub port_admin : String
  pub network : String
  pub volume_name : String
  pub state_volume : Option String
  pub logging_level : Option String
  pub opts : Orderer.OrdererOpts

-- `raft_tls.host = container_name`, and the msp has no file to start from.
abbrev pub with_raft_host : String → Option RaftTls → Option RaftTls
with_raft_host host none = none
with_raft_host host (some r) = some record r { host = some host }

abbrev pub orderer_opts_of : OrdererRun → Orderer.OrdererOpts
orderer_opts_of r = record r.opts {
  bootstrap_file = none;
  raft_tls = with_raft_host r.container_name r.opts.raft_tls;
}

abbrev pub orderer_container :
    OrdererRun → Option (Operations × String) → List Setting → ContainerOpts
orderer_container r operations env = operations_port operations ":8443" (
    volume_if r.state_volume orderer_state (
      set_network r.network (r.container_name ∷ []) (
        set_port_bind (r.port <> ":7050") (
          set_port_bind (r.port_admin <> ":9443") (
            set_volume r.volume_name msp_root
              record (with_image ("hyperledger/fabric-orderer:" <> r.image_tag) ("orderer" ∷ [])
                r.container_name) { env = env })))))

-- `runOrderer`: without `raft_tls` the assignment throws.
unfoldable pub run_orderer :
    OrdererRun → Option (Operations × String) → Option Metrics → Option ContainerOpts
unfolding orderer_env
run_orderer r operations metrics = elim r.opts.raft_tls [
  | none ↦ none
  | some raft ↦
      elim (orderer_env (orderer_opts_of r) r.logging_level (operations_of operations) metrics) [
        | none ↦ none
        | some env ↦ some (orderer_container r operations env)
      ]
]

pub record PeerRun : Type 0 where
  pub container_name : String
  pub image_tag : String
  pub port : String
  pub volume_name : String
  pub state_volume : Option String
  pub logging_level : Option String
  pub opts : PeerOpts
  pub chaincode_opts : Option ChaincodeOpts

-- `chaincodeOpts && chaincodeOpts.dockerPort`
abbrev pub has_docker_port : Option ChaincodeOpts → Bool
has_docker_port none = false
has_docker_port (some c) = is_given c.docker_port

-- `host_sock` is the socket on the host.
abbrev pub docker_access : String → Bool → ContainerOpts → ContainerOpts
docker_access host_sock true o = record o { host_gateway = true }
docker_access host_sock false o = set_volume host_sock docker_sock o

abbrev pub peer_container :
    String → PeerRun → Option (Operations × String) → List Setting → ContainerOpts
peer_container host_sock r operations env = volume_if r.state_volume peer_state (
    operations_port operations ":9443" (
      set_network r.opts.network (r.opts.msp.peer_host_name ∷ []) (
        set_port_bind (r.port <> ":7051") (
          docker_access host_sock (has_docker_port r.chaincode_opts) (
            set_volume r.volume_name msp_root
              record (with_image ("hyperledger/fabric-peer:" <> r.image_tag)
                ("peer" ∷ "node" ∷ "start" ∷ []) r.container_name) { env = env })))))

-- `runPeer`
unfoldable pub run_peer :
    String → PeerRun → Option (Operations × String) → Option Metrics → Option ContainerOpts
unfolding peer_env
run_peer host_sock r operations metrics =
    elim (peer_env r.opts r.logging_level (operations_of operations) metrics r.chaincode_opts) [
      | none ↦ none
      | some env ↦ some (peer_container host_sock r operations env)
    ]

pub record CouchRun : Type 0 where
  pub container_name : String
  pub port : Option String
  pub network : String
  pub user : Option String
  pub password : Option String

-- `runCouchDB`
unfoldable pub run_couch_db : CouchRun → ContainerOpts
run_couch_db r =
    let base =
      set_network r.network (r.container_name ∷ [])
        record (with_image "couchdb:3.3.2" [] r.container_name) {
          env =
              ("COUCHDB_USER" := default_string r.user "admin")
              ∷ ("COUCHDB_PASSWORD" := default_string r.password "adminpw")
              ∷ [];
        } in
    if is_given r.port then set_port_bind (or_string r.port "" <> ":5984") base else base
