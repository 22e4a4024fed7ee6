-- ===== src/Client/Endpoint.antt =====
-- The options of a client's endpoint, as the constructors of nodejs/admin/peer.js and
-- nodejs/admin/orderer.js make them. `read_file` is `none` on a file that does not exist. The endpoint
-- itself is the SDK's.
pub mod Laws
use fabric_common.Base.{
  Bool, true, false, Option, none, some, List, [], ◌∷◌, not, if◌then◌else◌, Text, is_empty,
}
use fabric_common.Base.Result.{Result, ok, err, ◌>>=◌}
use fabric_common.Events.Deliver.{OrdererOpts, host_of, pem_of, orderer_url}
use fabric_common.Client.Remote.{Value, undefined, string, Opts, HostError, remote_opts_transform}

-- The arguments of the constructors: those that make the url, and the client's files.
pub record ClientOpts : Type 0 where
  pub server : OrdererOpts
  pub client_key : Option Text
  pub client_cert : Option Text

-- The names of the arguments of the constructor of a peer.
pub record PeerOpts : Type 0 where
  pub peer_port : Text
  pub peer_host_name : Option Text
  pub cert : Option Text
  pub pem : Option Text
  pub host : Option Text
  pub client_key : Option Text
  pub client_cert : Option Text

abbrev pub client_opts : PeerOpts → ClientOpts
client_opts o = record {
  server = record {
    orderer_port = o.peer_port;
    tls_ca_cert = o.cert;
    pem = o.pem;
    orderer_host_name = o.peer_host_name;
    host = o.host;
  };
  client_key = o.client_key;
  client_cert = o.client_cert;
}

pub data Failure : Type 0 where
  no_such_file : Text → Failure
  bad_host : HostError → Failure

abbrev pub value : Option Text → Value
value none = undefined
value (some s) = string s

abbrev pub transformed : Result HostError Opts → Result Failure Opts
transformed (ok r) = ok r
transformed (err x) = err (bad_host x)

module _ (read_file : Text → Option Text) where
  unfoldable pub uses_tls : ClientOpts → Bool
  unfolding pem_of
  uses_tls o = not (is_empty (pem_of read_file o.server))

  abbrev pub contents : Text → Result Failure Value
  contents path = elim (read_file path) [ none ↦ err (no_such_file path) | some s ↦ ok (string s) ]

  -- `path && fs.readFileSync(path).toString()`, where the path is kept only with TLS.
  unfoldable pub client_file : Bool → Option Text → Result Failure Value
  client_file false path = ok undefined
  client_file true none = ok undefined
  client_file true (some path) = if is_empty path then ok (string path) else contents path

  -- The object that the constructors give to `RemoteOptsTransform`.
  unfoldable pub given : ClientOpts → Value → Value → Opts
  unfolding host_of pem_of orderer_url uses_tls
  given o key cert =
      ("url", string (orderer_url read_file o.server))
      ∷ ("host", string (host_of o.server))
      ∷ ("pem", string (pem_of read_file o.server))
      ∷ (
        "sslTargetNameOverride",
        (if uses_tls o then value o.server.orderer_host_name else undefined),
      )
      ∷ ("clientKey", key)
      ∷ ("clientCert", cert)
      ∷ []

  unfoldable pub endpoint_options : ClientOpts → Result Failure Opts
  unfolding uses_tls client_file given remote_opts_transform
  endpoint_options o = client_file (uses_tls o) o.client_key >>= λ key.
      client_file (uses_tls o) o.client_cert >>= λ cert.
      transformed (remote_opts_transform (given o key cert))
