-- ===== src/Client/Endpoint/Laws.antt =====
-- What the options of a client's endpoint hold.
use Prim.Native.String.{String}
use fabric_common.Base.{◌≡◌, refl, ap, ◌∙◌, Bool, true, false, Option, [], ◌∷◌, ◌++◌, Text, codes}
use fabric_common.Base.Result.{Result, ok, ◌>>=◌}
use fabric_common.Events.Deliver.{host_of, pem_of, orderer_url}
use fabric_common.Client.Remote.{
  Value, undefined, string, Opts, get, merge, default_grpc_options, normalised,
  remote_opts_transform,
}
use fabric_common.Client.Remote.Laws.{described, distinct, has_key, get-normalised}
use fabric_common.Client.Endpoint.{
  ClientOpts, Failure, uses_tls, client_file, given, transformed, endpoint_options,
}

given-distinct :
    (read_file : Text → Option Text) (o : ClientOpts) (key cert : Value)
    → distinct (given read_file o key cert) ≡ true
unfolding distinct has_key given
given-distinct read_file o key cert = refl

-- The entries that are given without a certificate.
abbrev plain : (Text → Option Text) → ClientOpts → Opts
plain read_file o =
    ("url", string (codes "grpc://" ++ host_of o.server ++ codes ":" ++ o.server.orderer_port))
    ∷ ("host", string (host_of o.server))
    ∷ ("pem", string [])
    ∷ ("sslTargetNameOverride", undefined)
    ∷ ("clientKey", undefined)
    ∷ ("clientCert", undefined)
    ∷ []

given-no_tls :
    (read_file : Text → Option Text) (o : ClientOpts)
    → pem_of read_file o.server ≡ []
    → given read_file o undefined undefined ≡ plain read_file o
unfolding given uses_tls orderer_url
given-no_tls read_file o h = rw h refl

get-plain :
    (read_file : Text → Option Text) (o : ClientOpts)
    → pem_of read_file o.server ≡ []
    → (k : String)
    → get k (merge default_grpc_options (normalised (given read_file o undefined undefined)))
      ≡ described (plain read_file o) k
get-plain read_file o h k =
    get-normalised _ k (given-distinct read_file o undefined undefined)
    ∙ ap (λ a. described a k) (given-no_tls read_file o h)

accepted :
    (read_file : Text → Option Text) (o : ClientOpts)
    → remote_opts_transform (given read_file o undefined undefined)
      ≡ ok (merge default_grpc_options (normalised (given read_file o undefined undefined)))
unfolding remote_opts_transform given get
accepted read_file o = refl

uses_tls-no_tls :
    (read_file : Text → Option Text) (o : ClientOpts)
    → pem_of read_file o.server ≡ []
    → uses_tls read_file o ≡ false
unfolding uses_tls
uses_tls-no_tls read_file o h = rw h refl

no_files :
    (read_file : Text → Option Text) (o : ClientOpts) (tls : Bool)
    → tls ≡ false
    → (k : Value → Value → Result Failure Opts)
    → (client_file read_file tls o.client_key >>= λ key.
        client_file read_file tls o.client_cert >>= λ cert. k key cert)
      ≡ k undefined undefined
unfolding client_file
no_files read_file o true h k = absurd (cc)
no_files read_file o false h k = refl

options_made :
    (read_file : Text → Option Text) (o : ClientOpts)
    → pem_of read_file o.server ≡ []
    → endpoint_options read_file o
      ≡ ok (merge default_grpc_options (normalised (given read_file o undefined undefined)))
unfolding endpoint_options
options_made read_file o h =
    no_files read_file o (uses_tls read_file o) (uses_tls-no_tls read_file o h)
      (λ key cert. transformed (remote_opts_transform (given read_file o key cert)))
    ∙ ap transformed (accepted read_file o)

-- Without a certificate there are options: the url is one without TLS, and neither the client's key or
-- certificate nor a name that overrides the host's is among them, whatever files exist.
pub endpoint_options-no_tls :
    (read_file : Text → Option Text) (o : ClientOpts)
    → pem_of read_file o.server ≡ []
    → (r : Opts) × (endpoint_options read_file o ≡ ok r)
      × (get "url" r
          ≡ string (codes "grpc://" ++ host_of o.server ++ codes ":" ++ o.server.orderer_port))
      × (get "pem" r ≡ undefined)
      × (get "clientKey" r ≡ undefined)
      × (get "clientCert" r ≡ undefined)
      × (get "grpc.ssl_target_name_override" r ≡ undefined)
unfolding described get
endpoint_options-no_tls read_file o h = (
  merge default_grpc_options (normalised (given read_file o undefined undefined)),
  options_made read_file o h,
  get-plain read_file o h "url" ∙ refl,
  get-plain read_file o h "pem" ∙ refl,
  get-plain read_file o h "clientKey" ∙ refl,
  get-plain read_file o h "clientCert" ∙ refl,
  get-plain read_file o h "grpc.ssl_target_name_override" ∙ refl,
)
