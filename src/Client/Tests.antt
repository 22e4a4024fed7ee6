-- ===== src/Client/Tests.antt =====
-- The options of endpoints and a peer's connections at concrete values, and the witnesses.
use fabric_common.Base.{◌≡◌, refl, true, false, Option, none, some, [], ◌∷◌, ◌++◌, Text, codes}
use fabric_common.Base.Result.{Result, ok, err}
use fabric_common.Events.Deliver.{Endpoint, host_of, pem_of}
use fabric_common.Client.Remote.{
  undefined, string, integer, pos, Opts, get, has_to_lower_case, remote_opts_transform,
}
use fabric_common.Client.Remote.Laws.{described, distinct, has_key, get-remote_opts_transform}
use fabric_common.Client.Endpoint.{PeerOpts, client_opts, endpoint_options}
use fabric_common.Client.Endpoint.Laws.{endpoint_options-no_tls}
use fabric_common.Client.Peer.{
  Peer, full_block, connect_peer, connect_stream, disconnect_stream, is_stream_ready, ping,
}
use fabric_common.Client.User.{own_key, build_user, private_key_of}
use fabric_common.Client.Peer.Laws.{connect_peer-ping}

abbrev custom : Opts
custom =
    ("host", string (codes "peer0"))
    ∷ ("waitForReadyTimeout", integer (pos 500))
    ∷ ("sslTargetNameOverride", string (codes "peer0.org"))
    ∷ ("pem", undefined)
    ∷ []

custom-distinct : distinct custom ≡ true
unfolding distinct has_key
custom-distinct = refl

custom-host : has_to_lower_case (get "host" custom) ≡ true
unfolding get
custom-host = refl

get-remote_opts_transform_example :
    (r : Opts) × (remote_opts_transform custom ≡ ok r)
    × (get "grpc-wait-for-ready-timeout" r ≡ described custom "grpc-wait-for-ready-timeout")
get-remote_opts_transform_example =
    get-remote_opts_transform custom "grpc-wait-for-ready-timeout" custom-distinct custom-host

-- The caller's timeout is the endpoint's.
described_timeout : described custom "grpc-wait-for-ready-timeout" ≡ integer (pos 500)
unfolding described get
described_timeout = refl

abbrev no_files : Text → Option Text
no_files path = none

abbrev peer_opts : PeerOpts
peer_opts = record {
  peer_port = codes "7051";
  peer_host_name = some (codes "peer0.org");
  cert = none;
  pem = none;
  host = none;
  client_key = some (codes "client.key");
  client_cert = none;
}

no_pem : pem_of no_files (client_opts peer_opts).server ≡ []
unfolding pem_of
no_pem = refl

endpoint_options-no_tls_example :
    (r : Opts) × (endpoint_options no_files (client_opts peer_opts) ≡ ok r)
    × (get "url" r
        ≡ string (
            codes "grpc://" ++ host_of (client_opts peer_opts).server ++ codes ":" ++ codes "7051"))
    × (get "pem" r ≡ undefined)
    × (get "clientKey" r ≡ undefined)
    × (get "clientCert" r ≡ undefined)
    × (get "grpc.ssl_target_name_override" r ≡ undefined)
endpoint_options-no_tls_example = endpoint_options-no_tls no_files (client_opts peer_opts) no_pem

abbrev idle : Endpoint
idle = record { connected = false; has_service = false; connect_attempted = false }

abbrev new_peer : Peer
new_peer = record { endorser = idle; eventer = idle; discoverer = idle; stream = none }

abbrev opens : Endpoint → Result Text Endpoint
opens e = ok record e { connected = true; has_service = true }

-- The deadline passes: the attempt is noted, and the endpoint is not connected.
abbrev times_out : Endpoint → Result Text (Unit {0}) × Endpoint
times_out e = (
  err (codes "Failed to connect before the deadline on Endorser"),
  record e { connected = false; connect_attempted = true },
)

times_out-keeps : (e : Endpoint) → e.has_service ≡ true → (times_out e).1.has_service ≡ true
times_out-keeps e h = h

abbrev is_ready : {X : Type 0} → Endpoint → Result X (Unit {0}) × Endpoint
is_ready e = (ok tt, record e { connected = true; connect_attempted = true })

-- A peer that does not answer in time is reported as not there.
slow_peer : (ping times_out new_peer).0 ≡ ok false
unfolding ping
slow_peer = refl

connect_peer-ping_example :
    ((ping times_out new_peer).1.endorser.has_service ≡ true)
    × ((connect_peer opens (ping times_out new_peer).1).1.endorser
        ≡ record { connected = false; has_service = true; connect_attempted = true })
connect_peer-ping_example = connect_peer-ping opens times_out new_peer times_out-keeps

-- A stream is ready once it is connected, and no longer when it is disconnected.
stream_ready : is_stream_ready (connect_stream {X = Text} is_ready full_block new_peer).1 ≡ true
unfolding is_stream_ready connect_stream
stream_ready = refl

stream_gone :
    is_stream_ready
      (disconnect_stream [] (connect_stream {X = Text} is_ready full_block new_peer).1).1
    ≡ false
unfolding is_stream_ready connect_stream disconnect_stream
stream_gone = refl

-- A user without a certificate cannot be built where its file is missing.
no_certificate :
    build_user {X = Text} {Key = Text}
      (λ path. err path)
      (λ s. ok s)
      record {
        key = some (own_key (codes "key"));
        keystore = [];
        certificate = none;
        cert = codes "cert.pem";
        mspid = codes "org1MSP";
      }
    ≡ err (codes "cert.pem")
unfolding build_user private_key_of
no_certificate = refl
