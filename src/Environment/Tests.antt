-- ===== src/Environment/Tests.antt =====
-- Environments of concrete containers, and the witness of what is proved about them.

use fabric_common.Base.Result.{ok}
use fabric_common.Base.{
  ◌∷◌, not, keep, text_eq, codes, ◌≡◌, refl, true, false, Option, none, some, List, [],
}
use fabric_common.Environment.Setting.{Setting}
use fabric_common.Environment.Peer.{PeerOpts, ChaincodeOpts, peer_env}
use fabric_common.Environment.Orderer.{orderer_env, RaftTls}
use fabric_common.Environment.Docker.{OrdererRun, run_orderer}
use fabric_common.Environment.Clearing.{Container, Engine, chaincode_clear}
use fabric_common.Environment.Clearing.Laws.{Deletes, Cleared, chaincode_clear-Cleared}

abbrev peer : PeerOpts
peer = record {
  network = "net";
  msp = record { config_path = "/msp"; id = "org1MSP"; peer_host_name = "peer0" };
  tls = some record { key = "k"; cert = "c"; ca_cert = "ca"; root_cas = [] };
  couch_db = none;
}

abbrev docker : ChaincodeOpts
docker = record { attach_log = true; docker_port = some "2375"; tls = none; external = false }

abbrev or_empty : Option (List Setting) → List Setting
or_empty none = []
or_empty (some env) = env

abbrev env : List Setting
unfolding peer_env
env = or_empty (peer_env peer none none none (some docker))

peer_env-runs : peer_env peer none none none (some docker) ≡ some env
unfolding peer_env
peer_env-runs = refl

-- A Raft orderer needs `raft_tls`.
raft_without_tls :
    orderer_env
      record {
        bootstrap_file = none;
        config_path = "/msp";
        id = "ordererMSP";
        tls = none;
        orderer_type = some "etcdraft";
        raft_tls = none;
        admin_tls = none;
      }
      none
      none
      none
    ≡ none
unfolding orderer_env
raft_without_tls = refl

abbrev orderer_run : Option RaftTls → OrdererRun
orderer_run raft = record {
  container_name = "orderer0";
  image_tag = "2.5";
  port = "7050";
  port_admin = "9443";
  network = "net";
  volume_name = "msp";
  state_volume = none;
  logging_level = none;
  opts = record {
    bootstrap_file = none;
    config_path = "/msp";
    id = "ordererMSP";
    tls = none;
    orderer_type = none;
    raft_tls = raft;
    admin_tls = none;
  };
}

-- An orderer of any type is not started without `raft_tls`.
not_started : run_orderer (orderer_run none) none none ≡ none
unfolding run_orderer
not_started = refl

abbrev chaincode_container : Container
chaincode_container = record {
  id = codes "1";
  image = codes "dev";
  names = codes "/dev-peer0" ∷ [];
}

abbrev peer_container : Container
peer_container = record { id = codes "2"; image = codes "peer"; names = codes "/peer0" ∷ [] }

-- An engine with containers alone.
abbrev engine : Engine Unit
engine = record {
  State = List Container;
  image_list = λ s. [];
  container_list = λ s. s;
  image_delete = λ id s. (ok tt, s);
  container_delete = λ id s. (ok tt, keep (λ c. not (text_eq c.id id)) s);
  container_exec = λ name cmd s. (ok tt, s);
  container_restart = λ name s. (ok tt, s);
}

engine-Deletes : Deletes engine
engine-Deletes = record {
  container = λ id s. (keep (λ c. not (text_eq c.id id)) s, refl, refl);
  image = λ id s. (s, refl, refl);
}

chaincode_clear-Cleared_example :
    Cleared engine engine-Deletes
      (chaincode_container ∷ [])
      (chaincode_container ∷ peer_container ∷ [])
      (chaincode_clear engine none (chaincode_container ∷ peer_container ∷ []))
chaincode_clear-Cleared_example =
    chaincode_clear-Cleared engine engine-Deletes none (chaincode_container ∷ peer_container ∷ [])
