-- ===== src/Environment/Peer/Laws.antt =====
-- How often the environment of a peer sets a name.
use Prim.Native.String.{String}
use fabric_common.Base.{
  ℕ, ◌+◌, ◌≡◌, refl, sym, ◌∙◌, Bool, true, false, Option, none, some, List, [], ◌∷◌, if◌then◌else◌,
  arith, some_inj, Option-cases, inl, inr, Bool-cases, ◌||◌,
}
use fabric_common.Environment.Setting.{
  Setting, ◌:=◌, shown, metrics_provider, count, concat_all, count-concat_all, is_given, is_some,
  Tls, Operations, Metrics,
}
use fabric_common.Environment.Peer.{
  PeerOpts, ChaincodeOpts, ChaincodeTls, CouchDb, base_env, chaincode_tls_env, endpoint_env,
  chaincode_env, logging_env, tls_env, couch_env, operations_tls_env, operations_env, metrics_env,
  statsd_env, is_statsd, peer_env,
}

-- How often the options for chaincodes set the endpoint of Docker.
abbrev pub endpoints : Option ChaincodeOpts → ℕ
endpoints none = 0
endpoints (some c) = if is_given c.docker_port || c.external then 1 else 0

abbrev one_of : Bool → ℕ
one_of true = 1
one_of false = 0

abbrev pub key_name : String
key_name = "CORE_PEER_TLS_KEY_FILE"

abbrev pub endpoint_name : String
endpoint_name = "CORE_VM_ENDPOINT"

-- The two names in each section of the environment.
logging_count :
    (level : Option String)
    → (count endpoint_name (logging_env level) ≡ 0) × (count key_name (logging_env level) ≡ 0)
logging_count none = (refl, refl)
logging_count (some String.[]) = (refl, refl)
logging_count (some (String.◌∷◌ c s)) = (refl, refl)

tls_count :
    (tls : Option Tls)
    → (count endpoint_name (tls_env tls) ≡ 0)
      × (count key_name (tls_env tls) ≡ one_of (is_some tls))
tls_count none = (refl, refl)
tls_count (some t) = (refl, refl)

couch_count :
    (c : Option CouchDb)
    → (count endpoint_name (couch_env c) ≡ 0) × (count key_name (couch_env c) ≡ 0)
couch_count none = (refl, refl)
couch_count (some c) = (refl, refl)

operations_tls_count :
    (t : Option Tls)
    → (count endpoint_name (operations_tls_env t) ≡ 0) × (count key_name (operations_tls_env t) ≡ 0)
operations_tls_count none = (refl, refl)
operations_tls_count (some c) = (refl, refl)

operations_count :
    (o : Option Operations) (t : Option Tls)
    → (count endpoint_name (operations_env o t) ≡ 0) × (count key_name (operations_env o t) ≡ 0)
operations_count none t = (refl, refl)
operations_count (some o) t = operations_tls_count _

endpoint_count :
    (b : Bool) (c : ChaincodeOpts)
    → (count endpoint_name (endpoint_env b c) ≡ one_of (b || c.external))
      × (count key_name (endpoint_env b c) ≡ 0)
endpoint_count true c = (refl, refl)
endpoint_count false c = elim (Bool-cases c.external) [
  | inl t ↦ (rw t refl, rw t refl)
  | inr t ↦ (rw t refl, rw t refl)
]

chaincode_tls_count :
    (t : Option ChaincodeTls)
    → (count endpoint_name (chaincode_tls_env t) ≡ 0) × (count key_name (chaincode_tls_env t) ≡ 0)
chaincode_tls_count none = (refl, refl)
chaincode_tls_count (some c) = (refl, refl)

endpoints-one_of :
    (c : ChaincodeOpts) → endpoints (some c) ≡ one_of (is_given c.docker_port || c.external)
endpoints-one_of c = elim (Bool-cases (is_given c.docker_port || c.external)) [
  | inl t ↦ rw t refl
  | inr t ↦ rw t refl
]

chaincode_count :
    (c : Option ChaincodeOpts)
    → (count endpoint_name (chaincode_env c) ≡ endpoints c) × (count key_name (chaincode_env c) ≡ 0)
chaincode_count none = (refl, refl)
chaincode_count (some c) =
    let given = is_given c.docker_port in
    let (a, b) = chaincode_tls_count c.tls in
    let (d, e) = endpoint_count given c in
    let parts =
      chaincode_tls_env c.tls
      ∷ endpoint_env given c
      ∷ (("CORE_VM_DOCKER_ATTACHSTDOUT" := shown c.attach_log) ∷ [])
      ∷ [] in
    (
      count-concat_all endpoint_name parts ∙ omega (arith, a, d) ∙ sym (endpoints-one_of c),
      count-concat_all key_name parts ∙ omega (arith, b, e),
    )

statsd_count :
    (peer : String) (b : Bool) (host : Option String) (provider : Setting) (env : List Setting)
    → (elim (statsd_env b peer host) [ none ↦ none | some rest ↦ some (provider ∷ rest) ])
      ≡ some env
    → provider.name ≡ "CORE_METRICS_PROVIDER"
    → (count endpoint_name env ≡ 0) × (count key_name env ≡ 0)
statsd_count peer false host provider env h k = rw (sym (some_inj h)) (rw k (refl, refl))
statsd_count peer true none provider env h k = absurd (cc)
statsd_count peer true (some host) provider env h k = rw (sym (some_inj h)) (rw k (refl, refl))

metrics_count :
    (peer : String) (m : Option Metrics) (env : List Setting)
    → metrics_env peer m ≡ some env
    → (count endpoint_name env ≡ 0) × (count key_name env ≡ 0)
metrics_count peer none env h = rw (sym (some_inj h)) (refl, refl)
metrics_count peer (some m) env h =
    statsd_count peer (is_statsd m.provider) m.statsd_host
      ("CORE_METRICS_PROVIDER" := metrics_provider m.provider) env h refl

one_of_if : (b : Bool) → one_of b ≡ (if b then 1 else 0)
one_of_if true = refl
one_of_if false = refl

abbrev parts_of :
    PeerOpts
    → Option String
    → Option Operations
    → Option ChaincodeOpts
    → List Setting
    → List (List Setting)
parts_of o level operations chaincode last =
    base_env o
    ∷ chaincode_env chaincode
    ∷ logging_env level
    ∷ tls_env o.tls
    ∷ couch_env o.couch_db
    ∷ operations_env operations o.tls
    ∷ last
    ∷ []

sections :
    (o : PeerOpts) (level : Option String) (operations : Option Operations)
    (chaincode : Option ChaincodeOpts) (last : List Setting)
    → (count endpoint_name last ≡ 0) × (count key_name last ≡ 0)
    → (count endpoint_name (concat_all (parts_of o level operations chaincode last))
        ≡ 1 + endpoints chaincode)
      × (count key_name (concat_all (parts_of o level operations chaincode last))
          ≡ (if is_some o.tls then 1 else 0))
sections o level operations chaincode last (u, v) =
    let parts = parts_of o level operations chaincode last in
    let (a, a') = chaincode_count chaincode in
    let (b, b') = logging_count level in
    let (c, c') = tls_count o.tls in
    let (d, d') = couch_count o.couch_db in
    let (e, e') = operations_count operations o.tls in
    (
      count-concat_all endpoint_name parts ∙ omega (arith, u, a, b, c, d, e),
      count-concat_all key_name parts
          ∙ omega (arith, v, a', b', c', d', e')
          ∙ one_of_if (is_some o.tls),
    )

-- The environment of a peer sets the endpoint of Docker once, and a second time exactly if the
-- options for chaincodes give a port of Docker or ask for external builders. It sets the key file of
-- TLS once if TLS is given, and else not at all.
pub peer_env-count :
    (o : PeerOpts) (level : Option String) (operations : Option Operations)
    (metrics : Option Metrics) (chaincode : Option ChaincodeOpts) (env : List Setting)
    → peer_env o level operations metrics chaincode ≡ some env
    → (count endpoint_name env ≡ 1 + endpoints chaincode)
      × (count key_name env ≡ (if is_some o.tls then 1 else 0))
unfolding peer_env
peer_env-count o level operations metrics chaincode env h =
    elim (Option-cases (metrics_env o.msp.peer_host_name metrics)) [
      | inl f ↦ absurd (cc (rw (f, peer_env) at h))
      | inr (last, f) ↦
          let e = some_inj (rw (f, peer_env) at h) in
          rw (sym e) (
            sections o level operations chaincode last
              (metrics_count o.msp.peer_host_name metrics last f))
    ]
