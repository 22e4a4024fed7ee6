-- ===== src/Ca/Generation.antt =====
-- `CaCryptoGen` of nodejs/ca/ca-crypto-gen.js: what it asks the CA and which
-- files it writes. The SDK's user is a parameter, and the wait between two attempts is left out.
pub mod Laws
use fabric_common.Base.{
  ℕ, zero, suc, Bool, true, false, Option, none, some, List, [], ◌∷◌, ◌++◌, Text, codes,
  if◌then◌else◌,
}
use fabric_common.Base.Result.{Result, ok, err}
use fabric_common.Base.Io.{Io, ◌>>=◌, pure, raise}
use fabric_common.Endorsement.Lifecycle.{is_given, shown}
use fabric_common.Crypto.Files.{Bytes, FileSystem}
use fabric_common.Crypto.Location.{NodeType, orderer, peer, node, user, MspType, CryptoPath, msp}
use fabric_common.Crypto.Material.{
  Material, Found, crypto_exist_local, to_admin_certs, to_msp, to_tls, to_org_admin, to_org_tls,
  load_from_local,
}
use fabric_common.Ca.Identity.{service, call, IdentityService, IdentityRequest, create_if_not_exist}
use fabric_common.Ca.Affiliation.{AffiliationService}
use fabric_common.Ca.Affiliation as Affiliation
use fabric_common.Ca.World.{
  EnrollRequest, Enroller, Stop, files, authority, waiting, Registration, World, on_files, on_ca,
  enroll, registration,
}

abbrev pub or_else : Option Text → Option Text → Option Text
or_else a b = if is_given a then a else b

-- `${root}.${name}`
abbrev pub below : Option Text → Text → Option Text
below root name = some (shown root ++ codes "." ++ name)

abbrev pub node_name : NodeType → Text
node_name orderer = codes "orderer"
node_name peer = codes "peer"

module _ (F : FileSystem) {W X Attribute Identity Affil User : Type 0}
    (identities : IdentityService W X Attribute Identity)
    (affiliations : AffiliationService W X Affil) (enroller : Enroller W X)
    (certificate_of : User → Bytes) (build : Text → Bytes → Bytes → User) (node_ous : Bytes)
    (c : CryptoPath F.FilePath) where
  abbrev pub Gen : Type 0 → Type 0
  Gen A = Io (World F.State W) (Stop X) A

  unfoldable pub register_if_not_exist :
      Option Text → Option Text → Option Text → Option Text → Gen Registration
  unfolding create_if_not_exist registration
  register_if_not_exist id secret affiliation role =
      let q : IdentityRequest Attribute = record {
        enrollment_id = id;
        enrollment_secret = secret;
        affiliation = affiliation;
        type = role;
        max_enrollments = none;
        attrs = none;
        caname = none;
      } in
      on_ca (create_if_not_exist identities q) >>= λ created. pure (registration id secret created)

  abbrev pub request_for :
      Option Text → Option Text → Option Text → List (Option Text) → EnrollRequest
  request_for id secret profile dns = record {
    enrollment_id = id;
    enrollment_secret = secret;
    profile = profile;
    subject = none;
    dns = dns;
  }

  abbrev pub enrolled : Option Text → Option Text → Option Text → List (Option Text) → Gen Material
  enrolled id secret profile dns =
      on_ca (call (enroll enroller (request_for id secret profile dns)))

  -- What `initAdmin` does about the enrolment; `none` is to try again.
  abbrev pub judge_enrolment : Result (Stop X) Material → Option (Result (Stop X) Material)
  judge_enrolment (ok m) = some (ok m)
  judge_enrolment (err (authority (service x))) =
      if enroller.is_endpoint_failure x then none else some (err (authority (service x)))
  judge_enrolment (err x) = some (err x)

  abbrev pub settle_enrolment :
      Option (Result (Stop X) Material)
      → Result (Stop X) Material × World F.State W
      → World F.State W
      → Result (Stop X) Material × World F.State W
  settle_enrolment none again w = again
  settle_enrolment (some r) again w = (r, w)

  -- The enrolment of `initAdmin`, at most `fuel` times.
  unfoldable pub enroll_admin : ℕ → Gen Material
  unfolding enroll
  enroll_admin zero w = (err waiting, w)
  enroll_admin (suc fuel) w =
      let (r, w') = enrolled c.user_name c.password none [] w in
      settle_enrolment (judge_enrolment r) (enroll_admin fuel w') w'

  -- `initAdmin`
  unfoldable pub init_admin : ℕ → NodeType → Gen Unit
  unfolding enroll_admin to_msp to_org_admin to_admin_certs
  init_admin fuel n = enroll_admin fuel >>= λ result. on_files (to_msp F c result (user n)) >>= λ _.
      on_files (to_org_admin F c node_ous result n true) >>= λ _.
      on_files (to_admin_certs F c result.certificate (user n))

  abbrev pub affiliate : Text → Gen Affil
  affiliate name = on_ca (Affiliation.create_if_not_exist affiliations name true)

  -- `init`; the user that `loadFromLocal` finds is one, since it throws otherwise.
  unfoldable pub init : ℕ → NodeType → Text → Option Text → Gen (Option User)
  unfolding init_admin load_from_local
  init fuel n mspid affiliation_root =
      let root = or_else affiliation_root (c.org_name n) in
      init_admin fuel n >>= λ _. on_files (load_from_local F c (build mspid) n true) >>= λ admin.
      affiliate (shown root ++ codes ".client") >>= λ _.
      affiliate (shown root ++ codes ".user") >>= λ _.
      affiliate (shown root ++ codes "." ++ node_name n) >>= λ _. pure admin

  -- `genOrg`
  unfoldable pub gen_org : NodeType → Gen Unit
  unfolding register_if_not_exist to_org_tls
  gen_org n =
      let org = c.org_name n in
      let secret = some (codes "passwd") in
      register_if_not_exist org secret org none >>= λ _.
      enrolled org secret (some (codes "tls")) (some (codes "*." ++ shown org) ∷ []) >>= λ result.
      on_files (to_org_tls F c result n)

  -- The TLS material of a node, if it is wanted.
  unfoldable pub gen_tls : Bool → NodeType → Option Text → Gen Unit
  unfolding to_tls
  gen_tls false n secret = pure tt
  gen_tls true n secret =
      let host = c.node_host_name n in
      enrolled host secret (some (codes "tls")) (host ∷ some (codes "localhost") ∷ []) >>= λ result.
      on_files (to_tls F c result (node n))

  -- What `genOrderer` and `genPeer` do where no key material exists.
  unfoldable pub gen_node : Bool → NodeType → Option Text → User → Gen Unit
  unfolding register_if_not_exist enroll to_admin_certs to_msp gen_tls
  gen_node tls n affiliation_root admin =
      let host = c.node_host_name n in
      on_files (to_admin_certs F c (certificate_of admin) (node n)) >>= λ _.
      register_if_not_exist host c.password (below affiliation_root (node_name n))
        (some (node_name n))
      >>= λ registered. enrolled host registered.enrollment_secret none [] >>= λ result.
          on_files (to_msp F c result (node n)) >>= λ _. gen_tls tls n registered.enrollment_secret

  abbrev pub unless_found : {A : Type 0} → A → Gen A → Option (Found F.FilePath) → Gen A
  unless_found a m none = m
  unless_found a m (some found) = pure a

  -- `genOrderer`: the administrator, if there was anything to do.
  unfoldable pub gen_orderer : User → Option Text → Gen (Option User)
  unfolding msp crypto_exist_local gen_node
  gen_orderer admin affiliation_root = on_files (msp F c (node orderer)) >>= λ _.
      on_files (crypto_exist_local F c (node orderer))
      >>= unless_found none (
          gen_node true orderer (or_else affiliation_root (c.org_name orderer)) admin >>= λ _.
          pure (some admin))

  -- `genPeer`, where `tls` is the generator's flag.
  unfoldable pub gen_peer : Bool → User → Gen Unit
  unfolding msp crypto_exist_local gen_node
  gen_peer tls admin = on_files (msp F c (node peer)) >>= λ _.
      on_files (crypto_exist_local F c (node peer))
      >>= unless_found tt (gen_node tls peer (c.org_name peer) admin)

  abbrev pub unless_loaded : Gen (Option User) → Option User → Gen (Option User)
  unless_loaded m none = m
  unless_loaded m (some u) = pure (some u)

  -- What `genUser` does where the user is not there.
  unfoldable pub new_user : NodeType → Text → Gen (Option User)
  unfolding register_if_not_exist enroll to_msp load_from_local
  new_user n mspid =
      let id = c.user_host_name n in
      register_if_not_exist id c.password (below (c.org_name n) (codes "user"))
        (some (codes "user"))
      >>= λ registered. enrolled id registered.enrollment_secret none [] >>= λ result.
          on_files (to_msp F c result (user n)) >>= λ _.
          on_files (load_from_local F c (build mspid) n false)

  -- `genUser`; `mspid` is that of the administrator.
  unfoldable pub gen_user : NodeType → Text → Gen (Option User)
  unfolding load_from_local new_user
  gen_user n mspid =
      on_files (load_from_local F c (build mspid) n false) >>= unless_loaded (new_user n mspid)

  -- `genClientKeyPair`
  unfoldable pub gen_client_key_pair : Option Text → Option Text → Option Text → Gen Material
  unfolding register_if_not_exist enroll
  gen_client_key_pair id secret affiliation_root =
      register_if_not_exist id secret (below affiliation_root (codes "client"))
        (some (codes "client"))
      >>= λ registered. enrolled id registered.enrollment_secret (some (codes "tls")) []
