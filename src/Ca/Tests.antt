-- ===== src/Ca/Tests.antt =====
-- A CA in memory that counts its requests and refuses TLS certificates: the witness of what is
-- proved about the generation of key material, and a run.
use fabric_common.Base.{ℕ, suc, ◌≡◌, refl, true, false, none, some, [], ◌∷◌, Text, codes}
use fabric_common.Base.Result.{Result, ok, err}
use fabric_common.Crypto.Files.Memory.{memory, memory-IsLawful, path_eq-apart, FilePath, Store}
use fabric_common.Crypto.Location.{
  mkdir, peer, node, CryptoPath, new_crypto_path, host_of, msp, msp_file, resolve,
}
use fabric_common.Crypto.Material.{
  Material, to_msp, crypto_exist_local, to_admin_certs, to_keystore,
}
use fabric_common.Ca.Identity.{IdentityService, create_new, service}
use fabric_common.Ca.Affiliation.{AffiliationService}
use fabric_common.Ca.World.{Enroller, World, Stop, authority, enroll}
use fabric_common.Ca.Generation.{gen_peer, gen_node, gen_tls, register_if_not_exist}
use fabric_common.Ca.Generation.Laws.{gen_peer-again}

abbrev org : Text
org = codes "org1"

abbrev host : Text
host = codes "peer0.org1"

abbrev peer0 : CryptoPath FilePath
peer0 =
    new_crypto_path [] mkdir none (some record { org = some org; name = some (codes "peer0") }) none
      (some (codes "secret"))

abbrev material : Material
material = record { key = 1 ∷ []; certificate = 2 ∷ []; root_certificate = 3 ∷ [] }

abbrev identities : IdentityService ℕ Unit Unit Unit
identities = record {
  allowed_types = codes "peer" ∷ [];
  errors_of = λ x.
      some (
        record { code = 63; message = codes "Failed to get User: sql: no rows in result set" }
        ∷ []);
  get_one = λ id n. (err tt, suc n);
  get_all = λ n. (ok [], suc n);
  create = λ q n. (ok (codes "secret"), suc n);
  update = λ id q n. (ok tt, suc n);
  delete = λ id n. (ok tt, suc n);
}

abbrev affiliations : AffiliationService ℕ Unit Unit
affiliations = record {
  errors_of = λ x. none;
  get_one = λ name n. (ok tt, suc n);
  get_all = λ n. (ok ([], []), suc n);
  create = λ name force n. (ok tt, suc n);
  delete = λ name n. (ok tt, suc n);
}

abbrev enroller : Enroller ℕ Unit
enroller = record {
  new_csr = λ size subject dns n. ((1 ∷ [], []), n);
  enroll = λ id secret csr profile n.
      (elim profile [ none ↦ ok (2 ∷ [], 3 ∷ []) | some p ↦ err tt ], suc n);
  is_endpoint_failure = λ x. false;
}

abbrev generate : World Store ℕ → Result (Stop Unit) (Unit {0}) × World Store ℕ
generate = gen_peer memory identities affiliations enroller (λ u. []) (λ m k b. tt) [] peer0 true tt

abbrev stored : Store
stored = (to_msp memory peer0 material (node peer) []).1

gen_peer-again_example :
    let w : World Store ℕ = record { files = stored; ca = 0 } in
    let tls_key =
      codes "server.key"
      ∷ codes "tls"
      ∷ host
      ∷ codes "peers"
      ∷ org
      ∷ codes "peerOrganizations"
      ∷ [] in
    (t : Store) × (generate w ≡ (ok tt, record { files = t; ca = 0 }))
    × (memory.read t tls_key ≡ memory.read stored tls_key)
unfolding new_crypto_path host_of to_msp to_keystore msp_file msp resolve
gen_peer-again_example =
    gen_peer-again memory identities affiliations enroller (λ u. []) (λ m k b. tt) [] peer0
      memory-IsLawful (λ h. cc) refl refl true tt record { files = stored; ca = 0 } [] material
      (codes "server.key"
        ∷ codes "tls"
        ∷ host
        ∷ codes "peers"
        ∷ org
        ∷ codes "peerOrganizations"
        ∷ [])
      (path_eq-apart _ _ refl) (path_eq-apart _ _ refl) (path_eq-apart _ _ refl) refl

abbrev fresh : World Store ℕ
fresh = record { files = []; ca = 0 }

-- The TLS enrolment throws behind four requests, and from then on the generation of the peer's key
-- material returns without another one.
throws_once : (generate fresh).0 ≡ err (authority (service tt))
unfolding gen_peer gen_node new_crypto_path host_of msp msp_file crypto_exist_local to_admin_certs
    to_msp enroll register_if_not_exist gen_tls create_new to_keystore
throws_once = refl

then_returns :
    let again = generate (generate fresh).1 in
    (again.0 ≡ ok tt) × ((generate fresh).1.ca ≡ 4) × (again.1.ca ≡ 4)
unfolding gen_peer gen_node new_crypto_path host_of msp msp_file crypto_exist_local to_admin_certs
    to_msp enroll register_if_not_exist gen_tls create_new to_keystore
then_returns = (refl, refl, refl)
