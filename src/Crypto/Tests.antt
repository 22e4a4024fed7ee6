-- ===== src/Crypto/Tests.antt =====
-- Key material in memory: the witnesses of what is proved about it.
use fabric_common.Base.{◌≡◌, refl, true, none, some, [], ◌∷◌, Text, codes}
use fabric_common.Base.Result.{ok}
use fabric_common.Crypto.Files.Memory.{memory, memory-IsLawful, path_eq-apart, FilePath, Store}
use fabric_common.Crypto.Location.{mkdir, peer, node, CryptoPath, new_crypto_path, host_of}
use fabric_common.Crypto.Location.Quiet.{msp_files, key_path}
use fabric_common.Crypto.Material.{Material, Found, to_msp, crypto_exist_local}
use fabric_common.Crypto.Material.Laws.{to_msp-crypto_exist_local}

abbrev org : Text
org = codes "org1"

abbrev host : Text
host = codes "peer0.org1"

abbrev peer0 : CryptoPath FilePath
peer0 =
    new_crypto_path [] mkdir none (some record { org = some org; name = some (codes "peer0") }) none
      none

abbrev material : Material
material = record { key = 1 ∷ []; certificate = 2 ∷ []; root_certificate = 3 ∷ [] }

to_msp-crypto_exist_local_example :
    let files = msp_files memory peer0 (node peer) org host in
    (t : Store) × (to_msp memory peer0 material (node peer) [] ≡ (ok tt, t))
    × (memory.read t files.signcerts ≡ some (2 ∷ []))
    × (memory.read t (key_path memory peer0 (node peer) org host) ≡ some (1 ∷ []))
    × (found : Found FilePath) × (u : Store) × (crypto_exist_local memory peer0 (node peer) t
        ≡ (ok (some found), u))
    × (found.signcerts ≡ files.signcerts)
    × (memory.path_exists u found.keystore ≡ true)
unfolding new_crypto_path host_of
to_msp-crypto_exist_local_example =
    to_msp-crypto_exist_local memory memory-IsLawful peer0 (λ h. cc) (node peer) refl refl []
      material (path_eq-apart _ _ refl) (path_eq-apart _ _ refl) (path_eq-apart _ _ refl)
