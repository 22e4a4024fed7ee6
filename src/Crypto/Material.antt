-- ===== src/Crypto/Material.antt =====
-- The key material that `CryptoPath` of nodejs/path.js writes and looks up, with
-- nodejs/formatter/path.js, nodejs/formatter/key.js and `loadFromLocal` of nodejs/user.js. The encoder
-- of YAML is a parameter, and so is what builds a user from its key and certificate.
pub mod Laws
use fabric_common.Base.{
  ◌≡◌, Bool, true, false, Option, none, some, List, [], ◌∷◌, map, keep, Text, codes, text_eq, ◌||◌,
  if◌then◌else◌,
}
use fabric_common.Base.Result.{Result, ok, err}
use fabric_common.Base.Io.{Io, ◌>>=◌, pure, raise}
use fabric_common.Crypto.Files.{Bytes, FileSystem}
use fabric_common.Crypto.Location.{
  Failure, no_entry, no_user, NodeType, MspType, user, CryptoPath, MspFiles, msp_file, tls_file,
  org_file,
}

-- What an enrolment returns; the key as its bytes.
pub record Material : Type 0 where
  pub key : Bytes
  pub certificate : Bytes
  pub root_certificate : Bytes

-- `endsWith`
abbrev pub ends_with : Text → Text → Bool
ends_with [] t = text_eq [] t
ends_with (c ∷ s) t = text_eq (c ∷ s) t || ends_with s t

abbrev pub is_key_file : Text → Bool
is_key_file name = ends_with name (codes "_sk")

abbrev pub first {ℓ} : {A : Type ℓ} → List A → Option A
first [] = none
first (a ∷ rest) = some a

abbrev pub priv_sk : Text
priv_sk = codes "priv_sk"

-- What `cryptoExistLocal` finds.
pub record Found (FilePath : Type 0) : Type 0 where
  pub keystore : FilePath
  pub signcerts : FilePath

module _ (F : FileSystem) where
  abbrev pub key_files_of : F.FilePath → Option (List Text) → Result Failure (List F.FilePath)
  key_files_of dir none = err no_entry
  key_files_of dir (some names) = ok (map (F.child dir) (keep is_key_file names))

  -- `findKeyFiles`
  unfoldable pub find_key_files : F.FilePath → Io F.State Failure (List F.FilePath)
  find_key_files dir s = (key_files_of dir (F.readdir s dir), s)

  abbrev pub read_file : F.FilePath → Io F.State Failure Bytes
  read_file p s = elim (F.read s p) [ none ↦ (err no_entry, s) | some b ↦ (ok b, s) ]

  abbrev pub read_first : List F.FilePath → Io F.State Failure (Option Bytes)
  read_first [] = pure none
  read_first (p ∷ ps) = read_file p >>= λ b. pure (some b)

  -- `getOneKeystore`
  unfoldable pub get_one_keystore : F.FilePath → Io F.State Failure (Option Bytes)
  unfolding find_key_files
  get_one_keystore dir = find_key_files dir >>= read_first

  abbrev pub write : F.FilePath → Bytes → Io F.State Failure (Unit {0})
  write p b s = (ok tt, F.output p b s)

  -- `toKeystore`
  unfoldable pub to_keystore : Bytes → F.FilePath → Io F.State Failure (Unit {0})
  to_keystore key dir s = (ok tt, F.output (F.child dir priv_sk) key (F.ensure_dir dir s))

  module _ (c : CryptoPath F.FilePath) where
    -- `MSPKeystore`
    unfoldable pub msp_keystore : MspType → Io F.State Failure (Option F.FilePath)
    unfolding msp_file find_key_files
    msp_keystore type =
        msp_file F c type >>= λ files. find_key_files files.keystore >>= λ ps. pure (first ps)

    -- `pathExistsSync` of the key file, which may be undefined.
    abbrev pub found_key :
        F.FilePath → Option F.FilePath → Io F.State Failure (Option (Found F.FilePath))
    found_key signcerts none s = (ok none, s)
    found_key signcerts (some k) s =
        let found : Found F.FilePath = record { keystore = k; signcerts = signcerts } in
        (ok (if F.path_exists s k then some found else none), s)

    -- What `cryptoExistLocal` does once it has the path of the certificate.
    unfoldable pub look_for_key :
        MspType → F.FilePath → Io F.State Failure (Option (Found F.FilePath))
    unfolding msp_keystore
    look_for_key type signcerts s =
        let key = (msp_keystore type >>= found_key signcerts) s in
        if F.path_exists s signcerts then key else (ok none, s)

    -- `cryptoExistLocal`
    unfoldable pub crypto_exist_local : MspType → Io F.State Failure (Option (Found F.FilePath))
    unfolding msp_file look_for_key
    crypto_exist_local type = msp_file F c type >>= λ files. look_for_key type files.signcerts

    -- `toAdminCerts`
    unfoldable pub to_admin_certs : Bytes → MspType → Io F.State Failure (Unit {0})
    unfolding msp_file
    to_admin_certs certificate type =
        msp_file F c type >>= λ files. write files.admincerts certificate

    -- `toMSP`
    abbrev pub write_msp : Material → MspFiles F.FilePath → Io F.State Failure (Unit {0})
    write_msp m files = write files.signcerts m.certificate >>= λ _.
        to_keystore m.key files.keystore >>= λ _. write files.cacerts m.root_certificate

    unfoldable pub to_msp : Material → MspType → Io F.State Failure (Unit {0})
    unfolding msp_file
    to_msp m type = msp_file F c type >>= write_msp m

    -- `toTLS`
    unfoldable pub to_tls : Material → MspType → Io F.State Failure (Unit {0})
    unfolding msp_file tls_file
    to_tls m type = tls_file F c type >>= λ tls. msp_file F c type >>= λ files.
        write tls.key m.key >>= λ _. write tls.cert m.certificate >>= λ _.
        write tls.ca_cert m.root_certificate >>= λ _. write files.tlscacerts m.root_certificate

    abbrev pub write_node_ou : Bool → F.FilePath → Bytes → Io F.State Failure (Unit {0})
    write_node_ou false p b = pure tt
    write_node_ou true p b = write p b

    -- `toOrgAdmin`; `node_ous` is the YAML of its constant.
    unfoldable pub to_org_admin : Bytes → Material → NodeType → Bool → Io F.State Failure (Unit {0})
    unfolding org_file
    to_org_admin node_ous m n node_ou = org_file F c n >>= λ files.
        write files.cacerts m.root_certificate >>= λ _. write files.ca m.root_certificate >>= λ _.
        write files.admincerts m.certificate >>= λ _. write_node_ou node_ou files.nodeou node_ous

    -- `toOrgTLS`
    unfoldable pub to_org_tls : Material → NodeType → Io F.State Failure (Unit {0})
    unfolding org_file
    to_org_tls m n = org_file F c n >>= λ files.
        write files.tlsca m.root_certificate >>= λ _. write files.tlscacerts m.root_certificate

    -- `loadFromLocal`; with `toThrow` a missing user is an error.
    abbrev pub load_found :
        {User : Type 0}
        → (Bytes → Bytes → User)
        → Bool
        → Option (Found F.FilePath)
        → Io F.State Failure (Option User)
    load_found build true none = raise no_user
    load_found build false none = pure none
    load_found build to_throw (some found) = read_file found.keystore >>= λ key.
        read_file found.signcerts >>= λ certificate. pure (some (build key certificate))

    unfoldable pub load_from_local :
        {User : Type 0}
        → (Bytes → Bytes → User)
        → NodeType
        → Bool
        → Io F.State Failure (Option User)
    unfolding crypto_exist_local
    load_from_local build n to_throw = crypto_exist_local (user n) >>= load_found build to_throw
