-- ===== src/Crypto/Material/Laws.antt =====
-- The key material that is written is found again.

use fabric_common.Base.{
  or_left, or_right, ◌≡◌, ◌≢◌, refl, sym, ap, ◌∙◌, inl, inr, true, false, some, List, [], ◌∷◌, map,
  keep, Text, text_eq, Bool-cases, text_eq_iff,
}
use fabric_common.Base.Result.{ok}
use fabric_common.Base.Io.{◌>>=◌, pure, bind-ok}
use fabric_common.Crypto.Files.{Bytes, FileSystem, IsLawful, contains}
use fabric_common.Crypto.Location.{
  throw, MspType, get_node_type, CryptoPath, host_name, MspFiles, msp_file,
}
use fabric_common.Crypto.Location.Quiet.{msp_files, key_path, msp_file-IsQuiet}
use fabric_common.Crypto.Material.{
  Material, is_key_file, first, priv_sk, Found, find_key_files, msp_keystore, found_key,
  look_for_key, crypto_exist_local, write_msp, to_keystore, to_msp,
}

not_priv_sk : (n : Text) → is_key_file n ≡ false → text_eq n priv_sk ≡ false
not_priv_sk n f = elim (Bool-cases (text_eq n priv_sk)) [
  | inl t ↦
      let e : is_key_file n ≡ true = ap is_key_file ((text_eq_iff n priv_sk).0 t) in absurd (cc)
  | inr g ↦ g
]

-- The first of the names that end in "_sk", where one does.
first_key :
    {FilePath : Type 0} (child : Text → FilePath) (names : List Text)
    → contains names priv_sk ≡ true
    → (k : Text) × (first (map child (keep is_key_file names)) ≡ some (child k))
      × (contains names k ≡ true)
first_key child [] h = absurd (cc)
first_key child (n ∷ names) h = elim (Bool-cases (is_key_file n)) [
  | inl t ↦ (n, rw t refl, or_left (text_eq n n) (contains names n) ((text_eq_iff n n).1 refl))
  | inr f ↦
      let other : text_eq n priv_sk ≡ false = not_priv_sk n f in
      let (k, e, has) = first_key child names (rw other at h) in
      (k, rw f e, or_right (text_eq n k) (contains names k) has)
]

module _ (F : FileSystem) (lawful : IsLawful F) (c : CryptoPath F.FilePath)
    (tame : c.reaction ≢ throw) (type : MspType) {org host : Text}
    (has_org : c.org_name (get_node_type type) ≡ some org)
    (has_host : host_name c type ≡ some host) where
  abbrev files : MspFiles F.FilePath
  files = msp_files F c type org host

  abbrev key_file : F.FilePath
  key_file = key_path F c type org host

  key_found :
      (dir : F.FilePath) (s : F.State) {key : Bytes}
      → F.read s (F.child dir priv_sk) ≡ some key
      → (p : F.FilePath) × ((find_key_files F dir >>= λ ps. pure (first ps)) s ≡ (ok (some p), s))
        × (F.path_exists s p ≡ true)
  unfolding find_key_files
  key_found dir s h =
      let (names, r, has) = lawful.readdir-read dir priv_sk s refl h in
      let (k, e, has_k) = first_key (F.child dir) names has in
      (F.child dir k, rw r (rw e refl), lawful.path_exists-readdir dir k s r has_k)

  keystore_found :
      (s : F.State) {key : Bytes}
      → F.read s key_file ≡ some key
      → (p : F.FilePath) × (t : F.State) × (msp_keystore F c type s ≡ (ok (some p), t))
        × (F.path_exists t p ≡ true)
        × ((q : F.FilePath) → F.read t q ≡ F.read s q)
  unfolding msp_keystore
  keystore_found s h =
      let (t, e, same) = msp_file-IsQuiet F lawful c tame type has_org has_host s in
      let (p, found, there) = key_found files.keystore t (same key_file ∙ h) in
      (p, t, bind-ok (msp_file F c type) _ s e ∙ found, there, same)

  key_in :
      (signcerts : F.FilePath) (s : F.State) {key : Bytes}
      → F.read s key_file ≡ some key
      → (found : Found F.FilePath) × (t : F.State) × ((msp_keystore F c type
              >>= found_key F c signcerts)
            s
          ≡ (ok (some found), t))
        × (found.signcerts ≡ signcerts)
        × (F.path_exists t found.keystore ≡ true)
        × ((q : F.FilePath) → F.read t q ≡ F.read s q)
  key_in signcerts s h =
      let (p, t, e, there, same) = keystore_found s h in
      let found : Found F.FilePath = record { keystore = p; signcerts = signcerts } in
      (
        found,
        t,
        bind-ok (msp_keystore F c type) (found_key F c signcerts) s e ∙ rw there refl,
        refl,
        there,
        same,
      )

  -- A certificate and a key in their places are found.
  pub crypto_exist_local-some :
      (s : F.State) {key certificate : Bytes}
      → F.read s files.signcerts ≡ some certificate
      → F.read s key_file ≡ some key
      → (found : Found F.FilePath) × (t : F.State) × (crypto_exist_local F c type s
          ≡ (ok (some found), t))
        × (found.signcerts ≡ files.signcerts)
        × (F.path_exists t found.keystore ≡ true)
        × ((q : F.FilePath) → F.read t q ≡ F.read s q)
  unfolding crypto_exist_local look_for_key
  crypto_exist_local-some s hc hk =
      let (t, e, same) = msp_file-IsQuiet F lawful c tame type has_org has_host s in
      let there = lawful.path_exists-read files.signcerts t (same files.signcerts ∙ hc) in
      let (found, u, e', sign, key, same') = key_in files.signcerts t (same key_file ∙ hk) in
      (
        found,
        u,
        bind-ok (msp_file F c type) _ s e ∙ rw (look_for_key, there) e',
        sign,
        key,
        λ q. same' q ∙ same q,
      )

  -- The state behind the writes of `toMSP`.
  abbrev written : Material → F.State → F.State
  written m s = F.output files.cacerts m.root_certificate (
      F.output key_file m.key
        (F.ensure_dir files.keystore (F.output files.signcerts m.certificate s)))

  written-signcerts :
      (m : Material) (s : F.State)
      → files.signcerts ≢ key_file
      → files.cacerts ≢ files.signcerts
      → F.read (written m s) files.signcerts ≡ some m.certificate
  written-signcerts m s a b =
      let s1 = F.output files.signcerts m.certificate s in
      let s2 = F.ensure_dir files.keystore s1 in
      lawful.read-output_other files.cacerts files.signcerts m.root_certificate
        (F.output key_file m.key s2) b
      ∙ lawful.read-output_other key_file files.signcerts m.key s2 (λ e. a (sym e))
      ∙ lawful.read-ensure_dir files.keystore files.signcerts s1
      ∙ lawful.read-output files.signcerts m.certificate s

  written-key_file :
      (m : Material) (s : F.State)
      → files.cacerts ≢ key_file
      → F.read (written m s) key_file ≡ some m.key
  written-key_file m s d =
      let s2 = F.ensure_dir files.keystore (F.output files.signcerts m.certificate s) in
      lawful.read-output_other files.cacerts key_file m.root_certificate
        (F.output key_file m.key s2) d
      ∙ lawful.read-output key_file m.key s2

  to_msp-written :
      (m : Material) (s : F.State) → (t : F.State) × (to_msp F c m type s ≡ (ok tt, written m t))
  unfolding to_msp to_keystore
  to_msp-written m s =
      let (t, e, same) = msp_file-IsQuiet F lawful c tame type has_org has_host s in
      (t, bind-ok (msp_file F c type) (write_msp F c m) s e)

  -- `toMSP` returns, and then the key material is found: the certificate and the key that it wrote
  -- can be read, and the key file that is found exists. The three files are different ones.
  pub to_msp-crypto_exist_local :
      (s : F.State) (m : Material)
      → files.signcerts ≢ key_file
      → files.cacerts ≢ files.signcerts
      → files.cacerts ≢ key_file
      → (t : F.State) × (to_msp F c m type s ≡ (ok tt, t))
        × (F.read t files.signcerts ≡ some m.certificate)
        × (F.read t key_file ≡ some m.key)
        × (found : Found F.FilePath) × (u : F.State) × (crypto_exist_local F c type t
            ≡ (ok (some found), u))
        × (found.signcerts ≡ files.signcerts)
        × (F.path_exists u found.keystore ≡ true)
  to_msp-crypto_exist_local s m a b d =
      let (t, e) = to_msp-written m s in
      let cert = written-signcerts m t a b in
      let key = written-key_file m t d in
      let (found, u, e', sign, there, same) = crypto_exist_local-some (written m t) cert key in
      (written m t, e, cert, key, found, u, e', sign, there)
