-- ===== src/Crypto/Location/Quiet.antt =====
-- The functions that name a file make directories at most: they change nothing that can be read.
use fabric_common.Base.{◌≡◌, ◌≢◌, refl, ◌∙◌, Option, some, List, [], ◌∷◌, Text, codes}
use fabric_common.Base.Result.{ok}
use fabric_common.Base.Io.{Io, ◌>>=◌, pure, bind-ok}
use fabric_common.Crypto.Files.{FileSystem, IsLawful}
use fabric_common.Crypto.Location.{
  Failure, Reaction, throw, mkdir, ignore, MspType, get_node_type, CryptoPath, host_name, orgs_dir,
  members_dir, ca_cert_base_name, tlsca_cert_base_name, cert_name, MspFiles, tokens, settle,
  resolve, org_dir, members, msp, msp_file,
}

-- The directory of a member's MSP, and the files in it.
abbrev pub msp_path : (F : FileSystem) → CryptoPath F.FilePath → MspType → Text → Text → F.FilePath
msp_path F c type org host =
    let orgs = F.child (F.child c.root (orgs_dir (get_node_type type))) org in
    F.child (F.child (F.child orgs (members_dir type)) host) (codes "msp")

abbrev pub files_at :
    (F : FileSystem) → CryptoPath F.FilePath → MspType → F.FilePath → MspFiles F.FilePath
files_at F c type d =
    let n = get_node_type type in
    record {
      admincerts = F.child (F.child d (codes "admincerts")) (cert_name (c.user_host_name n));
      cacerts = F.child (F.child d (codes "cacerts")) (ca_cert_base_name c n);
      tlscacerts = F.child (F.child d (codes "tlscacerts")) (tlsca_cert_base_name c n);
      keystore = F.child d (codes "keystore");
      signcerts = F.child (F.child d (codes "signcerts")) (cert_name (host_name c type));
    }

-- The files of a member's MSP.
abbrev pub msp_files :
    (F : FileSystem) → CryptoPath F.FilePath → MspType → Text → Text → MspFiles F.FilePath
msp_files F c type org host = files_at F c type (msp_path F c type org host)

-- The path of the key that `toMSP` writes.
abbrev pub key_path : (F : FileSystem) → CryptoPath F.FilePath → MspType → Text → Text → F.FilePath
key_path F c type org host = F.child (msp_files F c type org host).keystore (codes "priv_sk")

module _ (F : FileSystem) where
  -- A call that returns `a` and changes nothing that can be read.
  abbrev pub IsQuiet : {A : Type 0} → Io F.State Failure A → A → Type 0
  IsQuiet m a =
      (s : F.State)
      → (t : F.State) × (m s ≡ (ok a, t)) × ((q : F.FilePath) → F.read t q ≡ F.read s q)

  pub pure-IsQuiet : {A : Type 0} (a : A) → IsQuiet (pure a) a
  pure-IsQuiet a s = (s, refl, λ q. refl)

  pub bind-IsQuiet :
      {A B : Type 0} (m : Io F.State Failure A) (f : A → Io F.State Failure B) {a : A} {b : B}
      → IsQuiet m a
      → IsQuiet (f a) b
      → IsQuiet (m >>= f) b
  bind-IsQuiet m f h k s =
      let (t, e, same) = h s in
      let (u, e', same') = k t in (u, bind-ok m f s e ∙ e', λ q. same' q ∙ same q)

  module _ (lawful : IsLawful F) (c : CryptoPath F.FilePath) (tame : c.reaction ≢ throw) where
    settle-IsQuiet : (r : Reaction) → r ≢ throw → (p : F.FilePath) → IsQuiet (settle F r (ok p)) p
    settle-IsQuiet throw h p s = absurd (h refl)
    settle-IsQuiet mkdir h p s =
        (F.ensure_dir (F.dirname p) s, refl, λ q. lawful.read-ensure_dir (F.dirname p) q s)
    settle-IsQuiet ignore h p s = (s, refl, λ q. refl)

    pub resolve-IsQuiet :
        (p : F.FilePath) (ts : List (Option Text)) {q : F.FilePath}
        → tokens F p ts ≡ ok q
        → IsQuiet (resolve F c p ts) q
    unfolding resolve
    resolve-IsQuiet p ts {q} h = rw h (settle-IsQuiet c.reaction tame q)

    then_resolve-IsQuiet :
        {B : Type 0} (p : F.FilePath) (ts : List (Option Text)) (q : F.FilePath)
        (f : F.FilePath → Io F.State Failure B) {b : B}
        → tokens F p ts ≡ ok q
        → IsQuiet (f q) b
        → IsQuiet (resolve F c p ts >>= f) b
    then_resolve-IsQuiet p ts q f h = bind-IsQuiet (resolve F c p ts) f (resolve-IsQuiet p ts h)

    module _ (type : MspType) {org host : Text}
        (has_org : c.org_name (get_node_type type) ≡ some org)
        (has_host : host_name c type ≡ some host) where
      pub msp-IsQuiet : IsQuiet (msp F c type) (msp_path F c type org host)
      unfolding msp members org_dir
      msp-IsQuiet =
          let n = get_node_type type in
          let orgs = F.child (F.child c.root (orgs_dir n)) org in
          let found : tokens F c.root (some (orgs_dir n) ∷ c.org_name n ∷ []) ≡ ok orgs =
            rw has_org refl in
          let named : tokens F (F.child orgs (members_dir type))
                (host_name c type ∷ some (codes "msp") ∷ [])
              ≡ ok (msp_path F c type org host) =
            rw has_host refl in
          bind-IsQuiet (members F c type) _
            (then_resolve-IsQuiet c.root (some (orgs_dir n) ∷ c.org_name n ∷ []) orgs _ found
              (resolve-IsQuiet orgs (some (members_dir type) ∷ []) refl))
            (resolve-IsQuiet (F.child orgs (members_dir type))
              (host_name c type ∷ some (codes "msp") ∷ []) named)

      pub msp_file-IsQuiet :
          IsQuiet (msp_file F c type) (files_at F c type (msp_path F c type org host))
      unfolding msp_file
      msp_file-IsQuiet =
          let d = msp_path F c type org host in
          let files = files_at F c type d in
          let n = get_node_type type in
          bind-IsQuiet (msp F c type) _ msp-IsQuiet (
            then_resolve-IsQuiet d
              (some (codes "admincerts") ∷ some (cert_name (c.user_host_name n)) ∷ [])
              files.admincerts _ refl
              (then_resolve-IsQuiet d (some (codes "cacerts") ∷ some (ca_cert_base_name c n) ∷ [])
                files.cacerts _ refl
                (then_resolve-IsQuiet d
                  (some (codes "tlscacerts") ∷ some (tlsca_cert_base_name c n) ∷ [])
                  files.tlscacerts _ refl
                  (then_resolve-IsQuiet d (some (codes "keystore") ∷ []) files.keystore _ refl (
                    then_resolve-IsQuiet d
                      (some (codes "signcerts") ∷ some (cert_name (host_name c type)) ∷ [])
                      files.signcerts _ refl (pure-IsQuiet files))))))
