-- ===== src/Ca/Generation/Laws.antt =====
-- What the generation of a peer's key material does the second time.
use mathlib.Core.Path.{subst}
use fabric_common.Base.{◌≡◌, ◌≢◌, sym, ap, ◌∙◌, Bool, some, Text}
use fabric_common.Base.Result.{ok}
use fabric_common.Base.Io.{Io, bind-ok}
use fabric_common.Crypto.Files.{Bytes, FileSystem, IsLawful}
use fabric_common.Crypto.Location.{throw, NodeType, peer, node, CryptoPath, msp}
use fabric_common.Crypto.Location as Location
use fabric_common.Crypto.Location.Quiet.{msp_files, key_path, msp-IsQuiet}
use fabric_common.Crypto.Material.{Material, crypto_exist_local, to_msp}
use fabric_common.Crypto.Material.Laws.{crypto_exist_local-some, to_msp-crypto_exist_local}
use fabric_common.Ca.Identity.{IdentityService}
use fabric_common.Ca.Affiliation.{AffiliationService}
use fabric_common.Ca.World.{Enroller, World, keep_ca, on_files}
use fabric_common.Ca.Generation.{gen_peer}

module _ {S W X A : Type 0} where
  on_files-ok :
      (m : Io S Location.Failure A) (w : World S W) {a : A} {t : S}
      → m w.files ≡ (ok a, t)
      → on_files {X = X} m w ≡ (ok a, record { files = t; ca = w.ca })
  on_files-ok m w h = ap (keep_ca w.ca) h

module _ (F : FileSystem) {W X Attribute Identity Affil User : Type 0}
    (identities : IdentityService W X Attribute Identity)
    (affiliations : AffiliationService W X Affil) (enroller : Enroller W X)
    (certificate_of : User → Bytes) (build : Text → Bytes → Bytes → User) (node_ous : Bytes)
    (c : CryptoPath F.FilePath) (lawful : IsLawful F) (tame : c.reaction ≢ throw) {org host : Text}
    (has_org : c.org_name peer ≡ some org) (has_host : c.node_host_name peer ≡ some host) where
  nothing_to_do :
      (tls : Bool) (admin : User) (w : World F.State W) {key certificate : Bytes}
      → F.read w.files (msp_files F c (node peer) org host).signcerts ≡ some certificate
      → F.read w.files (key_path F c (node peer) org host) ≡ some key
      → (t : F.State) × (gen_peer F identities affiliations enroller certificate_of build node_ous c
            tls admin w
          ≡ (ok tt, record { files = t; ca = w.ca }))
        × ((q : F.FilePath) → F.read t q ≡ F.read w.files q)
  unfolding gen_peer
  nothing_to_do tls admin w hc hk =
      let files = msp_files F c (node peer) org host in
      let (t, e, same) = msp-IsQuiet F lawful c tame (node peer) has_org has_host w.files in
      let (found, u, e', sign, there, same') =
        crypto_exist_local-some F lawful c tame (node peer) has_org has_host t
          (same files.signcerts ∙ hc) (same (key_path F c (node peer) org host) ∙ hk) in
      let next : World F.State W = record { files = t; ca = w.ca } in
      (
        u,
        bind-ok (on_files (msp F c (node peer))) _ w (on_files-ok (msp F c (node peer)) w e)
            ∙ bind-ok (on_files (crypto_exist_local F c (node peer))) _ next
                (on_files-ok (crypto_exist_local F c (node peer)) next e'),
        λ q. same' q ∙ same q,
      )

  -- Once `toMSP` has written a peer's key material, which is where `genPeer` stands when the TLS
  -- enrolment behind it throws, `genPeer` returns, leaves the CA as it is and changes nothing that can
  -- be read: what it has not written by then, it does not write later.
  pub gen_peer-again :
      (tls : Bool) (admin : User) (w : World F.State W) (s : F.State) (m : Material)
      (q : F.FilePath)
      → let files = msp_files F c (node peer) org host in
        let key_file = key_path F c (node peer) org host in
        files.signcerts ≢ key_file
        → files.cacerts ≢ files.signcerts
        → files.cacerts ≢ key_file
        → to_msp F c m (node peer) s ≡ (ok tt, w.files)
        → (t : F.State) × (gen_peer F identities affiliations enroller certificate_of build node_ous
              c tls admin w
            ≡ (ok tt, record { files = t; ca = w.ca }))
          × (F.read t q ≡ F.read w.files q)
  gen_peer-again tls admin w s m q a b d h =
      let (t, e, cert, key, found, left, e', sign, there) =
        to_msp-crypto_exist_local F lawful c tame (node peer) has_org has_host s m a b d in
      let same : t ≡ w.files = ap (λ r. r.1) (sym e ∙ h) in
      let (u, done, kept) =
        nothing_to_do tls admin w
          (subst (λ x. F.read x (msp_files F c (node peer) org host).signcerts ≡ some m.certificate)
            same cert)
          (subst (λ x. F.read x (key_path F c (node peer) org host) ≡ some m.key) same key) in
      (u, done, kept q)
