-- ===== src/Crypto/Location.antt =====
-- Where `CryptoPath` of nodejs/path.js keeps its files. A property that is not set is `none`; as a
-- token of `path.resolve` it throws, and in a template it reads "undefined". The subclasses are the
-- values of `reaction`; `child` is that of the platform.
pub mod Quiet
use fabric_common.Base.{
  ◌≡◌, Bool, true, false, Option, none, some, List, [], ◌∷◌, ◌++◌, Text, codes, is_empty, not, ◌&&◌,
  if◌then◌else◌,
}
use fabric_common.Base.Result.{Result, ok, err}
use fabric_common.Base.Io.{Io, ◌>>=◌, pure}
use fabric_common.Endorsement.Lifecycle.{is_given, shown}
use fabric_common.Crypto.Files.{FileSystem}

pub data Failure : Type 0 where
  not_exist invalid_argument no_entry no_user : Failure

pub data Reaction : Type 0 where
  throw mkdir ignore : Reaction

pub data NodeType : Type 0 where
  orderer peer : NodeType

pub data MspType : Type 0 where
  node user : NodeType → MspType

-- `getNodeType`
abbrev pub get_node_type : MspType → NodeType
get_node_type (node n) = n
get_node_type (user n) = n

-- What the caller gives for a node, and for a user.
pub record Member : Type 0 where
  pub org : Option Text
  pub name : Option Text

pub record CryptoPath (FilePath : Type 0) : Type 0 where
  pub root : FilePath
  pub reaction : Reaction
  pub password : Option Text
  pub org_name : NodeType → Option Text
  pub node_host_name : NodeType → Option Text
  pub user_name : Option Text
  pub user_host_name : NodeType → Option Text

abbrev pub org_of : Option Member → Option Text
org_of none = none
org_of (some m) = m.org

-- `${name}.${org}`
unfoldable pub host_of : Option Member → Option Text
host_of none = none
host_of (some m) =
    if is_given m.name && is_given m.org
    then some (shown m.name ++ codes "." ++ shown m.org)
    else none

-- `${userName}@${orgName}`
unfoldable pub user_host_of : Option (Option Text) → Option Text → Option Text
user_host_of none org = none
user_host_of (some name) org =
    if is_given org then some (shown name ++ codes "@" ++ shown org) else none

abbrev pub name_of : Option (Option Text) → Option Text
name_of none = none
name_of (some name) = name

-- What belongs to a type of node.
abbrev pub select : {A : Type 0} → A → A → NodeType → A
select a b orderer = a
select a b peer = b

-- The constructor; `user` is the name of the user that is given.
unfoldable pub new_crypto_path :
    {FilePath : Type 0}
    → FilePath
    → Reaction
    → Option Member
    → Option Member
    → Option (Option Text)
    → Option Text
    → CryptoPath FilePath
unfolding host_of user_host_of
new_crypto_path root reaction of_orderer of_peer of_user password = record {
  root = root;
  reaction = reaction;
  password = password;
  org_name = select (org_of of_orderer) (org_of of_peer);
  node_host_name = select (host_of of_orderer) (host_of of_peer);
  user_name = name_of of_user;
  user_host_name =
      select (user_host_of of_user (org_of of_orderer)) (user_host_of of_user (org_of of_peer));
}

abbrev pub host_name : {FilePath : Type 0} → CryptoPath FilePath → MspType → Option Text
host_name c (node n) = c.node_host_name n
host_name c (user n) = c.user_host_name n

abbrev pub orgs_dir : NodeType → Text
orgs_dir orderer = codes "ordererOrganizations"
orgs_dir peer = codes "peerOrganizations"

-- The directory of a type's members below that of the organisation.
abbrev pub members_dir : MspType → Text
members_dir (node orderer) = codes "orderers"
members_dir (node peer) = codes "peers"
members_dir (user n) = codes "users"

abbrev pub ca_cert_base_name : {FilePath : Type 0} → CryptoPath FilePath → NodeType → Text
ca_cert_base_name c n = codes "ca." ++ shown (c.org_name n) ++ codes "-cert.pem"

abbrev pub tlsca_cert_base_name : {FilePath : Type 0} → CryptoPath FilePath → NodeType → Text
tlsca_cert_base_name c n = codes "tls" ++ ca_cert_base_name c n

abbrev pub cert_name : Option Text → Text
cert_name host = shown host ++ codes "-cert.pem"

pub record MspFiles (FilePath : Type 0) : Type 0 where
  pub admincerts : FilePath
  pub cacerts : FilePath
  pub tlscacerts : FilePath
  pub keystore : FilePath
  pub signcerts : FilePath

pub record OrgFiles (FilePath : Type 0) : Type 0 where
  pub ca : FilePath
  pub admincerts : FilePath
  pub cacerts : FilePath
  pub tlscacerts : FilePath
  pub issuer_public_key : FilePath
  pub issuer_revocation_public_key : FilePath
  pub peers : FilePath
  pub tlsca : FilePath
  pub users : FilePath
  pub nodeou : FilePath

pub record TlsFiles (FilePath : Type 0) : Type 0 where
  pub ca_cert : FilePath
  pub cert : FilePath
  pub key : FilePath

module _ (F : FileSystem) where
  -- The tokens of `path.resolve` behind its first.
  abbrev pub tokens : F.FilePath → List (Option Text) → Result Failure F.FilePath
  tokens p [] = ok p
  tokens p (none ∷ ts) = err invalid_argument
  tokens p (some t ∷ ts) = tokens (F.child p t) ts

  abbrev pub react : Reaction → F.FilePath → Io F.State Failure F.FilePath
  react throw p s = if F.path_exists s (F.dirname p) then (ok p, s) else (err not_exist, s)
  react mkdir p s = (ok p, F.ensure_dir (F.dirname p) s)
  react ignore p s = (ok p, s)

  abbrev pub settle : Reaction → Result Failure F.FilePath → Io F.State Failure F.FilePath
  settle r (err x) s = (err x, s)
  settle r (ok p) s = react r p s

  module _ (c : CryptoPath F.FilePath) where
    -- `resolve`
    unfoldable pub resolve : F.FilePath → List (Option Text) → Io F.State Failure F.FilePath
    resolve p ts = settle c.reaction (tokens p ts)

    -- `ordererOrg`, `peerOrg`
    unfoldable pub org_dir : NodeType → Io F.State Failure F.FilePath
    unfolding resolve
    org_dir n = resolve c.root (some (orgs_dir n) ∷ c.org_name n ∷ [])

    -- `ordererOrgMSP`, `peerOrgMSP`
    unfoldable pub org_msp : NodeType → Io F.State Failure F.FilePath
    unfolding org_dir
    org_msp n = org_dir n >>= λ d. resolve d (some (codes "msp") ∷ [])

    -- `orderers`, `peers`, `ordererUsers`, `peerUsers`
    unfoldable pub members : MspType → Io F.State Failure F.FilePath
    unfolding org_dir
    members type = org_dir (get_node_type type) >>= λ d. resolve d (some (members_dir type) ∷ [])

    unfoldable pub msp : MspType → Io F.State Failure F.FilePath
    unfolding members
    msp type = members type >>= λ d. resolve d (host_name c type ∷ some (codes "msp") ∷ [])

    unfoldable pub tls_dir : MspType → Io F.State Failure F.FilePath
    unfolding members
    tls_dir type = members type >>= λ d. resolve d (host_name c type ∷ some (codes "tls") ∷ [])

    abbrev pub file_in : F.FilePath → Text → Text → Io F.State Failure F.FilePath
    file_in d t u = resolve d (some t ∷ some u ∷ [])

    -- `MSPFile`
    unfoldable pub msp_file : MspType → Io F.State Failure (MspFiles F.FilePath)
    unfolding msp
    msp_file type =
        let n = get_node_type type in
        msp type >>= λ d.
        file_in d (codes "admincerts") (cert_name (c.user_host_name n)) >>= λ admincerts.
        file_in d (codes "cacerts") (ca_cert_base_name c n) >>= λ cacerts.
        file_in d (codes "tlscacerts") (tlsca_cert_base_name c n) >>= λ tlscacerts.
        resolve d (some (codes "keystore") ∷ []) >>= λ keystore.
        file_in d (codes "signcerts") (cert_name (host_name c type)) >>= λ signcerts. pure record {
          admincerts = admincerts;
          cacerts = cacerts;
          tlscacerts = tlscacerts;
          keystore = keystore;
          signcerts = signcerts;
        }

    -- `TLSFile`
    unfoldable pub tls_file : MspType → Io F.State Failure (TlsFiles F.FilePath)
    unfolding tls_dir
    tls_file type = tls_dir type >>= λ d. resolve d (some (codes "ca.crt") ∷ []) >>= λ ca_cert.
        resolve d (some (codes "server.crt") ∷ []) >>= λ cert.
        resolve d (some (codes "server.key") ∷ []) >>= λ key.
        pure record { ca_cert = ca_cert; cert = cert; key = key }

    -- `OrgFile`
    unfoldable pub org_file : NodeType → Io F.State Failure (OrgFiles F.FilePath)
    unfolding org_dir
    org_file n = org_dir n >>= λ d. resolve d (some (codes "msp") ∷ []) >>= λ m.
        file_in d (codes "ca") (ca_cert_base_name c n) >>= λ ca.
        file_in m (codes "admincerts") (cert_name (c.user_host_name n)) >>= λ admincerts.
        file_in m (codes "cacerts") (ca_cert_base_name c n) >>= λ cacerts.
        file_in m (codes "tlscacerts") (tlsca_cert_base_name c n) >>= λ tlscacerts.
        resolve m (some (codes "IssuerPublicKey") ∷ []) >>= λ issuer_public_key.
        resolve m (some (codes "RevocationPublicKey") ∷ []) >>= λ revocation.
        resolve d (some (codes "peers") ∷ []) >>= λ peers.
        file_in d (codes "tlsca") (tlsca_cert_base_name c n) >>= λ tlsca.
        resolve d (some (codes "users") ∷ []) >>= λ users.
        resolve d (some (codes "config.yaml") ∷ []) >>= λ nodeou. pure record {
          ca = ca;
          admincerts = admincerts;
          cacerts = cacerts;
          tlscacerts = tlscacerts;
          issuer_public_key = issuer_public_key;
          issuer_revocation_public_key = revocation;
          peers = peers;
          tlsca = tlsca;
          users = users;
          nodeou = nodeou;
        }
