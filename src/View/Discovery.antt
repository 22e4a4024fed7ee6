-- ===== src/View/Discovery.antt =====
-- `ParsePeerResult` and `ParseResult` of nodejs/formatter/discovery.js. The decoders, the digest and the
-- conversions of long integers are parameters; an object with keys is the list of its entries.
pub mod Laws
use fabric_common.Base.{
  ℕ, Bool, true, false, Option, none, some, List, [], ◌∷◌, ◌++◌, ◌==◌, map, Text, codes, text_eq,
  if◌then◌else◌,
}
use fabric_common.Base.Result.{Result, ok, err, ◌>>=◌}
use fabric_common.Endorsement.Check.{Bytes}
use fabric_common.Endorsement.Ledger.Hex.{to_hex}
use fabric_common.Channel.Anchor.{trim}

pub record Identity : Type 0 where
  pub mspid : Text
  pub id_bytes : Bytes

pub record Envelope : Type 0 where
  pub payload : Bytes
  pub has_secret_envelope : Bool

pub record Alive (Long : Type 0) : Type 0 where
  pub tag : ℕ
  pub endpoint : Text
  pub pki_id : Bytes
  pub inc_num : Long
  pub seq_num : Long

pub record Chaincode : Type 0 where
  pub name : Text
  pub version : Text

pub record State (Long : Type 0) : Type 0 where
  pub tag : ℕ
  pub ledger_height : Long
  pub chaincodes : List Chaincode

pub record FoundPeer : Type 0 where
  pub identity : Bytes
  pub membership_info : Envelope
  pub state_info : Option Envelope

pub data Failure : Type 0 where
  malformed assertion : Failure

pub record StateView : Type 0 where
  pub ledger_height : ℕ
  pub chaincodes : List Chaincode

pub record PeerView : Type 0 where
  pub mspid : Text
  pub certificate : Text
  pub endpoint : Text
  pub pki_id : Text
  pub unix_nano : Text
  pub logical_time : ℕ
  pub state : Option StateView

pub record Decoders (Long : Type 0) : Type 0 where
  pub identity : Bytes → Option Identity
  pub alive : Bytes → Option (Alive Long)
  pub state : Bytes → Option (State Long)
  pub to_text : Bytes → Text
  pub to_int : Long → ℕ
  pub to_decimal : Long → Text
  pub sha2_256 : Bytes → Text
  pub utf8 : Text → Bytes

abbrev pub decoded : {A : Type 0} → Option A → Result Failure A
decoded none = err malformed
decoded (some a) = ok a

abbrev pub ensure : {A : Type 0} → Bool → A → Result Failure A
ensure b a = if b then ok a else err assertion

abbrev pub without_secret : Envelope → Result Failure Bytes
without_secret e = if e.has_secret_envelope then err assertion else ok e.payload

module _ {Long : Type 0} (d : Decoders Long) where
  -- `calculatePKI_ID` of nodejs/formatter/helper.js
  unfoldable pub calculate_pki_id : Identity → Text
  calculate_pki_id i = d.sha2_256 (d.utf8 i.mspid ++ i.id_bytes)

  unfoldable pub checked_alive : Identity → Envelope → Result Failure (Alive Long)
  unfolding calculate_pki_id to_hex
  checked_alive i e = without_secret e >>= λ payload. decoded (d.alive payload) >>= λ a.
      ensure (a.tag == 1) a >>= λ a. ensure (text_eq (to_hex a.pki_id) (calculate_pki_id i)) a

  unfoldable pub state_view : Option Envelope → Result Failure (Option StateView)
  state_view none = ok none
  state_view (some e) = without_secret e >>= λ payload. decoded (d.state payload) >>= λ s.
      ensure (s.tag == 5) s >>= λ s.
      ok (some record { ledger_height = d.to_int s.ledger_height; chaincodes = s.chaincodes })

  abbrev pub peer_view : Identity → Alive Long → Option StateView → PeerView
  peer_view i a s = record {
    mspid = i.mspid;
    certificate = d.to_text i.id_bytes;
    endpoint = a.endpoint;
    pki_id = to_hex a.pki_id;
    unix_nano = d.to_decimal a.inc_num;
    logical_time = d.to_int a.seq_num;
    state = s;
  }

  -- `ParsePeerResult`
  unfoldable pub parse_peer_result : FoundPeer → Result Failure PeerView
  unfolding checked_alive state_view
  parse_peer_result p = decoded (d.identity p.identity) >>= λ i.
      checked_alive i p.membership_info >>= λ a.
      state_view p.state_info >>= λ s. ok (peer_view i a s)

-- The certificates of an MSP, as lists of bytes and as trimmed text.
pub record Msp (Cert : Type 0) : Type 0 where
  pub organizational_unit_identifiers : List Text
  pub root_certs : Cert
  pub intermediate_certs : Cert
  pub admins : Cert
  pub tls_root_certs : Cert
  pub tls_intermediate_certs : Cert

pub record ConfigResult (Cert Orderer : Type 0) : Type 0 where
  pub msps : List (Text × Msp Cert)
  pub orderers : List (Text × Orderer)

-- One result of a discovery; the endpoints of an organisation stand in a message of their own, as do
-- its peers.
pub data QueryResult (Error Interest Endpoint : Type 0) : Type 0 where
  on_error : Error → QueryResult Error Interest Endpoint
  on_interest : Interest → QueryResult Error Interest Endpoint
  on_config : ConfigResult (List Bytes) (List Endpoint) → QueryResult Error Interest Endpoint
  on_members : List (Text × List FoundPeer) → QueryResult Error Interest Endpoint
  on_other : QueryResult Error Interest Endpoint

pub record Parsed (Error Interest Endpoint : Type 0) : Type 0 where
  pub error : Option Error
  pub cc_query_res : Option Interest
  pub config_result : Option (ConfigResult Text (List Endpoint))
  pub members : Option (List (Text × List FoundPeer))

abbrev pub msp_view : (List Bytes → Text) → Msp (List Bytes) → Msp Text
msp_view to_text m = record {
  organizational_unit_identifiers = m.organizational_unit_identifiers;
  root_certs = trim (to_text m.root_certs);
  intermediate_certs = trim (to_text m.intermediate_certs);
  admins = trim (to_text m.admins);
  tls_root_certs = trim (to_text m.tls_root_certs);
  tls_intermediate_certs = trim (to_text m.tls_intermediate_certs);
}

module _ {Endpoint : Type 0} (to_text : List Bytes → Text) where
  abbrev pub config_view :
      ConfigResult (List Bytes) (List Endpoint) → ConfigResult Text (List Endpoint)
  config_view c = record {
    msps = map (λ e. (e.0, msp_view to_text e.1)) c.msps;
    orderers = c.orderers;
  }

module _ {Error Interest Endpoint : Type 0} (to_text : List Bytes → Text) where
  -- The body of the loop.
  unfoldable pub parse_one :
      QueryResult Error Interest Endpoint
      → Parsed Error Interest Endpoint
      → Parsed Error Interest Endpoint
  parse_one (on_error e) r = record r { error = some e }
  parse_one (on_interest i) r = record r { cc_query_res = some i }
  parse_one (on_config c) r = record r { config_result = some (config_view to_text c) }
  parse_one (on_members m) r = record r { members = some m }
  parse_one on_other r = r

  unfoldable pub parse_from :
      Parsed Error Interest Endpoint
      → List (QueryResult Error Interest Endpoint)
      → Parsed Error Interest Endpoint
  unfolding parse_one
  parse_from r [] = r
  parse_from r (q ∷ qs) = parse_from (parse_one q r) qs

  -- `ParseResult`
  unfoldable pub parse_result :
      List (QueryResult Error Interest Endpoint) → Parsed Error Interest Endpoint
  unfolding parse_from
  parse_result qs =
      parse_from record { error = none; cc_query_res = none; config_result = none; members = none }
        qs
