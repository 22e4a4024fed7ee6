-- ===== src/View/Block.antt =====
-- `blockDecoder` of nodejs/formatter/blockDecoder.js and `calculateTransactionId` of
-- nodejs/formatter/helper.js, on a block that the SDK has decoded. The digest, the encoder of an
-- identity, the decoders and `toInt` are parameters. The logger and what only it reads are left out.
pub mod Laws
use fabric_common.Base.{
  ℕ, Bool, true, false, Option, none, some, List, [], ◌∷◌, ◌++◌, ◌==◌, ◌&&◌, is_empty, Text,
  text_eq, if◌then◌else◌,
}
use fabric_common.Base.Result.{Result, ok, err, ◌>>=◌}
use fabric_common.Endorsement.Check.{Bytes}
use fabric_common.Endorsement.Ledger.Hex.{to_hex}

pub record Creator : Type 0 where
  pub mspid : Text
  pub id_bytes : Bytes

pub record SignatureHeader : Type 0 where
  pub creator : Creator
  pub nonce : Bytes

-- What an action says of the invoked chaincode.
pub record Invocation : Type 0 where
  pub chaincode_id : Text
  pub args : List Bytes
  pub is_init : Bool

-- The payload of an entry: a configuration, actions, or neither.
pub data Body (Config : Type 0) : Type 0 where
  config : Config → Body Config
  actions : List Invocation → Body Config
  unknown : Body Config

pub record Entry (Config : Type 0) : Type 0 where
  pub tx_id : Text
  pub signature_header : SignatureHeader
  pub body : Body Config

-- The entries of the signature header stand in the transaction as well.
pub record Transaction : Type 0 where
  pub tx_id : Text
  pub invocation : Invocation
  pub signature_header : SignatureHeader

pub data Failure : Type 0 where
  wrong_tx_id not_one_action unknown_transaction malformed assertion : Failure

pub record BlockHeader (Long Hash : Type 0) : Type 0 where
  pub number : Long
  pub previous_hash : Hash
  pub data_hash : Hash

-- `header`
unfoldable pub header_view :
    {Long : Type 0} → (Long → ℕ) → BlockHeader Long Bytes → BlockHeader ℕ Text
unfolding to_hex
header_view to_int h = record {
  number = to_int h.number;
  previous_hash = to_hex h.previous_hash;
  data_hash = to_hex h.data_hash;
}

module _ (sha2_256 : Bytes → Text) (encode_identity : Creator → Bytes) where
  -- `calculateTransactionId`
  unfoldable pub calculate_transaction_id : SignatureHeader → Text
  calculate_transaction_id h = sha2_256 (h.nonce ++ encode_identity h.creator)

  module _ {Config : Type 0} where
    -- What an entry that is checked adds to the transactions.
    abbrev pub transactions_of :
        Text → SignatureHeader → Body Config → Result Failure (List Transaction)
    transactions_of tx_id header (config c) = ok []
    transactions_of tx_id header (actions (a ∷ [])) =
        ok (record { tx_id = tx_id; invocation = a; signature_header = header } ∷ [])
    transactions_of tx_id header (actions _) = err not_one_action
    transactions_of tx_id header unknown = err unknown_transaction

    unfoldable pub checked_entry : Entry Config → Result Failure (List Transaction)
    unfolding calculate_transaction_id
    checked_entry e =
        if text_eq (calculate_transaction_id e.signature_header) e.tx_id
        then transactions_of e.tx_id e.signature_header e.body
        else err wrong_tx_id

    -- The loop of `data`.
    unfoldable pub collect_txs : List (Entry Config) → Result Failure (List Transaction)
    unfolding checked_entry
    collect_txs [] = ok []
    collect_txs (e ∷ es) =
        checked_entry e >>= λ first. collect_txs es >>= λ rest. ok (first ++ rest)

    -- `data`
    unfoldable pub data_view :
        List (Entry Config) → Result Failure (List (Entry Config) × List Transaction)
    unfolding collect_txs
    data_view es = collect_txs es >>= λ txs. ok (es, txs)

-- The metadata of a block: the signatures with the value under them, the value of the last
-- configuration and that of the orderer, of which the code asks that they are empty objects, the flags
-- of the transactions, and the commit hash.
pub record Metadata (Signature : Type 0) : Type 0 where
  pub value : Bytes
  pub signatures : List Signature
  pub last_config_is_empty : Bool
  pub orderer_is_empty : Bool
  pub transactions_filter : List ℕ
  pub commit_hash : Bytes

pub record MetadataView (Signature : Type 0) : Type 0 where
  pub index : ℕ
  pub signatures : List Signature
  pub transactions_filter : List ℕ
  pub commit_hash : Bytes

-- `flag === 0`, where the flag is the first one.
abbrev pub first_is_valid : List ℕ → Bool
first_is_valid [] = false
first_is_valid (flag ∷ flags) = flag == 0

module _ {Signature : Type 0} (decode_last_config : Bytes → Option ℕ)
    (decode_metadata : Bytes → Option (Bytes × List Signature)) where
  abbrev pub viewed : Metadata Signature → ℕ → Bytes → MetadataView Signature
  viewed m index hash = record {
    index = index;
    signatures = m.signatures;
    transactions_filter = m.transactions_filter;
    commit_hash = hash;
  }

  -- `metadata`, of a block whose metadata has its five parts.
  unfoldable pub metadata_view : Metadata Signature → Result Failure (MetadataView Signature)
  metadata_view m = elim (decode_last_config m.value) [
    | none ↦ err malformed
    | some index ↦ elim (decode_metadata m.commit_hash) [
      | none ↦ err malformed
      | some (hash, signatures) ↦
          if is_empty signatures
            && m.last_config_is_empty
            && m.orderer_is_empty
            && first_is_valid m.transactions_filter
          then ok (viewed m index hash)
          else err assertion
    ]
  ]
