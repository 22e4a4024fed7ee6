-- ===== src/Endorsement/Ledger.antt =====
-- nodejs/admin/QSCCProposal.js and nodejs/admin/CSCCProposal.js: the requests to the system
-- chaincodes, and the queries of nodejs/query.js that send them. Decoders are parameters, as is
-- `toInt` of a height; a name among the arguments is the text itself. The channel is part of the SDK's
-- proposal.
pub mod Hex
pub mod Laws
use fabric_common.Base.{ℕ, Option, none, some, List, [], ◌∷◌, map, Text, codes}
use fabric_common.Base.Decimal.{print_int}
use fabric_common.Base.Result.{Result, ok, err, ◌>>=◌}
use fabric_common.Endorsement.Check.{Bytes, Response, Proposal, Thrown, endorse_all}
use fabric_common.Endorsement.Lifecycle.{request, responses_of}
use fabric_common.Endorsement.Manager.{Request, Sdk, Manager, Identity, set_result_handler, send}
use fabric_common.Endorsement.Queries.{join, decode_each}
use fabric_common.Endorsement.Ledger.Hex.{from_hex, to_hex}

-- The requests.
unfoldable pub query_block_request : Text → ℕ → Request
query_block_request channel number =
    request (codes "GetBlockByNumber") (channel ∷ print_int number ∷ [])

unfoldable pub query_info_request : Text → Request
query_info_request channel = request (codes "GetChainInfo") (channel ∷ [])

unfoldable pub query_block_by_hash_request : Text → Bytes → Request
query_block_by_hash_request channel hash = request (codes "GetBlockByHash") (channel ∷ hash ∷ [])

unfoldable pub query_transaction_request : Text → Text → Request
query_transaction_request channel tx_id =
    request (codes "GetTransactionByID") (channel ∷ tx_id ∷ [])

unfoldable pub join_channel_request : Bytes → Request
join_channel_request block = request (codes "JoinChain") (block ∷ [])

unfoldable pub query_channels_request : Request
query_channels_request = request (codes "GetChannels") []

-- `BlockchainInfo` as it is decoded, and as `getChainInfo` returns it.
pub record ChainInfo (Hash Height : Type 0) : Type 0 where
  pub height : Height
  pub current_block_hash : Hash
  pub previous_block_hash : Hash

unfoldable pub chain_info_view :
    {Long : Type 0} → (Long → ℕ) → ChainInfo Bytes Long → ChainInfo Text ℕ
unfolding to_hex
chain_info_view to_int i = record {
  height = to_int i.height;
  current_block_hash = to_hex i.current_block_hash;
  previous_block_hash = to_hex i.previous_block_hash;
}

module _ {E Payload Signed : Type 0} (sdk : Sdk E Payload Signed) (identity : Identity) where
  -- The constructors of the proposals.
  unfoldable pub new_proposal : Manager E Payload
  new_proposal = set_result_handler sdk (some (endorse_all none)) record {
    identity = identity;
    assert_proposal_result = none;
    assert_commit_result = none;
    sign_function = none;
  }

  -- A request that a new proposal sends.
  unfoldable pub ask : Request → Result (Thrown E) (Proposal E)
  unfolding new_proposal send
  ask q = (send sdk q none new_proposal).0

  unfoldable pub query_results_of :
      {A : Type 0} → (Bytes → Option A) → Request → Result (Thrown E) (List A)
  unfolding ask decode_each
  query_results_of decode q = ask q >>= λ result. decode_each decode result.query_results

  -- `getChainInfo`
  unfoldable pub get_chain_info :
      {Long : Type 0}
      → (Long → ℕ)
      → (Bytes → Option (ChainInfo Bytes Long))
      → Text
      → Result (Thrown E) (List (ChainInfo Text ℕ))
  unfolding query_results_of query_info_request chain_info_view
  get_chain_info to_int decode channel =
      query_results_of decode (query_info_request channel) >>= λ infos.
      ok (map (chain_info_view to_int) infos)

  -- `blockFromHeight`
  unfoldable pub block_from_height :
      {Block : Type 0} → (Bytes → Option Block) → Text → ℕ → Result (Thrown E) (List Block)
  unfolding query_results_of query_block_request
  block_from_height decode channel number =
      query_results_of decode (query_block_request channel number)

  -- `blockFromHash`
  unfoldable pub block_from_hash :
      {Block : Type 0} → (Bytes → Option Block) → Text → Text → Result (Thrown E) (List Block)
  unfolding query_results_of query_block_by_hash_request from_hex
  block_from_hash decode channel hash_hex =
      query_results_of decode (query_block_by_hash_request channel (from_hex hash_hex))

  -- `join` from the block on.
  unfoldable pub join_block : Bytes → Text → Result (Thrown E) (Option (Proposal E))
  unfolding ask join_channel_request join
  join_block block channel = join channel (ask (join_channel_request block))

  -- `joinWithFile`: the read may throw.
  unfoldable pub join_with_file :
      {X : Type 0} → Result X Bytes → Text → Result X (Result (Thrown E) (Option (Proposal E)))
  unfolding join_block
  join_with_file file channel = file >>= λ block. ok (join_block block channel)

  -- `channelJoined`: the channels of each peer.
  unfoldable pub channel_joined :
      (Bytes → Option (List Text)) → Result (Thrown E) (List (List Text))
  unfolding ask query_channels_request decode_each
  channel_joined decode = ask query_channels_request >>= λ result.
      decode_each decode (map (λ r. r.payload) (responses_of result))
