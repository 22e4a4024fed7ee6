-- ===== src/Endorsement/Ledger/Laws.antt =====
-- What a query asks the peers for.
use fabric_common.Base.{◌≡◌, ap, true, Option, Text, all, ℕ}
use fabric_common.Endorsement.Check.{Bytes}
use fabric_common.Endorsement.Manager.{Sdk, Identity}
use fabric_common.Endorsement.Ledger.{
  ChainInfo, chain_info_view, query_results_of, query_block_by_hash_request, block_from_hash,
}
use fabric_common.Endorsement.Ledger.Hex.{is_byte, from_hex-to_hex}

module _ {E Payload Signed : Type 0} (sdk : Sdk E Payload Signed) (identity : Identity) where
  -- A block that is asked for by the hash that `getChainInfo` prints is asked for by the bytes of the
  -- hash that the peer gave.
  pub block_from_hash-chain_info :
      {Block Long : Type 0} (decode : Bytes → Option Block) (to_int : Long → ℕ) (channel : Text)
      (info : ChainInfo Bytes Long)
      → all is_byte info.current_block_hash ≡ true
      → block_from_hash sdk identity decode channel (chain_info_view to_int info).current_block_hash
        ≡ query_results_of sdk identity decode
            (query_block_by_hash_request channel info.current_block_hash)
  unfolding block_from_hash chain_info_view
  block_from_hash-chain_info decode to_int channel info h =
      ap (λ hash. query_results_of sdk identity decode (query_block_by_hash_request channel hash))
        (from_hex-to_hex info.current_block_hash h)
