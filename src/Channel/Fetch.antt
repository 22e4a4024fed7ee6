-- ===== src/Channel/Fetch.antt =====
-- Blocks from an ordering service: `getSpecificBlock` of nodejs/admin/signingIdentity.js, and
-- `getChannelConfigFromOrderer` of nodejs/channel.js. `deliver n` is what the n-th call of
-- `sendDeliver` brings, as a promise that may stay pending. The sleep between two calls is left
-- out.
pub mod Laws
use fabric_common.Base.{
  ℕ, zero, suc, Bool, true, false, Option, none, some, List, [], ◌∷◌, ◌&&◌, Text, codes, text_eq,
  if◌then◌else◌,
}
use fabric_common.Base.Result.{Result, ok, err, ◌>>=◌}
use fabric_common.Endorsement.Check.{Bytes}
use fabric_common.Events.Settling.{Promise, pending, resolved, rejected, then_do, settle}
use fabric_common.Events.Deliver.{Refusal, invalid_status, Status, named, code}
use fabric_common.Channel.Message.{
  Codec, Envelope, Block, Failure, HeightFilter, number, name, fail_if_not_ready,
  build_seek_payload, extract_last_config_index, assert_config_block, extract_config_envelope,
}
use fabric_common.Channel.Update.{SigningIdentity}

-- Why no block or configuration comes back.
pub data Stop : Type 0 where
  refused : Refusal → Stop
  no_block : Stop
  broken : Failure → Stop

-- `status === SERVICE_UNAVAILABLE && Type === STATUS && block === null`
abbrev pub is_unavailable : Refusal → Bool
is_unavailable (invalid_status (named s) is_null) =
    text_eq s (codes "SERVICE_UNAVAILABLE") && is_null
is_unavailable _ = false

abbrev pub first_block : List Block → Option Block
first_block [] = none
first_block (b ∷ bs) = some b

-- What one call comes to; `none` is to try again.
unfoldable pub judge_delivery :
    Bool → Promise (List Block) Refusal → Option (Promise (Option Block) Refusal)
judge_delivery wait pending = some pending
judge_delivery wait (resolved bs) = some (resolved (first_block bs))
judge_delivery wait (rejected x) = if wait && is_unavailable x then none else some (rejected x)

-- `sendTry` at most `fuel` times, from the n-th call on.
unfoldable pub send_from :
    (ℕ → Promise (List Block) Refusal) → ℕ → ℕ → Bool → Promise (Option Block) Refusal
unfolding judge_delivery
send_from deliver zero n wait = pending
send_from deliver (suc fuel) n wait =
    let rest = send_from deliver fuel (suc n) wait in
    elim (judge_delivery wait (deliver n)) [ none ↦ rest | some r ↦ r ]

abbrev pub block_of : Promise (Option Block) Refusal → Promise Block Stop
block_of pending = pending
block_of (rejected x) = rejected (refused x)
block_of (resolved none) = rejected no_block
block_of (resolved (some b)) = resolved b

abbrev pub head_of : List Bytes → Bytes
head_of [] = []
head_of (b ∷ bs) = b

module _ {Time Config ConfigUpdate : Type 0} (codec : Codec Time Config ConfigUpdate) where
  -- The configuration in a block.
  unfoldable pub config_of : Block → Result Failure Config
  unfolding assert_config_block extract_config_envelope
  config_of b = assert_config_block codec b.contents >>= λ _.
      extract_config_envelope codec (head_of b.contents)

module _ {Time Config ConfigUpdate : Type 0} (codec : Codec Time Config ConfigUpdate)
    (identity : SigningIdentity) (deliver : Envelope → ℕ → Promise (List Block) Refusal)
    (channel_id tx_id : Text) (nonce : Bytes) (now : Time) where
  -- The signed envelope that asks for one block.
  unfoldable pub seek_envelope : HeightFilter → Envelope
  unfolding build_seek_payload
  seek_envelope height =
      let payload = codec.encode_payload (
        build_seek_payload codec identity.serialize nonce channel_id tx_id height height
          fail_if_not_ready now) in
      record { signature = identity.sign payload; payload = payload }

  -- `getSpecificBlock`
  unfoldable pub get_specific_block : ℕ → Bool → HeightFilter → Promise (Option Block) Refusal
  unfolding seek_envelope send_from
  get_specific_block fuel wait height = send_from (deliver (seek_envelope height)) fuel 0 wait

  -- `getChannelConfigFromOrderer`: the newest block names the last block with a configuration.
  unfoldable pub get_channel_config : Promise Config Stop
  unfolding get_specific_block extract_last_config_index config_of
  get_channel_config =
      then_do (block_of (get_specific_block 1 false (name (codes "newest")))) (λ newest.
        then_do (settle broken (extract_last_config_index codec newest)) (λ index.
          then_do (block_of (get_specific_block 1 false (number index)))
            (λ block. settle broken (config_of codec block))))

  -- `getGenesisBlock`, by the delivery service: it tries for as long as the block is not there.
  -- `from_event` encodes a block that was delivered.
  unfoldable pub get_genesis_block : {Bytes' : Type 0} → ℕ → (Block → Bytes') → Promise Bytes' Stop
  unfolding get_specific_block
  get_genesis_block fuel from_event =
      then_do (block_of (get_specific_block fuel true (number 0)))
        (λ block. resolved (from_event block))
