-- ===== src/Channel/Message.antt =====
-- nodejs/formatter/protoTranslator.js: the messages that it builds and takes apart. The protobuf
-- encoders and decoders are the fields of `Codec`, where `none` is a decoder that throws. The time of
-- day is a parameter.
use fabric_common.Base.{
  ℕ, Option, none, some, List, [], ◌∷◌, ◌==◌, Text, codes, text_eq, if◌then◌else◌,
}
use fabric_common.Base.Result.{Result, ok, err, ◌>>=◌}
use fabric_common.Endorsement.Check.{Bytes}
use fabric_common.Endorsement.Lifecycle.{is_given}

pub record ChannelHeader (Time : Type 0) : Type 0 where
  pub type : ℕ
  pub version : ℕ
  pub channel_id : Text
  pub tx_id : Text
  pub extension : Bytes
  pub timestamp : Time
  pub tls_cert_hash : Option Bytes

pub record Header : Type 0 where
  pub signature_header : Bytes
  pub channel_header : Bytes

pub record Payload : Type 0 where
  pub header : Header
  pub content : Bytes

pub record Envelope : Type 0 where
  pub signature : Bytes
  pub payload : Bytes

pub record ConfigSignature : Type 0 where
  pub signature_header : Bytes
  pub signature : Bytes

pub data SeekPosition : Type 0 where
  unset newest oldest : SeekPosition
  specified : ℕ → SeekPosition

-- The values that a height filter may have.
pub data HeightFilter : Type 0 where
  number : ℕ → HeightFilter
  name : Text → HeightFilter
  other : HeightFilter

pub data SeekBehavior : Type 0 where
  block_until_ready fail_if_not_ready : SeekBehavior

-- The error response is always STRICT, and a behavior that is not set is the first one.
pub record SeekInfo : Type 0 where
  pub start : SeekPosition
  pub stop : SeekPosition
  pub behavior : SeekBehavior

-- A block: the encoded envelopes of its data, and the metadata of the last configuration.
pub record Block : Type 0 where
  pub contents : List Bytes
  pub last_config_metadata : Bytes

pub record Codec (Time Config ConfigUpdate : Type 0) : Type 0 where
  pub encode_extension : Option Text → Bytes
  pub encode_signature_header : Bytes → Bytes → Bytes
  pub encode_channel_header : ChannelHeader Time → Bytes
  pub encode_payload : Payload → Bytes
  pub encode_seek_info : SeekInfo → Bytes
  pub encode_config_update : Bytes → List ConfigSignature → Bytes
  pub decode_envelope : Bytes → Option Envelope
  pub decode_payload : Bytes → Option Payload
  pub decode_channel_header : Bytes → Option (ChannelHeader Time)
  pub decode_config_envelope : Bytes → Option Config
  pub decode_config_update : Bytes → Option ConfigUpdate
  pub decode_metadata : Bytes → Option Bytes
  pub decode_last_config : Bytes → Option ℕ

pub data Failure : Type 0 where
  malformed several_transactions not_config : Failure

-- `HeaderType`
abbrev pub config_type : ℕ
config_type = 1

abbrev pub config_update_type : ℕ
config_update_type = 2

abbrev pub deliver_seek_info_type : ℕ
deliver_seek_info_type = 5

abbrev pub decoded : {A : Type 0} → Option A → Result Failure A
decoded none = err malformed
decoded (some a) = ok a

abbrev pub non_empty : Option Text → Option Text
non_empty s = if is_given s then s else none

-- `buildSeekPosition`
unfoldable pub build_seek_position : HeightFilter → SeekPosition
build_seek_position (number n) = specified n
build_seek_position (name s) =
    if text_eq s (codes "newest")
    then newest
    else if text_eq s (codes "oldest")
    then oldest
    else unset
build_seek_position other = unset

-- `buildSeekInfo`; without a behavior it is the default one of the message.
abbrev pub behavior_of : Option SeekBehavior → SeekBehavior
behavior_of none = block_until_ready
behavior_of (some b) = b

unfoldable pub build_seek_info : SeekPosition → SeekPosition → Option SeekBehavior → SeekInfo
build_seek_info start stop behavior = record {
  start = start;
  stop = stop;
  behavior = behavior_of behavior;
}

module _ {Time Config ConfigUpdate : Type 0} (codec : Codec Time Config ConfigUpdate) where
  -- `buildChannelHeader`
  unfoldable pub build_channel_header :
      ℕ → Text → Text → Option Text → Option Bytes → Time → ChannelHeader Time
  build_channel_header type channel_id tx_id chaincode_id tls_cert_hash timestamp = record {
    type = type;
    version = 1;
    channel_id = channel_id;
    tx_id = tx_id;
    extension = codec.encode_extension (non_empty chaincode_id);
    timestamp = timestamp;
    tls_cert_hash = tls_cert_hash;
  }

  -- `buildHeader`
  unfoldable pub build_header : Bytes → Bytes → ChannelHeader Time → Header
  build_header creator nonce channel_header = record {
    signature_header = codec.encode_signature_header creator nonce;
    channel_header = codec.encode_channel_header channel_header;
  }

  -- `buildPayload`
  abbrev pub build_payload : Header → Bytes → Payload
  build_payload header content = record { header = header; content = content }

  -- `buildSeekPayload`
  unfoldable pub build_seek_payload :
      Bytes → Bytes → Text → Text → HeightFilter → HeightFilter → SeekBehavior → Time → Payload
  unfolding build_seek_position build_seek_info build_channel_header build_header
  build_seek_payload creator nonce channel_id tx_id start stop behavior now =
      let info =
        build_seek_info (build_seek_position start) (build_seek_position stop) (some behavior) in
      let channel_header =
        build_channel_header deliver_seek_info_type channel_id tx_id none none now in
      build_payload (build_header creator nonce channel_header) (codec.encode_seek_info info)

  -- `extractLastConfigIndex`
  unfoldable pub extract_last_config_index : Block → Result Failure ℕ
  extract_last_config_index b = decoded (codec.decode_metadata b.last_config_metadata) >>= λ value.
      decoded (codec.decode_last_config value)

  abbrev pub payload_of : Bytes → Result Failure Payload
  payload_of bytes =
      decoded (codec.decode_envelope bytes) >>= λ e. decoded (codec.decode_payload e.payload)

  -- `extractConfigUpdate`
  unfoldable pub extract_config_update : Bytes → Result Failure ConfigUpdate
  extract_config_update bytes =
      payload_of bytes >>= λ p. decoded (codec.decode_config_update p.content)

  -- `extractConfigEnvelopeFromBlockData`
  unfoldable pub extract_config_envelope : Bytes → Result Failure Config
  extract_config_envelope bytes =
      payload_of bytes >>= λ p. decoded (codec.decode_config_envelope p.content)

  abbrev pub assert_config_type : ChannelHeader Time → Result Failure (Unit {0})
  assert_config_type h = if h.type == config_type then ok tt else err not_config

  abbrev pub assert_config_envelope : Bytes → Result Failure (Unit {0})
  assert_config_envelope bytes = payload_of bytes >>= λ p.
      decoded (codec.decode_channel_header p.header.channel_header) >>= assert_config_type

  -- `assertConfigBlock`
  unfoldable pub assert_config_block : List Bytes → Result Failure (Unit {0})
  assert_config_block (bytes ∷ []) = assert_config_envelope bytes
  assert_config_block [] = err several_transactions
  assert_config_block (a ∷ b ∷ rest) = err several_transactions
