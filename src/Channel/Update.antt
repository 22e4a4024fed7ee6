-- ===== src/Channel/Update.antt =====
-- An update of a channel's configuration: `signChannelConfig` and `updateChannel` of
-- nodejs/admin/signingIdentity.js and `ChannelUpdate` of nodejs/admin/channelUpdate.js. The signing
-- identity and the committer are parameters; the committer's answer is its status and its info.
use fabric_common.Base.{Option, none, some, List, [], ◌++◌, Text}
use fabric_common.Base.Result.{Result, ok, err}
use fabric_common.Endorsement.Check.{Bytes}
use fabric_common.Channel.Message.{
  Codec, Envelope, ConfigSignature, Failure, config_update_type, decoded, build_channel_header,
  build_header, build_payload,
}

pub record SigningIdentity : Type 0 where
  pub serialize : Bytes
  pub sign : Bytes → Bytes

-- What an update is made of; `none` is undefined, and an empty buffer is not.
pub record Content : Type 0 where
  pub config : Option Bytes
  pub signatures : Option (List ConfigSignature)
  pub envelope : Option Bytes

pub data Stop (X : Type 0) : Type 0 where
  message : Failure → Stop X
  committer : X → Stop X

abbrev pub or_empty : {A : Type 0} → Option (List A) → List A
or_empty none = []
or_empty (some l) = l

-- `useEnvelope`
abbrev pub use_envelope : Bytes → Content → Content
use_envelope envelope c = record { config = none; signatures = none; envelope = some envelope }

-- `useSignatures`
abbrev pub use_signatures : Bytes → List ConfigSignature → Content → Content
use_signatures config signatures c = record {
  config = some config;
  signatures = some signatures;
  envelope = none;
}

module _ {Time Config ConfigUpdate : Type 0} (codec : Codec Time Config ConfigUpdate)
    (identity : SigningIdentity) where
  -- `signChannelConfig`
  unfoldable pub sign_channel_config : Bytes → Bytes → ConfigSignature
  sign_channel_config config nonce =
      let header = codec.encode_signature_header identity.serialize nonce in
      record { signature_header = header; signature = identity.sign (header ++ config) }

  -- The envelope that `updateChannel` signs by itself.
  unfoldable pub signed_update : Text → Text → Bytes → Content → Time → Envelope
  unfolding build_channel_header build_header
  signed_update channel_id tx_id nonce c now =
      let update = codec.encode_config_update (or_empty c.config) (or_empty c.signatures) in
      let channel_header =
        build_channel_header codec config_update_type channel_id tx_id none none now in
      let payload =
        codec.encode_payload (
          build_payload codec (build_header codec identity.serialize nonce channel_header)
            update) in
      record { signature = identity.sign payload; payload = payload }

  -- What `updateChannel` sends.
  unfoldable pub envelope_of : Text → Text → Bytes → Content → Time → Result Failure Envelope
  unfolding signed_update
  envelope_of channel_id tx_id nonce c now = elim c.envelope [
    | some bytes ↦ decoded (codec.decode_envelope bytes)
    | none ↦ ok (signed_update channel_id tx_id nonce c now)
  ]

  module _ {X : Type 0} (send_broadcast : Envelope → Result X (Text × Text)) where
    abbrev pub broadcast : Envelope → Result (Stop X) (Text × Text)
    broadcast e = elim (send_broadcast e) [ ok answer ↦ ok answer | err x ↦ err (committer x) ]

    abbrev pub send_update : Result Failure Envelope → Result (Stop X) (Text × Text)
    send_update (ok e) = broadcast e
    send_update (err x) = err (message x)

    -- `updateChannel`
    unfoldable pub update_channel :
        Text → Text → Bytes → Content → Time → Result (Stop X) (Text × Text)
    unfolding envelope_of
    update_channel channel_id tx_id nonce c now =
        send_update (envelope_of channel_id tx_id nonce c now)

    abbrev pub given_or : Option (Text × Bytes) → Text × Bytes → Text × Bytes
    given_or none d = d
    given_or (some g) d = g

    -- `submit`: the transaction that is given, or else one that the identity context makes. A status
    -- that is not SUCCESS is returned like any other.
    unfoldable pub submit :
        Text → Option (Text × Bytes) → Text × Bytes → Content → Time → Result (Stop X) (Text × Text)
    unfolding update_channel
    submit channel_id given fresh c now =
        let (tx_id, nonce) = given_or given fresh in update_channel channel_id tx_id nonce c now
