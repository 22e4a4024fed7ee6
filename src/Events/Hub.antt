-- ===== src/Events/Hub.antt =====
-- `EventHub` of nodejs/admin/eventHub.js: the signed request of `build`, and what it registers with the
-- SDK's event service. The header, the encoders and the identity's signature are the SDK's; `Long`'s
-- greatest number is a parameter.
use fabric_common.Base.{
  ℕ, Bool, false, Option, none, some, [], Text, codes, is_empty, if◌then◌else◌,
}
use fabric_common.Base.Result.{Result, ok, err}
use fabric_common.Base.Io.{Io}
use fabric_common.Endorsement.Check.{Bytes}
use fabric_common.Events.Query.{Bound, SeekInfo, seek_info}

pub data BlockType : Type 0 where
  filtered_block full_block private_block : BlockType

pub record Service : Type 0 where
  pub block_type : Option BlockType
  pub payload : Option Bytes
  pub signature : Option Bytes

-- What the SDK and the message library make.
pub record Encoders : Type 0 where
  pub encode_seek_info : SeekInfo → Bytes
  pub build_channel_header : ℕ → Text → Text → Bytes
  pub build_header : Bytes → Bytes
  pub encode_payload : Bytes → Bytes → Bytes

abbrev pub deliver_seek_info : ℕ
deliver_seek_info = 5

-- The arguments of `build`, where the type of the blocks is FULL_BLOCK if it is not given.
pub record BuildOpts : Type 0 where
  pub start_block : Bound
  pub end_block : Bound
  pub behavior : Bool
  pub block_type : Option BlockType

abbrev pub block_type_of : Option BlockType → BlockType
block_type_of none = full_block
block_type_of (some t) = t

unfoldable pub seek_payload : Encoders → ℕ → Text → BuildOpts → Bytes
unfolding seek_info
seek_payload e max tx_id o =
    e.encode_payload (e.build_header (e.build_channel_header deliver_seek_info [] tx_id))
      (e.encode_seek_info (seek_info max o.start_block o.end_block o.behavior))

module _ {X : Type 0} where
  abbrev pub attach : Result X Bytes → Service → Result X (Unit {0}) × Service
  attach (ok signature) s = (ok tt, record s { signature = some signature })
  attach (err x) s = (err x, s)

  -- `build`: the payload stands in the service before a signature that is made elsewhere arrives.
  unfoldable pub build :
      Encoders
      → ℕ
      → Text
      → (Bytes → Bytes)
      → Option (Bytes → Result X Bytes)
      → BuildOpts
      → Io Service X (Unit {0})
  unfolding seek_payload
  build e max tx_id sign sign_function o s =
      let payload = seek_payload e max tx_id o in
      let s' : Service = record s {
        block_type = some (block_type_of o.block_type);
        payload = some payload;
      } in
      elim sign_function [
        | none ↦ (ok tt, record s' { signature = some (sign payload) })
        | some f ↦ attach (f payload) s'
      ]

-- The options of a registration; `none` is undefined.
pub record RegistrationOpts : Type 0 where
  pub unregister : Bool
  pub start_block : Option ℕ
  pub end_block : Option ℕ

abbrev pub default_opts : RegistrationOpts
default_opts = record { unregister = false; start_block = none; end_block = none }

abbrev pub opts_of : Option RegistrationOpts → RegistrationOpts
opts_of none = default_opts
opts_of (some o) = o

-- What is registered with the service.
pub data Registration : Type 0 where
  on_chaincode : Text → Text → RegistrationOpts → Registration
  on_block : RegistrationOpts → Registration
  on_transaction : Text → Option RegistrationOpts → Registration

-- `chaincodeEvent`, `blockEvent` and `txEvent`
abbrev pub chaincode_event : Text → Text → Option RegistrationOpts → Registration
chaincode_event chaincode_id event_name o = on_chaincode chaincode_id event_name (opts_of o)

abbrev pub block_event : Option RegistrationOpts → Registration
block_event o = on_block (opts_of o)

abbrev pub tx_event : Text → Option RegistrationOpts → Registration
tx_event id o = on_transaction (if is_empty id then codes "all" else id) o
