-- ===== src/Channel/Tests.antt =====
-- A channel whose blocks are all the same: the witness of what is proved about its configuration,
-- and runs of the retry.
use fabric_common.Base.{
  ℕ, zero, suc, ◌≡◌, refl, true, false, none, some, List, [], ◌∷◌, ◌++◌, codes, arith,
}
use fabric_common.Base.Result.{ok, err}
use fabric_common.Endorsement.Check.{Bytes}
use fabric_common.Events.Settling.{Promise, resolved, rejected}
use fabric_common.Events.Deliver.{Refusal, invalid_status, named}
use fabric_common.Channel.Message.{
  Codec, Envelope, Block, ChannelHeader, HeightFilter, number, name, config_type,
  build_seek_position, unset, extract_last_config_index, extract_config_envelope,
  assert_config_block,
}
use fabric_common.Channel.Update.{SigningIdentity}
use fabric_common.Channel.Fetch.{
  send_from, seek_envelope, get_specific_block, config_of, get_channel_config, get_genesis_block,
}
use fabric_common.Events.Query.{event, listen, get_last_block, wait_until_block}
use fabric_common.Events.Query
use fabric_common.Config.Json.{Json, obj, get_path, read, child, lookup, edit_at, assign_here, put}
use fabric_common.Config.Orgs.{AnchorPeer, new_anchor_peers, set_anchor_peers, get_anchor_peers}
use fabric_common.Channel.Update.{submit}
use fabric_common.Channel.Anchor.{
  Translator, World, updated, set_peers, get_channel_config_readable, compute, differences,
  no_differences, no_bin_path, update_peers, accept, same_items, same_peer, or_own,
}
use fabric_common.Channel.Anchor.Laws.{Final, set_peers-Final}
use fabric_common.Channel.Fetch.Laws.{
  IsConfig, get_channel_config-IsConfig, later, at_once, get_genesis_block-ComesAfter,
}

abbrev header : ChannelHeader Unit
header = record {
  type = config_type;
  version = 1;
  channel_id = codes "ch";
  tx_id = codes "tx";
  extension = [];
  timestamp = tt;
  tls_cert_hash = none;
}

abbrev codec : Codec Unit ℕ Unit
codec = record {
  encode_extension = λ id. [];
  encode_signature_header = λ creator nonce. [];
  encode_channel_header = λ h. [];
  encode_payload = λ p. [];
  encode_seek_info = λ i. [];
  encode_config_update = λ c ss. [];
  decode_envelope = λ b. some record { signature = []; payload = b };
  decode_payload = λ b.
      some record { header = record { signature_header = []; channel_header = [] }; content = b };
  decode_channel_header = λ b. some header;
  decode_config_envelope = λ b. some 7;
  decode_config_update = λ b. some tt;
  decode_metadata = λ b. some b;
  decode_last_config = λ b. some 3;
}

abbrev identity : SigningIdentity
identity = record { serialize = []; sign = λ b. [] }

abbrev block : Block
block = record { contents = (9 ∷ []) ∷ []; last_config_metadata = [] }

abbrev deliver : Envelope → ℕ → Promise (List Block) Refusal
deliver e n = resolved (block ∷ [])

abbrev asks : HeightFilter → Envelope
asks height = seek_envelope codec identity deliver (codes "ch") (codes "tx") [] tt height

get_channel_config-IsConfig_example :
    (first : Block) × (rest : List Block) × (index : ℕ) × (last : Block) × (rest' : List Block)
    × (bytes : Bytes) × (deliver (asks (name (codes "newest"))) 0 ≡ resolved (first ∷ rest))
    × (extract_last_config_index codec first ≡ ok index)
    × (deliver (asks (number index)) 0 ≡ resolved (last ∷ rest'))
    × (last.contents ≡ bytes ∷ [])
    × IsConfig codec bytes 7
unfolding get_channel_config get_specific_block send_from config_of extract_last_config_index
    extract_config_envelope assert_config_block
get_channel_config-IsConfig_example =
    get_channel_config-IsConfig codec identity deliver (codes "ch") (codes "tx") [] tt refl

-- An orderer that is not ready at first.
abbrev late : ℕ → Promise (List Block) Refusal
late zero = rejected (invalid_status (named (codes "SERVICE_UNAVAILABLE")) true)
late (suc n) = resolved (block ∷ [])

abbrev unavailable_with_block : Refusal
unavailable_with_block = invalid_status (named (codes "SERVICE_UNAVAILABLE")) false

abbrev late_with_block : ℕ → Promise (List Block) Refusal
late_with_block n = rejected unavailable_with_block

waits : send_from late 2 0 true ≡ resolved (some block)
unfolding send_from
waits = refl

-- A status that has a block is not tried again.
with_block : send_from late_with_block 2 0 true ≡ rejected unavailable_with_block
unfolding send_from
with_block = refl

gives_up :
    send_from late 2 0 false ≡ rejected (invalid_status (named (codes "SERVICE_UNAVAILABLE")) true)
unfolding send_from
gives_up = refl

-- A filter in capitals seeks nothing.
capitals : build_seek_position (name (codes "NEWEST")) ≡ unset
unfolding build_seek_position
capitals = refl

abbrev peers : List AnchorPeer
peers = record { host = "peer0"; port = 7051 } ∷ []

-- A configuration in which Org1 has these anchor peers.
abbrev channel_json : Json
channel_json = obj (
    (
      "channel_group",
      obj (
          (
            "groups",
            obj (
                (
                  "Application",
                  obj (
                      (
                        "groups",
                        obj (
                            (
                              "Org1",
                              obj (
                                  ("values", obj (("AnchorPeers", new_anchor_peers peers) ∷ []))
                                  ∷ []),
                            )
                            ∷ []),
                      )
                      ∷ []),
                )
                ∷ []),
          )
          ∷ []),
    )
    ∷ [])

abbrev tool : Translator
tool = record {
  decode = λ b. ok channel_json;
  encode = λ j. ok [];
  compute_update = λ c a b. ok (1 ∷ []);
}

abbrev height : ℕ → Query.Block Unit
height n = record { height = n; content = tt }

abbrev world : World Unit ℕ Unit Unit Unit
world = record {
  deliver = λ n. deliver;
  tx_id = λ n. codes "tx";
  nonce = λ n. [];
  now = λ n. tt;
  signature_nonce = λ n. [];
  config_bytes = λ c. c ∷ [];
  send_broadcast = λ e. ok (codes "SUCCESS", []);
  newest_blocks = event (height 4) ∷ [];
  later_blocks = event (height 4) ∷ event (height 5) ∷ [];
}

set_final :
    set_peers codec identity world tool (some tool) (codes "ch") [] "Org1" peers true
    ≡ resolved updated
unfolding set_peers get_channel_config_readable get_channel_config get_specific_block send_from
    config_of extract_last_config_index extract_config_envelope assert_config_block compute
    differences update_peers accept submit get_last_block wait_until_block listen set_anchor_peers
    get_anchor_peers get_path read child lookup edit_at assign_here put same_items same_peer
set_final = refl

set_peers-Final_example :
    Final codec identity world tool (some tool) (codes "ch") (or_own identity []) "Org1" peers
set_peers-Final_example =
    set_peers-Final codec identity world tool (some tool) (codes "ch") [] "Org1" peers set_final

-- What the binary says where nothing changes, with the line's end, is no error.
nothing_changed : differences (err record { stderr = some (no_differences ++ 10 ∷ []) }) ≡ ok none
unfolding differences no_differences
nothing_changed = refl

-- Without the binary the call fails, whatever the server answers.
only_server :
    set_peers codec identity world tool none (codes "ch") [] "Org1" peers true
    ≡ rejected no_bin_path
unfolding set_peers get_channel_config_readable get_channel_config get_specific_block send_from
    config_of extract_last_config_index extract_config_envelope assert_config_block compute
    set_anchor_peers get_anchor_peers get_path read child lookup edit_at assign_here put
only_server = refl

-- The genesis block of a channel whose orderer has no leader at first.
abbrev late_deliver : Envelope → ℕ → Promise (List Block) Refusal
late_deliver e = late

get_genesis_block-ComesAfter_example :
    get_genesis_block codec identity late_deliver
      (codes "ch")
      (codes "tx")
      []
      tt
      5
      (λ b. b.contents)
    ≡ resolved block.contents
get_genesis_block-ComesAfter_example =
    get_genesis_block-ComesAfter codec identity late_deliver (codes "ch") (codes "tx") [] tt 5 1
      (λ b. b.contents) block (later refl (at_once [] refl)) (omega arith)
