-- ===== src/Channel/Anchor.antt =====
-- `ChannelConfig` of nodejs/channelConfig.js: the configuration of a channel as JSON, and the setting
-- of an organisation's anchor peers. The binary configtxlator and its server are parameters; the JSON
-- text between them and the code is the value that it stands for. The event service's `disconnect`,
-- which the code calls twice, and the loggers are left out.
pub mod Answers
pub mod Laws
use Prim.Native.String.{String}
use text.Mathlib.Text.{◌==◌ as str_eq}
use fabric_common.Base.{
  ℕ, zero, suc, Bool, true, false, Option, none, some, List, [], ◌∷◌, ◌++◌, ◌&&◌, ◌==◌, map, Text,
  codes, text_eq, is_empty, is_space, if◌then◌else◌,
}
use fabric_common.Base.Result.{Result, ok, err, ◌>>=◌}
use fabric_common.Endorsement.Check.{Bytes}
use fabric_common.Events.Settling.{Promise, pending, resolved, rejected, then_do, rejecting, settle}
use fabric_common.Events.Deliver.{Refusal}
use fabric_common.Events.Query.{Delivery, get_last_block, wait_until_block}
use fabric_common.Events.Query
use fabric_common.Config.Json.{
  Json, null, bool, number, string, array, object, Items, nil, cons, Fields, end, field, lookup,
  get_path,
}
use fabric_common.Config.Json
use fabric_common.Config.Orgs.{AnchorPeer, get_anchor_peers, set_anchor_peers}
use fabric_common.Channel.Message.{Codec, Envelope, ConfigSignature, Block}
use fabric_common.Channel.Update.{
  SigningIdentity, Content, Stop, use_signatures, sign_channel_config, submit,
}
use fabric_common.Channel.Fetch.{get_channel_config}
use fabric_common.Channel.Fetch

-- What a failed run of the binary throws; `none` is an error without `stderr`.
pub record ToolError : Type 0 where
  pub stderr : Option Text

-- configtxlator: the binary in `binPath`, or the server on port 7059.
pub record Translator : Type 0 where
  pub decode : Bytes → Result ToolError Json
  pub encode : Json → Result ToolError Bytes
  pub compute_update : Text → Bytes → Bytes → Result ToolError Bytes

-- `s.trim()`
abbrev pub trim_start : Text → Text
trim_start [] = []
trim_start (c ∷ s) = let rest = trim_start s in if is_space c then rest else c ∷ s

abbrev pub trim_end : Text → Text
trim_end [] = []
trim_end (c ∷ s) = let rest = trim_end s in if is_empty rest && is_space c then [] else c ∷ rest

abbrev pub trim : Text → Text
trim s = trim_end (trim_start s)

unfoldable pub no_differences : Text
no_differences =
    codes "configtxlator: error: Error computing update: "
    ++ codes "error computing config update: "
    ++ codes "no differences detected between original and updated config"

-- Why an anchor peer is not set.
pub data Failure (X S : Type 0) : Type 0 where
  not_fetched : Fetch.Stop → Failure X S
  not_edited : Json.Failure → Failure X S
  no_bin_path : Failure X S
  tool_failed : ToolError → Failure X S
  not_submitted : Stop X → Failure X S
  not_accepted : Text → Text → Failure X S
  no_event : S → Failure X S
  no_anchor_peers : Failure X S
  not_read_back : Failure X S

pub data Outcome : Type 0 where
  skipped updated : Outcome

-- `catch` around `computeUpdate`: without `stderr` the handler itself throws. `none` is to skip.
unfoldable pub differences : Result ToolError Bytes → Result ToolError (Option Bytes)
unfolding no_differences
differences (ok config) = ok (some config)
differences (err e) = elim e.stderr [
  | none ↦ err e
  | some s ↦ if text_eq (trim s) no_differences then ok none else err e
]

-- `assert.deepStrictEqual` of a JSON value and a list of anchor peers; the order of an object's
-- fields does not count.
abbrev pub count : Fields → ℕ
count end = 0
count (field k v fs) = suc (count fs)

abbrev pub is_string : String → Option Json → Bool
is_string s (some (string t)) = str_eq t s
is_string s _ = false

abbrev pub is_number : ℕ → Option Json → Bool
is_number n (some (number k)) = k == n
is_number n _ = false

unfoldable pub same_peer : Json → AnchorPeer → Bool
unfolding lookup
same_peer (object fs) p =
    count fs == 2 && is_string p.host (lookup "host" fs) && is_number p.port (lookup "port" fs)
same_peer _ p = false

unfoldable pub same_items : Items → List AnchorPeer → Bool
unfolding same_peer
same_items nil [] = true
same_items (cons j js) (p ∷ ps) = same_peer j p && same_items js ps
same_items _ _ = false

abbrev pub same_peers : Option Json → List AnchorPeer → Bool
same_peers (some (array js)) ps = same_items js ps
same_peers _ ps = false

-- `signingIdentities`, or the user's own.
abbrev pub or_own : SigningIdentity → List SigningIdentity → List SigningIdentity
or_own own [] = own ∷ []
or_own own (i ∷ is) = i ∷ is

-- The world of one call: what the orderer delivers at the n-th reading of the configuration, the
-- transaction of each reading and, at 2, of the update, the nonces of the signatures, the time, the committer's answer and the two streams of
-- blocks.
pub record World (Time Config X S Content : Type 0) : Type 0 where
  pub deliver : ℕ → Envelope → ℕ → Promise (List Block) Refusal
  pub tx_id : ℕ → Text
  pub nonce : ℕ → Bytes
  pub now : ℕ → Time
  pub signature_nonce : ℕ → Bytes
  pub config_bytes : Config → Bytes
  pub send_broadcast : Envelope → Result X (Text × Text)
  pub newest_blocks : List (Delivery S (Query.Block Content))
  pub later_blocks : List (Delivery S (Query.Block Content))

module _ {Time Config ConfigUpdate X S Content : Type 0} (codec : Codec Time Config ConfigUpdate)
    (user : SigningIdentity) (world : World Time Config X S Content) (server : Translator)
    (bin_path : Option Translator) (channel : Text) where
  -- `getChannelConfigReadable`, the n-th time.
  unfoldable pub get_channel_config_readable : ℕ → Promise (Bytes × Json) (Failure X S)
  unfolding get_channel_config
  get_channel_config_readable n =
      then_do
        (rejecting not_fetched (
          get_channel_config codec user (world.deliver n) channel (world.tx_id n) (world.nonce n)
            (world.now n)))
        (λ config.
          let proto = world.config_bytes config in
          let tool : Translator = elim bin_path [ none ↦ server | some t ↦ t ] in
          then_do (settle tool_failed (tool.decode proto)) (λ json. resolved (proto, json)))

  -- The update that is computed, or `none` where there are no differences.
  unfoldable pub compute : Bytes → Json → Promise (Option Bytes) (Failure X S)
  unfolding differences
  compute proto json = elim bin_path [
    | none ↦ rejected no_bin_path
    | some tool ↦ then_do (settle tool_failed (tool.encode json)) (λ updated_proto.
        settle tool_failed (differences (tool.compute_update channel proto updated_proto)))
  ]

  abbrev pub sign_all : ℕ → Bytes → List SigningIdentity → List ConfigSignature
  sign_all n config [] = []
  sign_all n config (i ∷ is) =
      sign_channel_config codec i config (world.signature_nonce n) ∷ sign_all (suc n) config is

  abbrev pub check_answer : Text × Text → Promise (Unit {0}) (Failure X S)
  check_answer (status, info) =
      if is_empty info && text_eq status (codes "SUCCESS")
      then resolved tt
      else rejected (not_accepted status info)

  -- `submit`, and the assertions about the answer.
  unfoldable pub accept : List SigningIdentity → Bytes → Promise (Unit {0}) (Failure X S)
  unfolding submit
  accept signers config =
      let content =
        use_signatures config (sign_all 0 config signers)
          record { config = none; signatures = none; envelope = none } in
      then_do
        (settle not_submitted (
          submit codec user world.send_broadcast channel none (world.tx_id 2, world.nonce 2) content
            (world.now 2)))
        check_answer

  -- The read-back behind the finality.
  abbrev pub check_peers :
      List AnchorPeer → Result Json.Failure (Option Json) → Promise Outcome (Failure X S)
  check_peers peers (err x) = rejected no_anchor_peers
  check_peers peers (ok found) =
      if same_peers found peers then resolved updated else rejected not_read_back

  abbrev pub read_peers : String → Json → Result Json.Failure (Option Json)
  read_peers org json =
      get_anchor_peers org json >>= λ found. get_path ("value" ∷ "anchor_peers" ∷ []) found

  unfoldable pub update_peers :
      List SigningIdentity → String → List AnchorPeer → Bool → Bytes → Promise Outcome (Failure X S)
  unfolding accept get_channel_config_readable get_last_block wait_until_block
  update_peers signers org peers false config =
      then_do (accept signers config) (λ _. resolved updated)
  update_peers signers org peers true config =
      then_do (rejecting no_event (get_last_block world.newest_blocks)) (λ before.
        then_do (accept signers config) (λ _.
          then_do (rejecting no_event (wait_until_block (suc before.height) world.later_blocks))
            (λ _.
              then_do (get_channel_config_readable 1)
                (λ read. check_peers peers (read_peers org read.1)))))

  abbrev pub unless_same :
      (Bytes → Promise Outcome (Failure X S)) → Option Bytes → Promise Outcome (Failure X S)
  unless_same update none = resolved skipped
  unless_same update (some config) = update config

  -- `setAnchorPeers`
  unfoldable pub set_peers :
      List SigningIdentity → String → List AnchorPeer → Bool → Promise Outcome (Failure X S)
  unfolding get_channel_config_readable compute update_peers
  set_peers signers org peers finality = then_do (get_channel_config_readable 0) (λ read.
      then_do (settle not_edited (set_anchor_peers org peers read.1)) (λ json.
        then_do (compute read.0 json)
          (unless_same (update_peers (or_own user signers) org peers finality))))
