-- ===== src/Channel/Anchor/Laws.antt =====
-- What a setting of anchor peers that is final has gone through.
use Prim.Native.String.{String}
use fabric_common.Base.{
  suc, ◌≡◌, refl, sym, ap, ◌∙◌, inl, inr, true, Option, none, some, List, [], ◌∷◌, Text, codes,
  text_eq, text_eq_iff, arith, Bool-cases, Option-cases,
}
use fabric_common.Base.Result.{Result, ok, err}
use fabric_common.Endorsement.Check.{Bytes}
use fabric_common.Events.Settling.{
  Promise, resolved, then_do, settle, then_do_inv, rejecting_inv, settle_inv,
}
use fabric_common.Events.Query.{Delivery, get_last_block, wait_until_block}
use fabric_common.Events.Query.Laws.{first_outcome-height, wait_until_block-first_outcome}
use fabric_common.Events.Query
use fabric_common.Config.Json.{Json, Items, array}
use fabric_common.Config.Json
use fabric_common.Config.Orgs.{AnchorPeer, set_anchor_peers}
use fabric_common.Channel.Message.{Codec}
use fabric_common.Channel.Update.{SigningIdentity, use_signatures, submit}
use fabric_common.Channel.Anchor.{
  Translator, World, Failure, Outcome, updated, same_peers, or_own, get_channel_config_readable,
  compute, sign_all, check_answer, accept, check_peers, read_peers, update_peers, unless_same,
  set_peers, not_edited, no_event,
}
use fabric_common.Channel.Anchor.Answers.{AreThese, same_peers-AreThese, differences_inv}

module _ {Time Config ConfigUpdate X S Content : Type 0} (codec : Codec Time Config ConfigUpdate)
    (user : SigningIdentity) (world : World Time Config X S Content) (server : Translator)
    (bin_path : Option Translator) (channel : Text) where
  -- The steps of a run that is final.
  pub record Final (signers : List SigningIdentity) (org : String) (peers : List AnchorPeer)
      : Type 0 where
    pub old : Bytes × Json
    pub edited : Json
    pub tool : Translator
    pub edited_proto : Bytes
    pub config : Bytes
    pub before : Query.Block Content
    pub block : Query.Block Content
    pub read : Bytes × Json
    pub items : Items
    pub read_before :
        get_channel_config_readable codec user world server bin_path channel 0 ≡ resolved old
    pub edit : set_anchor_peers org peers old.1 ≡ ok edited
    pub given : bin_path ≡ some tool
    pub encoded : tool.encode edited ≡ ok edited_proto
    pub computed : tool.compute_update channel old.0 edited_proto ≡ ok config
    pub last : get_last_block world.newest_blocks ≡ resolved before
    pub answered :
        submit codec user world.send_broadcast channel none
          (world.tx_id 2, world.nonce 2)
          (use_signatures config
            (sign_all codec user world server bin_path channel 0 config signers)
            record { config = none; signatures = none; envelope = none })
          (world.now 2)
        ≡ ok (codes "SUCCESS", [])
    pub came : wait_until_block (suc before.height) world.later_blocks ≡ resolved block
    pub next : block.height ≡ suc before.height
    pub read_again :
        get_channel_config_readable codec user world server bin_path channel 1 ≡ resolved read
    pub peers_found :
        read_peers codec user world server bin_path channel org read.1 ≡ ok (some (array items))
    pub same : AreThese items peers

  -- The half of the steps that follows the computed update.
  record Sent (signers : List SigningIdentity) (org : String) (peers : List AnchorPeer)
      (config : Bytes) : Type 0 where
    before : Query.Block Content
    block : Query.Block Content
    read : Bytes × Json
    items : Items
    last : get_last_block world.newest_blocks ≡ resolved before
    answered :
        submit codec user world.send_broadcast channel none
          (world.tx_id 2, world.nonce 2)
          (use_signatures config
            (sign_all codec user world server bin_path channel 0 config signers)
            record { config = none; signatures = none; envelope = none })
          (world.now 2)
        ≡ ok (codes "SUCCESS", [])
    came : wait_until_block (suc before.height) world.later_blocks ≡ resolved block
    next : block.height ≡ suc before.height
    read_again :
        get_channel_config_readable codec user world server bin_path channel 1 ≡ resolved read
    peers_found :
        read_peers codec user world server bin_path channel org read.1 ≡ ok (some (array items))
    same : AreThese items peers

  check_peers_inv :
      (peers : List AnchorPeer) (r : Result Json.Failure (Option Json))
      → check_peers codec user world server bin_path channel peers r ≡ resolved updated
      → (items : Items) × (r ≡ ok (some (array items))) × AreThese items peers
  check_peers_inv peers (err x) h = absurd (cc)
  check_peers_inv peers (ok found) h = elim (Bool-cases (same_peers found peers)) [
    | inl t ↦ let (items, e, k) = same_peers-AreThese found peers t in (items, ap ok e, k)
    | inr f ↦ absurd (cc (rw f at h))
  ]

  check_answer_inv :
      (a : Text × Text)
      → check_answer codec user world server bin_path channel a ≡ resolved tt
      → a ≡ (codes "SUCCESS", [])
  check_answer_inv (status, []) h = elim (Bool-cases (text_eq status (codes "SUCCESS"))) [
    | inl t ↦ ap (λ s. (s, [])) (ground (arith, text_eq_iff status (codes "SUCCESS"), t))
    | inr f ↦ absurd (cc (rw f at h))
  ]
  check_answer_inv (status, c ∷ info) h = absurd (cc)

  accept_inv :
      (signers : List SigningIdentity) (config : Bytes)
      → accept codec user world server bin_path channel signers config ≡ resolved tt
      → submit codec user world.send_broadcast channel none
          (world.tx_id 2, world.nonce 2)
          (use_signatures config
            (sign_all codec user world server bin_path channel 0 config signers)
            record { config = none; signatures = none; envelope = none })
          (world.now 2)
        ≡ ok (codes "SUCCESS", [])
  unfolding accept
  accept_inv signers config h =
      let (a, b, c) = then_do_inv _ (check_answer codec user world server bin_path channel) h in
      settle_inv _ _ b ∙ ap ok (check_answer_inv a c)

  compute_inv :
      (proto : Bytes) (json : Json) (config : Bytes)
      → compute codec user world server bin_path channel proto json ≡ resolved (some config)
      → (tool : Translator) × (edited : Bytes) × (bin_path ≡ some tool)
        × (tool.encode json ≡ ok edited)
        × (tool.compute_update channel proto edited ≡ ok config)
  unfolding compute
  compute_inv proto json config h = elim (Option-cases bin_path) [
    | inl f ↦ absurd (cc (rw f at h))
    | inr (tool, f) ↦
        let (edited, a, b) = then_do_inv _ _ (rw f at h) in
        (tool, edited, f, settle_inv _ _ a, differences_inv _ config (settle_inv _ _ b))
  ]

  update_peers-Sent :
      (signers : List SigningIdentity) (org : String) (peers : List AnchorPeer) (config : Bytes)
      → update_peers codec user world server bin_path channel signers org peers true config
        ≡ resolved updated
      → Sent signers org peers config
  unfolding update_peers
  update_peers-Sent signers org peers config h =
      let (before, a, h1) = then_do_inv _ _ h in
      let (u, b, h2) =
        then_do_inv (accept codec user world server bin_path channel signers config) _ h1 in
      let (block, c, h3) = then_do_inv _ _ h2 in
      let (read, d, h4) =
        then_do_inv (get_channel_config_readable codec user world server bin_path channel 1) _ h3 in
      let (items, e, f) = check_peers_inv peers _ h4 in
      record {
        before = before;
        block = block;
        read = read;
        items = items;
        last = rejecting_inv no_event _ a;
        answered = accept_inv signers config b;
        came = rejecting_inv no_event _ c;
        read_again = d;
        peers_found = e;
        same = f;
        next = first_outcome-height (suc before.height) world.later_blocks (
            sym (wait_until_block-first_outcome (suc before.height) world.later_blocks)
            ∙ rejecting_inv no_event _ c);
      }

  unless_same_inv :
      (update : Bytes → Promise Outcome (Failure X S)) (o : Option Bytes)
      → unless_same codec user world server bin_path channel update o ≡ resolved updated
      → (config : Bytes) × (o ≡ some config) × (update config ≡ resolved updated)
  unless_same_inv update none h = absurd (cc)
  unless_same_inv update (some config) h = (config, refl, h)

  -- Where the setting of anchor peers comes back with finality and is not skipped, the configuration
  -- was read and edited, the binary computed an update from the two, the newest block was read, and
  -- the orderer answered SUCCESS, with no further word, to this update with the signatures of the
  -- given signers or else of the user; then the block behind the newest one came, and the
  -- configuration that was read after it has these anchor peers, in order: an object of host and port
  -- for each.
  pub set_peers-Final :
      (signers : List SigningIdentity) (org : String) (peers : List AnchorPeer)
      → set_peers codec user world server bin_path channel signers org peers true ≡ resolved updated
      → Final (or_own user signers) org peers
  unfolding set_peers
  set_peers-Final signers org peers h =
      let finish : Option Bytes → Promise Outcome (Failure X S) =
        unless_same codec user world server bin_path channel (
          update_peers codec user world server bin_path channel (or_own user signers) org peers
            true) in
      let (read, a, h1) =
        then_do_inv (get_channel_config_readable codec user world server bin_path channel 0) _ h in
      let (json, b, h2) =
        then_do_inv (settle not_edited (set_anchor_peers org peers read.1))
          (λ j. then_do (compute codec user world server bin_path channel read.0 j) finish) h1 in
      let (o, c, h3) =
        then_do_inv (compute codec user world server bin_path channel read.0 json) finish h2 in
      let (config, e, d) =
        unless_same_inv
          (update_peers codec user world server bin_path channel (or_own user signers) org peers
            true)
          o h3 in
      let (tool, edited_proto, given, encoded, computed) =
        compute_inv read.0 json config (c ∙ ap resolved e) in
      let sent = update_peers-Sent (or_own user signers) org peers config d in
      record {
        old = read;
        edited = json;
        tool = tool;
        edited_proto = edited_proto;
        config = config;
        before = sent.before;
        block = sent.block;
        read = sent.read;
        items = sent.items;
        read_before = a;
        edit = settle_inv not_edited _ b;
        given = given;
        encoded = encoded;
        computed = computed;
        last = sent.last;
        answered = sent.answered;
        came = sent.came;
        next = sent.next;
        read_again = sent.read_again;
        peers_found = sent.peers_found;
        same = sent.same;
      }
