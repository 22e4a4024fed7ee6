-- ===== src/Channel/Fetch/Laws.antt =====
-- Where the configuration of a channel comes from.
use fabric_common.Base.{
  ℕ, zero, suc, ◌<◌, arith, true, ◌≡◌, refl, sym, ap, ◌∙◌, inl, inr, false, Option, none, some,
  List, [], ◌∷◌, ◌==◌, Text, codes, Bool-cases, ==_iff,
}
use fabric_common.Base.Result.{ok, ok_inj, bind_inv, ◌>>=◌}
use fabric_common.Endorsement.Check.{Bytes}
use fabric_common.Events.Settling.{
  Promise, pending, resolved, rejected, settle, then_do_inv, settle_inv,
}
use fabric_common.Events.Deliver.{Refusal, invalid_status, named}
use fabric_common.Channel.Message.{
  Codec, Envelope, Block, Payload, ChannelHeader, HeightFilter, number, name, config_type, decoded,
  payload_of, assert_config_type, assert_config_block, extract_config_envelope,
  extract_last_config_index,
}
use fabric_common.Channel.Update.{SigningIdentity}
use fabric_common.Channel.Fetch.{
  judge_delivery, send_from, seek_envelope, get_specific_block, block_of, broken, config_of,
  head_of, get_channel_config, get_genesis_block,
}

module _ {A : Type 0} where
  decoded_inv : (o : Option A) {a : A} → decoded o ≡ ok a → o ≡ some a
  decoded_inv none h = absurd (cc)
  decoded_inv (some b) h = cc

block_of_inv :
    (m : Promise (Option Block) Refusal) {b : Block}
    → block_of m ≡ resolved b
    → m ≡ resolved (some b)
block_of_inv pending h = absurd (cc)
block_of_inv (rejected x) h = absurd (cc)
block_of_inv (resolved none) h = absurd (cc)
block_of_inv (resolved (some b)) h = cc

-- The block that one call without a retry brings is the first one.
one_try :
    (deliver : ℕ → Promise (List Block) Refusal) (p : Promise (List Block) Refusal) {b : Block}
    → deliver 0 ≡ p
    → send_from deliver 1 0 false ≡ resolved (some b)
    → (rest : List Block) × (p ≡ resolved (b ∷ rest))
unfolding send_from judge_delivery
one_try deliver pending e h = absurd (cc (rw (send_from, e) at h))
one_try deliver (rejected x) e h = absurd (cc (rw (send_from, e) at h))
one_try deliver (resolved []) e h = absurd (cc (rw (send_from, e) at h))
one_try deliver (resolved (b ∷ bs)) e h = (bs, cc (rw (send_from, e) at h))

module _ {Time Config ConfigUpdate : Type 0} (codec : Codec Time Config ConfigUpdate) where
  -- An encoded envelope of the type CONFIG with this configuration in it.
  abbrev pub IsConfig : Bytes → Config → Type 0
  IsConfig bytes config =
      (p : Payload) × (h : ChannelHeader Time) × (payload_of codec bytes ≡ ok p)
      × (codec.decode_channel_header p.header.channel_header ≡ some h)
      × (h.type ≡ config_type)
      × (codec.decode_config_envelope p.content ≡ some config)

  has_config_type :
      (h : ChannelHeader Time) {u : Unit {0}}
      → assert_config_type codec h ≡ ok u
      → h.type ≡ config_type
  has_config_type h e = elim (Bool-cases (h.type == config_type)) [
    | inl t ↦ (==_iff h.type config_type).0 t
    | inr f ↦ absurd (cc (rw f at e))
  ]

  config_of-IsConfig :
      (b : Block) (contents : List Bytes) {config : Config}
      → b.contents ≡ contents
      → config_of codec b ≡ ok config
      → (bytes : Bytes) × (contents ≡ bytes ∷ []) × IsConfig bytes config
  unfolding config_of assert_config_block extract_config_envelope
  config_of-IsConfig b [] same h = absurd (cc (rw same at h))
  config_of-IsConfig b (x ∷ y ∷ rest) same h = absurd (cc (rw same at h))
  config_of-IsConfig b (bytes ∷ []) same h =
      let (u, checked, found) =
        bind_inv (assert_config_block codec b.contents)
          (λ _. extract_config_envelope codec (head_of b.contents)) h in
      let (p, e, t) =
        bind_inv (payload_of codec bytes)
          (λ p.
            decoded (codec.decode_channel_header p.header.channel_header)
            >>= assert_config_type codec)
          (ap (assert_config_block codec) (sym same) ∙ checked) in
      let (x, dx, ok_type) =
        bind_inv (decoded (codec.decode_channel_header p.header.channel_header))
          (assert_config_type codec) t in
      let (q, e', d) =
        bind_inv (payload_of codec bytes) (λ p. decoded (codec.decode_config_envelope p.content))
          (ap (λ c. extract_config_envelope codec (head_of c)) (sym same) ∙ found) in
      let same_payload : q ≡ p = ok_inj (sym e' ∙ e) in
      (
        bytes,
        refl,
        (
          p,
          x,
          e,
          decoded_inv (codec.decode_channel_header p.header.channel_header) dx,
          has_config_type x ok_type,
          ap (λ y. codec.decode_config_envelope y.content) (sym same_payload)
              ∙ decoded_inv (codec.decode_config_envelope q.content) d,
        ),
      )

module _ {Time Config ConfigUpdate : Type 0} (codec : Codec Time Config ConfigUpdate)
    (identity : SigningIdentity) (deliver : Envelope → ℕ → Promise (List Block) Refusal)
    (channel_id tx_id : Text) (nonce : Bytes) (now : Time) where
  abbrev asks : HeightFilter → Envelope
  asks height = seek_envelope codec identity deliver channel_id tx_id nonce now height

  get_specific_block-first :
      (height : HeightFilter) {b : Block}
      → block_of
          (get_specific_block codec identity deliver channel_id tx_id nonce now 1 false height)
        ≡ resolved b
      → (rest : List Block) × (deliver (asks height) 0 ≡ resolved (b ∷ rest))
  unfolding get_specific_block
  get_specific_block-first height h =
      one_try (deliver (asks height)) (deliver (asks height) 0) refl (
        block_of_inv
          (get_specific_block codec identity deliver channel_id tx_id nonce now 1 false height) h)

  -- A configuration that is returned was asked for in two requests: the first brought the newest
  -- block, the second the block that the newest one names as the last with a configuration. That
  -- block holds one envelope, of the type CONFIG, and the configuration is the one in it.
  pub get_channel_config-IsConfig :
      {config : Config}
      → get_channel_config codec identity deliver channel_id tx_id nonce now ≡ resolved config
      → (newest : Block) × (rest : List Block) × (index : ℕ) × (block : Block) × (rest' : List
          Block)
        × (bytes : Bytes) × (deliver (asks (name (codes "newest"))) 0 ≡ resolved (newest ∷ rest))
        × (extract_last_config_index codec newest ≡ ok index)
        × (deliver (asks (number index)) 0 ≡ resolved (block ∷ rest'))
        × (block.contents ≡ bytes ∷ [])
        × IsConfig codec bytes config
  unfolding get_channel_config
  get_channel_config-IsConfig h =
      let (newest, a, k) = then_do_inv (block_of _) _ h in
      let (index, b, l) =
        then_do_inv (settle broken (extract_last_config_index codec newest)) _ k in
      let (block, c, m) = then_do_inv (block_of _) _ l in
      let (rest, first) = get_specific_block-first (name (codes "newest")) a in
      let (rest', second) = get_specific_block-first (number index) c in
      let (bytes, one, is_config) =
        config_of-IsConfig codec block block.contents refl
          (settle_inv broken (config_of codec block) m) in
      (
        newest,
        rest,
        index,
        block,
        rest',
        bytes,
        first,
        settle_inv broken (extract_last_config_index codec newest) b,
        second,
        one,
        is_config,
      )

-- An orderer that answers SERVICE_UNAVAILABLE, with no block, to the calls from the k-th on, n times,
-- and then delivers a block.
pub data ComesAfter (deliver : ℕ → Promise (List Block) Refusal) (b : Block) : ℕ → ℕ → Type 0 where
  at_once : {k : ℕ} (bs : List Block) → deliver k ≡ resolved (b ∷ bs) → ComesAfter deliver b k 0
  later :
      {k n : ℕ}
      → deliver k ≡ rejected (invalid_status (named (codes "SERVICE_UNAVAILABLE")) true)
      → ComesAfter deliver b (suc k) n
      → ComesAfter deliver b k (suc n)

send_from-ComesAfter :
    (deliver : ℕ → Promise (List Block) Refusal) (b : Block) (k n fuel : ℕ)
    → ComesAfter deliver b k n
    → n < fuel
    → send_from deliver fuel k true ≡ resolved (some b)
unfolding send_from judge_delivery
send_from-ComesAfter deliver b k n zero h lt = absurd (omega arith)
send_from-ComesAfter deliver b k zero (suc fuel) (at_once bs e) lt = rw (send_from, e) refl
send_from-ComesAfter deliver b k (suc n) (suc fuel) (later e h) lt =
    rw (send_from, e) (send_from-ComesAfter deliver b (suc k) n fuel h (omega arith))

-- Where the orderer answers the first n requests with SERVICE_UNAVAILABLE and no block and then
-- delivers the block 0, more than n requests bring it, encoded, whatever block stands behind it in
-- the delivery.
pub get_genesis_block-ComesAfter :
    {Time Config ConfigUpdate Encoded : Type 0} (codec : Codec Time Config ConfigUpdate)
    (identity : SigningIdentity) (deliver : Envelope → ℕ → Promise (List Block) Refusal)
    (channel_id tx_id : Text) (nonce : Bytes) (now : Time) (fuel n : ℕ)
    (from_event : Block → Encoded) (b : Block)
    → ComesAfter
        (deliver (seek_envelope codec identity deliver channel_id tx_id nonce now (number 0)))
        b
        0
        n
    → n < fuel
    → get_genesis_block codec identity deliver channel_id tx_id nonce now fuel from_event
      ≡ resolved (from_event b)
unfolding get_genesis_block get_specific_block
get_genesis_block-ComesAfter codec identity deliver channel_id tx_id nonce now fuel n from_event b h
      lt =
    rw
      (send_from-ComesAfter
        (deliver (seek_envelope codec identity deliver channel_id tx_id nonce now (number 0))) b 0 n
        fuel h lt)
      refl
