-- ===== src/Policy/Collection.antt =====
-- nodejs/formatter/SideDB.js: private data collections. A field that may be undefined is an
-- `Option`. The decoder of `MSPRole` is a parameter.
pub mod Laws
use fabric_common.Base.{
  ℕ, zero, suc, ◌≡◌, Bool, true, false, Option, none, some, List, [], ◌∷◌, map, Text, ◌==◌,
  if◌then◌else◌,
}
use fabric_common.Base.Result.{Result, ok, err, ◌>>=◌}
use fabric_common.Policy.Proto.{
  MspRole, MspPrincipal, SignaturePolicy, Envelope, build_n_out_of, build_signature_policy,
  build_msp_principal,
}
use fabric_common.Policy.Gate.{Failure, from_string}

-- `protos.ApplicationPolicy`, by the field that is set.
pub data ApplicationPolicy (Bytes : Type 0) : Type 0 where
  unset : ApplicationPolicy Bytes
  reference : Text → ApplicationPolicy Bytes
  signature : Envelope Bytes → ApplicationPolicy Bytes

-- The endorsement policy that the caller gives: a reference, and a signature policy.
pub record EndorsementPolicy (Bytes : Type 0) : Type 0 where
  pub channel_config_policy_reference : Text
  pub signature_policy : Option (Envelope Bytes)

-- The parameter of `buildCollectionConfig`.
pub record CollectionSpec (Bytes : Type 0) : Type 0 where
  pub name : Text
  pub required_peer_count : ℕ
  pub maximum_peer_count : Option ℕ
  pub endorsement_policy : Option (EndorsementPolicy Bytes)
  pub block_to_live : Option ℕ
  pub member_only_read : Option Bool
  pub member_only_write : Option Bool
  pub member_orgs : List Text

-- `protos.StaticCollectionConfig`; its `member_orgs_policy` is a signature policy.
pub record CollectionConfig (Bytes : Type 0) : Type 0 where
  pub name : Text
  pub required_peer_count : ℕ
  pub maximum_peer_count : ℕ
  pub block_to_live : Option ℕ
  pub member_only_write : Bool
  pub member_only_read : Bool
  pub member_orgs_policy : Envelope Bytes
  pub endorsement_policy : Option (ApplicationPolicy Bytes)

-- A number that is absent or 0 is falsy.
abbrev pub truthy : Option ℕ → Option ℕ
truthy none = none
truthy (some zero) = none
truthy (some (suc n)) = some (suc n)

abbrev pub or_else {ℓ} : {A : Type ℓ} → Option A → A → A
or_else none d = d
or_else (some a) d = a

abbrev signer : ℕ → SignaturePolicy
signer k = build_signature_policy none (some k)

-- `member_orgs.map((mspid, index) => …)`
pub signers_from : ℕ → List Text → List SignaturePolicy
signers_from k [] = []
signers_from k (m ∷ ms) = signer k ∷ signers_from (suc k) ms

-- The reference comes first; an empty one is falsy.
pub application_policy : {Bytes : Type 0} → EndorsementPolicy Bytes → ApplicationPolicy Bytes
application_policy p = elim p.channel_config_policy_reference [
  | _ ∷ _ ↦ reference p.channel_config_policy_reference
  | [] ↦ elim p.signature_policy [ some s ↦ signature s | none ↦ unset ]
]

-- An entry of a `collections_config.json`.
pub record StandardItem : Type 0 where
  pub name : Text
  pub policy : Text
  pub required_peer_count : ℕ
  pub max_peer_count : Option ℕ
  pub block_to_live : Option ℕ
  pub member_only_read : Option Bool
  pub member_only_write : Option Bool

-- The argument that an entry makes for `buildCollectionConfig`.
abbrev pub standard_spec : {Bytes : Type 0} → StandardItem → List Text → CollectionSpec Bytes
standard_spec item orgs = record {
  name = item.name;
  required_peer_count = item.required_peer_count;
  maximum_peer_count = item.max_peer_count;
  endorsement_policy = none;
  block_to_live = item.block_to_live;
  member_only_read = item.member_only_read;
  member_only_write = item.member_only_write;
  member_orgs = orgs;
}

module _ {Bytes : Type 0} (encode : MspRole → Bytes) (decode : Bytes → MspRole) where
  -- The policy over the member organisations.
  pub member_policy : List Text → Envelope Bytes
  unfolding signers_from
  member_policy orgs = record {
    rule = build_signature_policy (some (build_n_out_of 1 (signers_from 0 orgs))) none;
    identities = map (λ m. build_msp_principal encode 0 m) orgs;
  }

  -- `buildCollectionConfig`
  pub build_collection_config : CollectionSpec Bytes → CollectionConfig Bytes
  unfolding member_policy application_policy
  build_collection_config s = record {
    name = s.name;
    required_peer_count = s.required_peer_count;
    maximum_peer_count = or_else (truthy s.maximum_peer_count) s.required_peer_count;
    block_to_live = truthy s.block_to_live;
    member_only_write = or_else s.member_only_write true;
    member_only_read = or_else s.member_only_read true;
    member_orgs_policy = member_policy s.member_orgs;
    endorsement_policy = elim s.endorsement_policy [
      | none ↦ none
      | some p ↦ some (application_policy p)
    ];
  }

  abbrev pub msp_of : MspPrincipal Bytes → Text
  msp_of p = (decode p.principal).msp_identifier

  -- One entry of `FromStandard`.
  pub from_standard_item : StandardItem → Result Failure (CollectionConfig Bytes)
  unfolding build_collection_config
  from_standard_item item = from_string encode item.policy >>= λ e.
      ok (build_collection_config (standard_spec item (map msp_of e.identities)))

  -- `FromStandard`
  pub from_standard : List StandardItem → Result Failure (List (CollectionConfig Bytes))
  unfolding from_standard_item
  from_standard [] = ok []
  from_standard (item ∷ items) =
      from_standard_item item >>= λ c. from_standard items >>= λ cs. ok (c ∷ cs)
