-- ===== src/Operation/Assign.antt =====
-- What `ChaincodeLifecycleOperation.assign` of nodejs/chaincodeOperation.js sets on the lifecycle
-- proposal: the validation parameter and the collections. The protobuf encoders are parameters.
use fabric_common.Base.{ℕ, Bool, Option, none, some, List, [], ◌∷◌, Text, is_empty, if◌then◌else◌}
use fabric_common.Base.Result.{Result, ok, err, ◌>>=◌}
use fabric_common.Endorsement.Check.{Bytes}
use fabric_common.Endorsement.Lifecycle.{Properties}
use fabric_common.Policy.Proto.{MspRole, Envelope}
use fabric_common.Policy.Gate.{Failure, type_error, from_string}
use fabric_common.Policy.Spec.{PolicySpec, build_signature_policy_envelope}
use fabric_common.Policy.Collection.{EndorsementPolicy, CollectionConfig, build_collection_config}

-- An endorsement policy as the caller gives it; a missing reference is the empty text.
pub record PolicySource : Type 0 where
  pub json : Option PolicySpec
  pub gate : Text
  pub reference : Text

pub record CollectionSource : Type 0 where
  pub name : Text
  pub identities : List Text
  pub required_peer_count : ℕ
  pub maximum_peer_count : Option ℕ
  pub block_to_live : Option ℕ
  pub member_only_read : Option Bool
  pub member_only_write : Option Bool
  pub endorsement_policy : Option (EndorsementPolicy Bytes)
  pub policy_source : Option PolicySource

-- What the setters of the operation hold.
pub record Settings : Type 0 where
  pub endorsement_policy : Option PolicySource
  pub collections : Option (List CollectionSource)

abbrev pub Collections : Type 0
Collections = List (CollectionConfig Bytes)

module _ (encode : MspRole → Bytes) (decode : Bytes → MspRole)
    (encode_policy : EndorsementPolicy Bytes → Bytes) where
  abbrev pub signature_policy : PolicySource → Result Failure (Option (Envelope Bytes))
  signature_policy source = elim source.json [
    | some json ↦ elim (build_signature_policy_envelope encode json) [
      | none ↦ err type_error
      | some e ↦ ok (some e)
    ]
    | none ↦
        if is_empty source.gate
        then ok none
        else from_string encode source.gate >>= λ e. ok (some e)
  ]

  -- `applicationPolicyBuilder`
  unfoldable pub application_policy_builder :
      PolicySource → Result Failure (EndorsementPolicy Bytes)
  application_policy_builder source = signature_policy source >>= λ p.
      ok record { channel_config_policy_reference = source.reference; signature_policy = p }

  abbrev pub with_policy : CollectionSource → Result Failure (Option (EndorsementPolicy Bytes))
  with_policy c = elim c.policy_source [
    | none ↦ ok c.endorsement_policy
    | some source ↦ application_policy_builder source >>= λ p. ok (some p)
  ]

  -- `buildCollectionConfig`; its advice to the logger is left out.
  unfoldable pub build_collection : CollectionSource → Result Failure (CollectionConfig Bytes)
  unfolding application_policy_builder
  build_collection c = with_policy c >>= λ policy. ok (
      build_collection_config encode decode record {
        name = c.name;
        required_peer_count = c.required_peer_count;
        maximum_peer_count = c.maximum_peer_count;
        endorsement_policy = policy;
        block_to_live = c.block_to_live;
        member_only_read = c.member_only_read;
        member_only_write = c.member_only_write;
        member_orgs = c.identities;
      })

  unfoldable pub build_collections : List CollectionSource → Result Failure Collections
  unfolding build_collection
  build_collections [] = ok []
  build_collections (c ∷ cs) =
      build_collection c >>= λ d. build_collections cs >>= λ ds. ok (d ∷ ds)

  -- The part of `assign` for the endorsement policy; it may throw, and then nothing is set.
  abbrev pub assign_policy :
      Option PolicySource → Properties Collections → Result Failure (Properties Collections)
  assign_policy none p = ok p
  assign_policy (some source) p = application_policy_builder source >>= λ policy.
      ok (record p { validation_parameter = some (encode_policy policy) })

  abbrev pub assign_collections :
      Option (List CollectionSource)
      → Properties Collections
      → Result Failure (Properties Collections)
  assign_collections none p = ok p
  assign_collections (some sources) p =
      build_collections sources >>= λ cs. ok (record p { collections = some cs })

  -- `assign`: the failure, if there is one, and what is set until then.
  unfoldable pub assign :
      Settings → Bool → Properties Collections → Option Failure × Properties Collections
  unfolding application_policy_builder build_collections
  assign s init_required p = elim (assign_policy s.endorsement_policy p) [
    | err x ↦ (some x, p)
    | ok q ↦ elim (assign_collections s.collections q) [
      | err x ↦ (some x, q)
      | ok r ↦ (none, record r { init_required = init_required })
    ]
  ]
