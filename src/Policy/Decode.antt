-- ===== src/Policy/Decode.antt =====
-- nodejs/formatter/policyProtoTranslator.js: plain objects from decoded policy messages. The
-- protobuf decoders of the three kinds of principal are parameters.
pub mod Laws
use fabric_common.Base.{ℕ, Option, none, some, List, [], ◌∷◌, map, Text, codes, get_elem?}
use fabric_common.Policy.Proto.{
  Classification, role, organization_unit, identity, MspRole, MspPrincipal, SignaturePolicy,
  untyped, signed_by, n_out_of, Rules, nil, cons, Envelope,
}

-- `commonProtos.OrganizationUnit`
pub record OrganizationUnit : Type 0 where
  pub msp_identifier : Text
  pub organizational_unit_identifier : Text
  pub certifiers_identifier : Text

-- `msp.SerializedIdentity`
pub record SerializedIdentity : Type 0 where
  pub mspid : Text
  pub id_bytes : Text

-- The protobuf decoders, which are the library's.
pub record Decoders (Bytes : Type 0) : Type 0 where
  pub role : Bytes → MspRole
  pub organization_unit : Bytes → OrganizationUnit
  pub identity : Bytes → SerializedIdentity

-- The object that `decodeMSPPrincipal` returns, by the fields that it has; an identity's object
-- has no `principal_classification`.
pub data PrincipalView : Type 0 where
  role_view : (msp_identifier : Text) (role : Option Text) → PrincipalView
  unit_view : OrganizationUnit → PrincipalView
  identity_view : SerializedIdentity → PrincipalView

-- `MSPRoleType` of constants.js, an array.
abbrev pub msp_role_names : List Text
msp_role_names =
    codes "MEMBER" ∷ codes "ADMIN" ∷ codes "CLIENT" ∷ codes "PEER" ∷ codes "ORDERER" ∷ []

module _ {Bytes : Type 0} (decoders : Decoders Bytes) where
  -- `decodeIdentity`
  abbrev pub decode_identity : Bytes → SerializedIdentity
  decode_identity b = decoders.identity b

  -- `decodeMSPPrincipal`
  pub decode_msp_principal : MspPrincipal Bytes → PrincipalView
  decode_msp_principal p = elim p.principal_classification [
    | role ↦
        let r = decoders.role p.principal in
        role_view r.msp_identifier (get_elem? msp_role_names r.role)
    | organization_unit ↦ unit_view (decoders.organization_unit p.principal)
    | identity ↦ identity_view (decode_identity p.principal)
  ]

mutual
  -- The object that `decodeSignaturePolicy` returns.
  pub data PolicyView : Type 0 where
    untyped_view : PolicyView
    signed_by_view : ℕ → PolicyView
    n_out_of_view : ℕ → RuleViews → PolicyView

  pub data RuleViews : Type 0 where
    empty : RuleViews
    push : PolicyView → RuleViews → RuleViews

-- `decodeSignaturePolicy`, with its loop over the rules.
unfoldable mutual
  pub decode_signature_policy : SignaturePolicy → PolicyView
  decode_signature_policy untyped = untyped_view
  decode_signature_policy (signed_by k) = signed_by_view k
  decode_signature_policy (n_out_of n rs) = n_out_of_view n (decode_rules rs)

  pub decode_rules : Rules → RuleViews
  decode_rules nil = empty
  decode_rules (cons p ps) = push (decode_signature_policy p) (decode_rules ps)

pub record EnvelopeView : Type 0 where
  pub version : ℕ
  pub rule : PolicyView
  pub identities : List PrincipalView

module _ {Bytes : Type 0} (decoders : Decoders Bytes) where
  -- `decodeSignaturePolicyEnvelope`, behind the decoding of the bytes: the version that the message
  -- has, and the rest of it.
  pub decode_signature_policy_envelope : ℕ → Envelope Bytes → EnvelopeView
  unfolding decode_msp_principal decode_signature_policy
  decode_signature_policy_envelope version e = record {
    version = version;
    rule = decode_signature_policy e.rule;
    identities = map (decode_msp_principal decoders) e.identities;
  }
