-- ===== src/Policy/Proto.antt =====
-- The policy messages that nodejs/formatter/gatePolicy.js fills in. The list of rules is a type of
-- its own, since a policy holds a list of policies.
use fabric_common.Base.{ℕ, ◌≡◌, refl, ap, Option, none, some, List, [], ◌∷◌, Text}

-- The MSP roles that the role clause names.
pub data Role : Type 0 where
  admin member client peer orderer : Role

-- `MSPRoleTypeInverse[role.toUpperCase()]`
abbrev pub role_type : Role → ℕ
role_type member = 0
role_type admin = 1
role_type client = 2
role_type peer = 3
role_type orderer = 4

-- `commonProtos.MSPRole`
pub record MspRole : Type 0 where
  pub role : ℕ
  pub msp_identifier : Text

-- `commonProtos.MSPPrincipal.Classification`
pub data Classification : Type 0 where
  role organization_unit identity : Classification

-- `commonProtos.MSPPrincipal`; `Bytes` are the encoded bytes of its principal.
pub record MspPrincipal (Bytes : Type 0) : Type 0 where
  pub principal_classification : Classification
  pub principal : Bytes

mutual
  -- `commonProtos.SignaturePolicy`, by its `Type`.
  pub data SignaturePolicy : Type 0 where
    untyped : SignaturePolicy
    signed_by : ℕ → SignaturePolicy
    n_out_of : ℕ → Rules → SignaturePolicy

  -- The `rules` of `commonProtos.SignaturePolicy.NOutOf`.
  pub data Rules : Type 0 where
    nil : Rules
    cons : SignaturePolicy → Rules → Rules

abbrev pub rules : List SignaturePolicy → Rules
rules [] = nil
rules (p ∷ ps) = cons p (rules ps)

abbrev pub list : Rules → List SignaturePolicy
list nil = []
list (cons p ps) = p ∷ list ps

pub list-rules : (ps : List SignaturePolicy) → list (rules ps) ≡ ps
list-rules [] = refl
list-rules (p ∷ ps) = ap (λ t. p ∷ t) (list-rules ps)

pub record NOutOf : Type 0 where
  pub n : ℕ
  pub rules : List SignaturePolicy

-- `commonProtos.SignaturePolicyEnvelope`
pub record Envelope (Bytes : Type 0) : Type 0 where
  pub rule : SignaturePolicy
  pub identities : List (MspPrincipal Bytes)

-- `GatePolicy.buildNOutOf`
abbrev pub build_n_out_of : ℕ → List SignaturePolicy → NOutOf
build_n_out_of n rs = record { n = n; rules = rs }

-- `GatePolicy.buildSignaturePolicy`: the threshold comes first, then the signer; index 0 counts.
abbrev pub build_signature_policy : Option NOutOf → Option ℕ → SignaturePolicy
build_signature_policy (some t) _ = n_out_of t.n (rules t.rules)
build_signature_policy none (some k) = signed_by k
build_signature_policy none none = untyped

-- `GatePolicy.buildMSPPrincipal`; `encode` is the protobuf encoder of `MSPRole`.
module _ {Bytes : Type 0} (encode : MspRole → Bytes) where
  abbrev pub build_msp_principal : ℕ → Text → MspPrincipal Bytes
  build_msp_principal kind mspid = record {
    principal_classification = Classification.role;
    principal = encode (record { role = kind; msp_identifier = mspid });
  }
