-- ===== src/Policy/Spec.antt =====
-- `Policy` of nodejs/formatter/policy.js: a policy from its JSON form, in which an object names
-- either a signer or a threshold such as "2-of" over an array. `none` is a thrown TypeError.
pub mod Roundtrip
use fabric_common.Base.{
  ℕ, ◌≡◌, Bool, Option, none, some, List, [], ◌∷◌, ◌&&◌, not, Text, codes, text_eq, is_empty,
  if◌then◌else◌, map,
}
use fabric_common.Base.Decimal.{is_digit, parse_int}
use fabric_common.Policy.Proto.{
  MspRole, MspPrincipal, SignaturePolicy, signed_by, n_out_of, Rules, nil, cons, Envelope,
  build_msp_principal,
}

mutual
  -- A policy object: its `signedBy`, and its other keys in the order of `Object.keys`.
  pub data Element : Type 0 where
    element : Option ℕ → Entries → Element

  pub data Entries : Type 0 where
    end : Entries
    entry : Text → Elements → Entries → Entries

  pub data Elements : Type 0 where
    empty : Elements
    item : Element → Elements → Elements

-- The digits at the front of a text, and the rest.
pub span_digits : Text → Text × Text
span_digits [] = ([], [])
span_digits (c ∷ s) =
    let (ds, rest) = span_digits s in if is_digit c then (c ∷ ds, rest) else ([], c ∷ s)

-- `/^(\d+)-of$/`: group 1.
pub match_n_of : Text → Option Text
unfolding span_digits
match_n_of key =
    let (ds, rest) = span_digits key in
    if not (is_empty ds) && text_eq rest (codes "-of") then some ds else none

infixl 5 ◌>>=◌
abbrev pub ◌>>=◌ : {A B : Type 0} → Option A → (A → Option B) → Option B
none >>= f = none
some a >>= f = f a

-- `Policy.parsePolicy`
unfoldable mutual
  unfolding match_n_of

  pub parse_policy : Element → Option SignaturePolicy
  parse_policy (element (some k) es) = some (signed_by k)
  parse_policy (element none es) = parse_entries es

  -- The first key is the threshold.
  pub parse_entries : Entries → Option SignaturePolicy
  parse_entries end = none
  parse_entries (entry key subs more) =
      match_n_of key >>= λ n. parse_policies subs >>= λ rs. some (n_out_of (parse_int n) rs)

  pub parse_policies : Elements → Option Rules
  parse_policies empty = some nil
  parse_policies (item sub subs) =
      parse_policy sub >>= λ p. parse_policies subs >>= λ ps. some (cons p ps)

-- `Policy.buildPrincipal`, at the `role` of an identity.
pub record RoleIdentity : Type 0 where
  pub type : ℕ
  pub mspid : Text

pub record PolicySpec : Type 0 where
  pub identities : List RoleIdentity
  pub policy : Element

module _ {Bytes : Type 0} (encode : MspRole → Bytes) where
  abbrev pub build_principal : RoleIdentity → MspPrincipal Bytes
  build_principal i = build_msp_principal encode i.type i.mspid

  -- `Policy.buildSignaturePolicyEnvelope`; its version is always 0.
  pub build_signature_policy_envelope : PolicySpec → Option (Envelope Bytes)
  build_signature_policy_envelope p = parse_policy p.policy >>= λ rule.
      some (record { rule = rule; identities = map build_principal p.identities })
