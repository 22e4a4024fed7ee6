-- ===== src/Policy/Decode/Laws.antt =====
-- Decoding loses nothing of a policy's rule, and names the roles that the gate language writes.
use fabric_common.Base.{ℕ, ◌≡◌, refl, some, Text, codes, ap, [], ◌∷◌}
use fabric_common.Policy.Proto.{
  Role, admin, member, client, peer, orderer, role_type, MspRole, SignaturePolicy, untyped,
  signed_by, n_out_of, Rules, nil, cons, build_msp_principal,
}
use fabric_common.Policy.Decode.{
  Decoders, role_view, decode_msp_principal, PolicyView, untyped_view, signed_by_view,
  n_out_of_view, RuleViews, empty, push, decode_signature_policy, decode_rules,
  decode_signature_policy_envelope,
}

-- The policy that a view shows.
abbrev mutual
  pub shown : PolicyView → SignaturePolicy
  shown untyped_view = untyped
  shown (signed_by_view k) = signed_by k
  shown (n_out_of_view n rs) = n_out_of n (shown_rules rs)

  pub shown_rules : RuleViews → Rules
  shown_rules empty = nil
  shown_rules (push p ps) = cons (shown p) (shown_rules ps)

mutual
  unfolding decode_signature_policy

  shown_policy : (p : SignaturePolicy) → shown (decode_signature_policy p) ≡ p
  shown_policy untyped = refl
  shown_policy (signed_by k) = refl
  shown_policy (n_out_of n rs) = ap (n_out_of n) (shown_all rs)

  shown_all : (rs : Rules) → shown_rules (decode_rules rs) ≡ rs
  shown_all nil = refl
  shown_all (cons p ps) = cc (shown_policy p, shown_all ps)

-- The upper-case name of a role.
abbrev pub role_name : Role → Text
role_name member = codes "MEMBER"
role_name admin = codes "ADMIN"
role_name client = codes "CLIENT"
role_name peer = codes "PEER"
role_name orderer = codes "ORDERER"

role_name-some :
    (r : Role) (m : Text) {Bytes : Type 0} (encode : MspRole → Bytes) (decoders : Decoders Bytes)
    → decoders.role (encode (record { role = role_type r; msp_identifier = m }))
      ≡ record { role = role_type r; msp_identifier = m }
    → decode_msp_principal decoders (build_msp_principal encode (role_type r) m)
      ≡ role_view m (some (role_name r))
unfolding decode_msp_principal
role_name-some member m encode decoders h = rw h
role_name-some admin m encode decoders h = rw h
role_name-some client m encode decoders h = rw h
role_name-some peer m encode decoders h = rw h
role_name-some orderer m encode decoders h = rw h

-- Where the decoder of roles undoes the encoder, the view of an envelope whose one identity was
-- built for a role shows that MSP id and that role's name, and its version and its rule show the
-- version and the rule unchanged.
pub decode_envelope-build :
    {Bytes : Type 0} (encode : MspRole → Bytes) (decoders : Decoders Bytes)
    → ((r : MspRole) → decoders.role (encode r) ≡ r)
    → (version : ℕ) (p : SignaturePolicy) (r : Role) (m : Text)
    → let v =
        decode_signature_policy_envelope decoders version
          (record { rule = p; identities = build_msp_principal encode (role_type r) m ∷ [] }) in
      (v.version ≡ version)
      × (shown v.rule ≡ p)
      × (v.identities ≡ role_view m (some (role_name r)) ∷ [])
unfolding decode_signature_policy_envelope
decode_envelope-build encode decoders h version p r m =
    (refl, shown_policy p, ap (λ v. v ∷ []) (role_name-some r m encode decoders (h _)))
