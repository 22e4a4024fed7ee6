-- ===== src/Policy/Tests.antt =====
-- The theorems on the JSON form, the views and the collections at concrete policies.
use fabric_common.Base.{◌≡◌, refl, true, false, none, some, List, [], ◌∷◌, codes, get_elem?}
use fabric_common.Policy.Proto.{
  member, admin, MspRole, SignaturePolicy, signed_by, n_out_of, nil, cons, rules,
  build_msp_principal,
}
use fabric_common.Policy.Gate.Print.{Clause}
use fabric_common.Policy.Spec.{parse_policy}
use fabric_common.Policy.Spec.Roundtrip.{spec_of, parse_policy-spec_of}
use fabric_common.Policy.Decode.{Decoders, role_view, decode_signature_policy_envelope}
use fabric_common.Policy.Decode.Laws.{shown, role_name, decode_envelope-build}
use fabric_common.Policy.Collection.{CollectionSpec, StandardItem, build_collection_config}
use fabric_common.Policy.Collection.Laws.{member_policy-any}

abbrev keep_role : MspRole → MspRole
keep_role r = r

abbrev two_of : SignaturePolicy
two_of = n_out_of 2 (cons (signed_by 0) (cons (n_out_of 1 (cons (signed_by 1) nil)) nil))

parse_policy-spec_of_example : parse_policy (spec_of two_of) ≡ some two_of
parse_policy-spec_of_example = parse_policy-spec_of two_of (tt, ((tt, tt), tt))

abbrev decoders : Decoders MspRole
decoders = record {
  role = keep_role;
  organization_unit = λ r. record {
    msp_identifier = r.msp_identifier;
    organizational_unit_identifier = [];
    certifiers_identifier = [];
  };
  identity = λ r. record { mspid = r.msp_identifier; id_bytes = [] };
}

decode_envelope-build_example :
    let v =
      decode_signature_policy_envelope decoders 3
        (record { rule = two_of; identities = build_msp_principal keep_role 1 (codes "A") ∷ [] }) in
    (v.version ≡ 3)
    × (shown v.rule ≡ two_of)
    × (v.identities ≡ role_view (codes "A") (some (role_name admin)) ∷ [])
decode_envelope-build_example =
    decode_envelope-build keep_role decoders (λ r. refl) 3 two_of admin (codes "A")

abbrev marbles : CollectionSpec MspRole
marbles = record {
  name = codes "collectionMarbles";
  required_peer_count = 2;
  maximum_peer_count = some 0;
  endorsement_policy = none;
  block_to_live = some 3;
  member_only_read = some false;
  member_only_write = none;
  member_orgs = codes "Org1MSP" ∷ codes "Org2MSP" ∷ [];
}

member_policy-any_example :
    let e = (build_collection_config keep_role keep_role marbles).member_orgs_policy in
    (rs : List SignaturePolicy) × (e.rule ≡ n_out_of 1 (rules rs))
    × (get_elem? rs 1 ≡ some (signed_by 1))
    × (get_elem? e.identities 1 ≡ some (build_msp_principal keep_role 0 (codes "Org2MSP")))
member_policy-any_example = member_policy-any keep_role keep_role marbles 1 (codes "Org2MSP") refl

abbrev org1 : Clause
org1 = record { mspid = codes "Org1MSP"; role = member }

abbrev org2 : Clause
org2 = record { mspid = codes "Org2MSP"; role = member }

-- The first entry of the example in the source.
abbrev standard : StandardItem
standard = record {
  name = codes "collectionMarbles";
  policy = codes "OR('Org1MSP.member', 'Org2MSP.member')";
  required_peer_count = 0;
  max_peer_count = some 3;
  block_to_live = some 1000000;
  member_only_read = some true;
  member_only_write = none;
}
