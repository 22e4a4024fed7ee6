-- ===== src/Policy/Gate/Tests.antt =====
-- Runs of the gate parser of nodejs/formatter/gatePolicy.js, and its theorems at concrete policies.
use fabric_common.Base.{ℕ, ◌≡◌, refl, ◌⊎◌, ◌≢◌, none, List, [], ◌∷◌, codes, length}
use fabric_common.Base.Result.{ok, err}
use fabric_common.Policy.Proto.{
  member, admin, MspRole, SignaturePolicy, signed_by, n_out_of, nil, cons, rules, Envelope,
  build_msp_principal,
}
use fabric_common.Policy.Gate.{
  and, type_error, parse_role_clause, from_string, match_gate, match_role, split_comma, index_of,
  split_last_dot,
}
use fabric_common.Policy.Gate.Print.{Clause}
use fabric_common.Policy.Gate.Fuel.{from_string_total}
use fabric_common.Policy.Gate.Bounds.{InBounds, from_string-InBounds, from_string-distinct}
use fabric_common.Policy.Gate.Flat.{StandFor, asked, from_string-print_gate, from_string-spaced}

-- The encoder that keeps the message.
abbrev encode : MspRole → MspRole
encode r = r

abbrev a_member : Clause
a_member = record { mspid = codes "A"; role = member }

abbrev b_admin : Clause
b_admin = record { mspid = codes "B.org"; role = admin }

abbrev parsed : Envelope MspRole
parsed = record {
  rule = n_out_of 1 (cons (signed_by 0) (cons (signed_by 1) (cons (signed_by 0) nil)));
  identities =
      build_msp_principal encode 0 (codes "A") ∷ build_msp_principal encode 1 (codes "B") ∷ [];
}

or_of_two : from_string encode (codes "OR('A.member','B.admin','A.member')") ≡ ok parsed
unfolding from_string match_gate match_role split_comma index_of split_last_dot parse_role_clause
or_of_two = refl

-- A nested gate with a comma in it is cut at the comma, and lost.
nested_gate_lost :
    from_string encode (codes "OR(AND('A.member','B.member'),'C.member')")
    ≡ ok (record {
      rule = n_out_of 1 (cons (signed_by 0) nil);
      identities = build_msp_principal encode 0 (codes "C") ∷ [];
    })
unfolding from_string match_gate match_role split_comma index_of split_last_dot parse_role_clause
nested_gate_lost = refl

nested_gate_of_one :
    from_string encode (codes "AND(OR('A.member'),'B.admin')")
    ≡ ok (record {
      rule = n_out_of 2 (cons (n_out_of 1 (cons (signed_by 0) nil)) (cons (signed_by 1) nil));
      identities =
          build_msp_principal encode 0 (codes "A") ∷ build_msp_principal encode 1 (codes "B") ∷ [];
    })
unfolding from_string match_gate match_role split_comma index_of split_last_dot parse_role_clause
nested_gate_of_one = refl

-- An MSP id with a hyphen fits the pattern of a role, and not that of a gate.
hyphen_refused : from_string encode (codes "OR('my-org.member')") ≡ err type_error
unfolding from_string match_gate
hyphen_refused = refl

from_string_total_example :
    ((match_gate (codes "OR()") ≡ none) × (from_string encode (codes "OR()") ≡ err type_error))
    ⊎ ((match_gate (codes "OR()") ≢ none)
        × ((e : Envelope MspRole) × (from_string encode (codes "OR()") ≡ ok e)))
from_string_total_example = from_string_total encode (codes "OR()")

from_string-InBounds_example : InBounds (length parsed.identities) parsed.rule
from_string-InBounds_example =
    from_string-InBounds encode (codes "OR('A.member','B.admin','A.member')") parsed or_of_two

from_string-distinct_example : ◌≡◌ {A = ℕ} 1 1
from_string-distinct_example =
    from_string-distinct encode (codes "OR('A.member','B.admin','A.member')") parsed 1 1
      (build_msp_principal encode 1 (codes "B")) (λ a b h. h) or_of_two refl refl

from_string-print_gate_example :
    (e : Envelope MspRole) × (rs : List SignaturePolicy) × (from_string encode
        (codes "AND('A.member','B.org.admin')")
      ≡ ok e)
    × (e.rule ≡ n_out_of (asked and (a_member ∷ b_admin ∷ [])) (rules rs))
    × StandFor encode e.identities (a_member ∷ b_admin ∷ []) rs
from_string-print_gate_example =
    from_string-print_gate encode and a_member (b_admin ∷ []) ((refl, refl), ((refl, refl), tt))

from_string-spaced_example :
    from_string encode (codes "AND('A.member', 'B.org.admin')")
    ≡ from_string encode (codes "AND('A.member')")
from_string-spaced_example =
    from_string-spaced encode and a_member (b_admin ∷ []) ((refl, refl), ((refl, refl), tt))
