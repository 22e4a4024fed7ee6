-- ===== src/Policy/Spec/Roundtrip.antt =====
-- Reading back a policy that is written in the JSON form of nodejs/formatter/policy.js, and the
-- thresholds that it refuses.
use fabric_common.Base.{ℕ, ◌≡◌, refl, true, none, some, [], ◌∷◌, ◌++◌, Text, codes, all, arith}
use fabric_common.Base.Decimal.{
  is_digit, print_int, parse_int-print_int, print_int-digits, print_int-filled,
}
use fabric_common.Policy.Proto.{SignaturePolicy, untyped, signed_by, n_out_of, Rules, nil, cons}
use fabric_common.Policy.Spec.{
  Element, element, end, entry, Elements, empty, item, span_digits, match_n_of, parse_policy,
  parse_policies,
}

-- The key of a threshold.
abbrev pub threshold_key : ℕ → Text
threshold_key n = print_int n ++ codes "-of"

-- The JSON form of a policy. A policy of no type has none; it stands for an object with no key.
abbrev mutual
  pub spec_of : SignaturePolicy → Element
  spec_of untyped = element none end
  spec_of (signed_by k) = element (some k) end
  spec_of (n_out_of n rs) = element none (entry (threshold_key n) (specs_of rs) end)

  pub specs_of : Rules → Elements
  specs_of nil = empty
  specs_of (cons p ps) = item (spec_of p) (specs_of ps)

-- Every part of the policy has a type.
abbrev mutual
  pub IsTyped : SignaturePolicy → Type 0
  IsTyped untyped = ⊥
  IsTyped (signed_by k) = Unit
  IsTyped (n_out_of n rs) = AllTyped rs

  pub AllTyped : Rules → Type 0
  AllTyped nil = Unit
  AllTyped (cons p ps) = IsTyped p × AllTyped ps

span_digits-append :
    (ds rest : Text)
    → all is_digit ds ≡ true
    → span_digits rest ≡ ([], rest)
    → span_digits (ds ++ rest) ≡ (ds, rest)
unfolding span_digits
span_digits-append [] rest h k = k
span_digits-append (d ∷ ds) rest h k =
    rw (span_digits-append ds rest (ground arith) k) (ground arith)

match_n_of-threshold_key : (n : ℕ) → match_n_of (threshold_key n) ≡ some (print_int n)
unfolding match_n_of
match_n_of-threshold_key n =
    rw
      (span_digits-append (print_int n) (codes "-of") (print_int-digits n)
        (unfold span_digits in refl))
      (rw (print_int-filled n) refl)

mutual
  unfolding parse_policy

  parse_spec_of : (p : SignaturePolicy) → IsTyped p → parse_policy (spec_of p) ≡ some p
  parse_spec_of untyped h = absurd h
  parse_spec_of (signed_by k) h = refl
  parse_spec_of (n_out_of n rs) h =
      rw (match_n_of-threshold_key n) (rw (parse_specs_of rs h) (rw (parse_int-print_int n) refl))

  parse_specs_of : (rs : Rules) → AllTyped rs → parse_policies (specs_of rs) ≡ some rs
  parse_specs_of nil h = refl
  parse_specs_of (cons p ps) h = rw (parse_spec_of p h.0) (rw (parse_specs_of ps h.1) refl)

-- Every policy whose parts all have a type is read back from its JSON form.
pub parse_policy-spec_of : (p : SignaturePolicy) → IsTyped p → parse_policy (spec_of p) ≡ some p
parse_policy-spec_of p h = parse_spec_of p h
