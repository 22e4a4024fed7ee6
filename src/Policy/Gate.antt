-- ===== src/Policy/Gate.antt =====
-- `GatePolicy.FromString` of nodejs/formatter/gatePolicy.js. The two regular expressions are
-- anchored at both ends and have one way to match, which `match_gate` and `match_role` compute.
-- The recursion takes fuel; the text's length is enough (Gate/Fuel).
pub mod Fuel
pub mod Bounds
pub mod Flat
pub mod Print
mod Tests
use mathlib.Core.Option
use fabric_common.Base.{
  ℕ, zero, suc, ◌≡◌, Bool, ◌&&◌, ◌||◌, not, Option, none, some, List, [], ◌∷◌, ◌++◌, Text, codes,
  text_eq, ◌==◌, if◌then◌else◌, is_alnum, is_word, is_space, strip_prefix, strip_last, all, length,
  is_empty,
}
use fabric_common.Base.Result.{Result, ok, err, ◌>>=◌}
use fabric_common.Policy.Proto.{
  Role, admin, member, client, peer, orderer, role_type, MspRole, MspPrincipal, SignaturePolicy,
  Envelope, build_n_out_of, build_signature_policy, build_msp_principal,
}

pub data Gate : Type 0 where
  and or : Gate

-- `type_error` is the access to a failed match's `[1]`.
pub data Failure : Type 0 where
  type_error out_of_fuel : Failure

-- `[\w,.\s()']`
abbrev pub is_gate_char : ℕ → Bool
is_gate_char c =
    is_word c || c == b',' || c == b'.' || is_space c || c == b'(' || c == b')' || c == b'\''

-- `[0-9A-Za-z.-]`
abbrev pub is_msp_char : ℕ → Bool
is_msp_char c = is_alnum c || c == b'.' || c == b'-'

-- `([\w,.\s()']+)\)$`, behind the gate's name.
pub gate_body : Text → Option Text
unfolding strip_last
gate_body s = elim (strip_last b')' s) [
  | none ↦ none
  | some inner ↦ if not (is_empty inner) && all is_gate_char inner then some inner else none
]

-- `GateClausePattern`: the groups 1 and 2.
pub match_gate : Text → Option (Gate × Text)
unfolding gate_body
match_gate s = elim (strip_prefix (codes "AND(") s) [
  | some rest ↦ Option.map (λ t. (and, t)) (gate_body rest)
  | none ↦ elim (strip_prefix (codes "OR(") s) [
    | some rest ↦ Option.map (λ t. (or, t)) (gate_body rest)
    | none ↦ none
  ]
]

abbrev pub role_text : Role → Text
role_text admin = codes "admin"
role_text member = codes "member"
role_text client = codes "client"
role_text peer = codes "peer"
role_text orderer = codes "orderer"

-- `(admin|member|client|peer|orderer)`
abbrev pub parse_role : Text → Option Role
parse_role s =
    if text_eq s (codes "admin")
    then some admin
    else if text_eq s (codes "member")
    then some member
    else if text_eq s (codes "client")
    then some client
    else if text_eq s (codes "peer")
    then some peer
    else if text_eq s (codes "orderer")
    then some orderer
    else none

-- What stands before and behind the last dot: no role has a dot, so group 2 is the last one.
pub split_last_dot : Text → Option (Text × Text)
split_last_dot [] = none
split_last_dot (c ∷ s) = elim (split_last_dot s) [
  | some (a, b) ↦ some (c ∷ a, b)
  | none ↦ if c == b'.' then some ([], s) else none
]

-- `RoleClausePattern`: the groups 1 and 3.
pub match_role : Text → Option (Text × Role)
unfolding strip_last split_last_dot
match_role s = elim (strip_prefix (codes "'") s) [
  | none ↦ none
  | some rest ↦ elim (strip_last b'\'' rest) [
    | none ↦ none
    | some inner ↦ elim (split_last_dot inner) [
      | none ↦ none
      | some (mspid, tail) ↦
          if not (is_empty mspid) && all is_msp_char mspid
          then Option.map (λ r. (mspid, r)) (parse_role tail)
          else none
    ]
  ]
]

-- `subClause.split(',')`
pub split_comma : Text → List Text
split_comma [] = [] ∷ []
split_comma (c ∷ s) = elim (split_comma s) [
  | [] ↦ (c ∷ []) ∷ []
  | piece ∷ more ↦ if c == b',' then [] ∷ piece ∷ more else (c ∷ piece) ∷ more
]

-- `identitiesIndexMap`: a plain object from keys to indices.
abbrev pub IndexMap : Type 0
IndexMap = List (Text × ℕ)

pub index_of : Text → IndexMap → Option ℕ
index_of key [] = none
index_of key ((k, i) ∷ m) = if text_eq k key then some i else index_of key m

-- `${mspid}.${role}`
abbrev pub role_key : Text → Role → Text
role_key mspid r = mspid ++ b'.' ∷ role_text r

-- The two variables that `parseRoleClause` writes.
pub record Builder (Bytes : Type 0) : Type 0 where
  pub index_map : IndexMap
  pub identities : List (MspPrincipal Bytes)

abbrev pub Parsed : Type 0 → Type 0
Parsed Bytes = List SignaturePolicy × Builder Bytes

abbrev pub Recur : Type 0 → Type 0
Recur Bytes = Gate → Text → Builder Bytes → Result Failure (SignaturePolicy × Builder Bytes)

abbrev pub empty_builder : {Bytes : Type 0} → Builder Bytes
empty_builder = record { index_map = []; identities = [] }

-- The threshold of a gate.
abbrev pub close_gate : Gate → List SignaturePolicy → SignaturePolicy
close_gate or rs = build_signature_policy (some (build_n_out_of 1 rs)) none
close_gate and rs = build_signature_policy (some (build_n_out_of (length rs) rs)) none

module _ {Bytes : Type 0} (encode : MspRole → Bytes) where
  -- `parseRoleClause`
  pub parse_role_clause : Text → Role → Builder Bytes → SignaturePolicy × Builder Bytes
  parse_role_clause mspid r st = elim (index_of (role_key mspid r) st.index_map) [
    | some i ↦ (build_signature_policy none (some i), st)
    | none ↦ (
      build_signature_policy none (some (length st.identities)),
      record {
        index_map = (role_key mspid r, length st.identities) ∷ st.index_map;
        identities = st.identities ++ build_msp_principal encode (role_type r) mspid ∷ [];
      },
    )
  ]

  -- The match of a nested gate, which is pushed before the role clause is tried.
  pub parse_nested : Recur Bytes → Text → Parsed Bytes → Result Failure (Parsed Bytes)
  parse_nested recur item (rs, st) = elim (match_gate item) [
    | none ↦ ok (rs, st)
    | some (g, sub) ↦ recur g sub st >>= λ done. ok (rs ++ done.0 ∷ [], done.1)
  ]

  pub parse_role_item : Text → Parsed Bytes → Parsed Bytes
  parse_role_item item (rs, st) = elim (match_role item) [
    | none ↦ (rs, st)
    | some (mspid, r) ↦ let (p, st') = parse_role_clause mspid r st in (rs ++ p ∷ [], st')
  ]

  -- One round of the loop. The trimmed item is only tested for emptiness.
  pub parse_item : Recur Bytes → Text → Parsed Bytes → Result Failure (Parsed Bytes)
  unfolding parse_nested parse_role_item
  parse_item recur item acc =
      if all is_space item
      then ok acc
      else parse_nested recur item acc >>= λ next. ok (parse_role_item item next)

  pub parse_items : Recur Bytes → List Text → Parsed Bytes → Result Failure (Parsed Bytes)
  unfolding parse_item
  parse_items recur [] acc = ok acc
  parse_items recur (item ∷ items) acc =
      parse_item recur item acc >>= λ next. parse_items recur items next

  -- `parseGateClause` at a gate and its body.
  pub parse_gate : ℕ → Recur Bytes
  unfolding parse_items
  parse_gate zero g sub st = err out_of_fuel
  parse_gate (suc fuel) g sub st =
      parse_items (parse_gate fuel) (split_comma sub) ([], st) >>= λ done.
      ok (close_gate g done.0, done.1)

  -- `GatePolicy.FromString`
  pub from_string : Text → Result Failure (Envelope Bytes)
  unfolding parse_gate
  from_string s = elim (match_gate s) [
    | none ↦ err type_error
    | some (g, sub) ↦ parse_gate (suc (length s)) g sub empty_builder >>= λ done.
        ok (record { rule = done.0; identities = done.1.identities })
  ]
