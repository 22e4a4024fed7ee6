-- ===== src/Policy/Gate/Print.antt =====
-- A gate policy written out, and how the parser's scanners read it.
use fabric_common.Base.{
  some_inj, ℕ, ◌≡◌, refl, sym, ap, ◌∙◌, inl, inr, Bool, true, false, none, some, List, [], ◌∷◌,
  ◌++◌, Text, codes, strip_last, Bool-cases, arith, All, all, all-append, all_mono, is_alnum,
  is_empty, ◌&&◌, ◌||◌, not, ◌==◌,
}
use fabric_common.Policy.Proto.{Role, admin, member, client, peer, orderer}
use fabric_common.Policy.Gate.{
  Gate, and, or, is_gate_char, is_msp_char, gate_body, match_gate, match_role, split_comma,
  split_last_dot, parse_role, role_text, role_key,
}

pub record Clause : Type 0 where
  pub mspid : Text
  pub role : Role

-- A unit that both patterns take in an MSP id: a letter, a digit or a dot.
abbrev pub is_id_char : ℕ → Bool
is_id_char c = is_alnum c || c == b'.'

abbrev pub IsClause : Clause → Type 0
IsClause c = (is_empty c.mspid ≡ false) × (all is_id_char c.mspid ≡ true)

-- `'<mspid>.<role>'`
abbrev pub print_clause : Clause → Text
print_clause c = b'\'' ∷ role_key c.mspid c.role ++ b'\'' ∷ []

-- `items.join(',')`
abbrev pub join : List Text → Text
join [] = []
join (item ∷ items) = elim items [ [] ↦ item | _ ∷ _ ↦ item ++ b',' ∷ join items ]

-- `AND(<items>)` or `OR(<items>)`
abbrev pub print_gate : Gate → List Text → Text
print_gate and items = codes "AND(" ++ (join items ++ b')' ∷ [])
print_gate or items = codes "OR(" ++ (join items ++ b')' ∷ [])

-- An item that a gate may hold: it has no comma, and the gate's pattern takes it.
abbrev pub is_item_char : ℕ → Bool
is_item_char c = is_gate_char c && not (c == b',')

abbrev pub IsItem : Text → Type 0
IsItem s = all is_item_char s ≡ true

pub strip_last-append : (c : ℕ) (s : Text) → strip_last c (s ++ c ∷ []) ≡ some s
unfolding strip_last
strip_last-append c [] = ground arith
strip_last-append c (x ∷ []) = ground arith
strip_last-append c (x ∷ y ∷ s) = rw (strip_last-append c (y ∷ s))

split_last_dot-append :
    (m t : Text) → split_last_dot t ≡ none → split_last_dot (m ++ b'.' ∷ t) ≡ some (m, t)
unfolding split_last_dot
split_last_dot-append [] t h = rw h
split_last_dot-append (x ∷ m) t h = rw (split_last_dot-append m t h)

role_text_dotless : (r : Role) → split_last_dot (role_text r) ≡ none
unfolding split_last_dot
role_text_dotless admin = refl
role_text_dotless member = refl
role_text_dotless client = refl
role_text_dotless peer = refl
role_text_dotless orderer = refl

parse_role-role_text : (r : Role) → parse_role (role_text r) ≡ some r
parse_role-role_text admin = refl
parse_role-role_text member = refl
parse_role-role_text client = refl
parse_role-role_text peer = refl
parse_role-role_text orderer = refl

-- The key of an identity tells its MSP and its role.
pub role_key-injective :
    (m m' : Text) (r r' : Role) → role_key m r ≡ role_key m' r' → (m ≡ m') × (r ≡ r')
role_key-injective m m' r r' e =
    let same = some_inj (
      sym (split_last_dot-append m (role_text r) (role_text_dotless r))
      ∙ (ap split_last_dot e ∙ split_last_dot-append m' (role_text r') (role_text_dotless r'))) in
    (
      ap (λ (t : Text × Text). t.0) same,
      some_inj (
          sym (parse_role-role_text r)
          ∙ (ap (λ (t : Text × Text). parse_role t.1) same ∙ parse_role-role_text r')),
    )

all_msp : (s : Text) → all is_id_char s ≡ true → all is_msp_char s ≡ true
all_msp [] h = refl
all_msp (c ∷ s) h = ground (arith, all_msp s)

-- The role pattern reads back what a clause is written as.
pub match_role-print_clause :
    (c : Clause) → IsClause c → match_role (print_clause c) ≡ some (c.mspid, c.role)
unfolding match_role
match_role-print_clause c (filled, chars) =
    rw (strip_last-append b'\'' (role_key c.mspid c.role), match_role)
      (rw (split_last_dot-append c.mspid (role_text c.role) (role_text_dotless c.role), match_role)
        (rw (filled, all_msp c.mspid chars, parse_role-role_text c.role) refl))

pub match_gate-print_clause : (c : Clause) → match_gate (print_clause c) ≡ none
unfolding match_gate
match_gate-print_clause c = refl

role_text-IsItem : (r : Role) → IsItem (role_text r)
role_text-IsItem admin = refl
role_text-IsItem member = refl
role_text-IsItem client = refl
role_text-IsItem peer = refl
role_text-IsItem orderer = refl

id-IsItem : (s : Text) → all is_id_char s ≡ true → IsItem s
id-IsItem [] h = refl
id-IsItem (c ∷ s) h = ground (arith, id-IsItem s)

pub print_clause-IsItem : (c : Clause) → IsClause c → IsItem (print_clause c)
print_clause-IsItem c (filled, chars) =
    all-append is_item_char (role_key c.mspid c.role) (b'\'' ∷ [])
      (all-append is_item_char c.mspid (b'.' ∷ role_text c.role) (id-IsItem c.mspid chars)
        (role_text-IsItem c.role))
      refl

split_comma-item : (s : Text) → IsItem s → split_comma s ≡ s ∷ []
unfolding split_comma
split_comma-item [] h = refl
split_comma-item (c ∷ s) h = rw (split_comma-item s (ground arith), split_comma) (ground arith)

split_comma-ne : (t : Text) → (p : Text) × (ps : List Text) × (split_comma t ≡ p ∷ ps)
unfolding split_comma
split_comma-ne [] = ([], [], refl)
split_comma-ne (c ∷ t) =
    let (p, ps, e) = split_comma-ne t in
    elim (Bool-cases (c == b',')) [
      | inl comma ↦ ([], p ∷ ps, rw (e, split_comma) (rw comma))
      | inr other ↦ (c ∷ p, ps, rw (e, split_comma) (rw other))
    ]

split_comma-append : (s t : Text) → IsItem s → split_comma (s ++ b',' ∷ t) ≡ s ∷ split_comma t
unfolding split_comma
split_comma-append [] t h = let (p, ps, e) = split_comma-ne t in rw (e, split_comma) refl
split_comma-append (c ∷ s) t h =
    rw (split_comma-append s t (ground arith), split_comma) (ground arith)

-- Splitting at the commas gives back the items.
pub split_comma-join :
    (item : Text) (items : List Text)
    → All IsItem (item ∷ items)
    → split_comma (join (item ∷ items)) ≡ item ∷ items
split_comma-join item [] h = split_comma-item item h.0
split_comma-join item (next ∷ items) h =
    split_comma-append item (join (next ∷ items)) h.0
    ∙ ap (λ t. item ∷ t) (split_comma-join next items h.1)

&&-left : (a b : Bool) → (a && b) ≡ true → a ≡ true
&&-left true b h = refl
&&-left false b h = h

item_gate_chars : (s : Text) → IsItem s → all is_gate_char s ≡ true
item_gate_chars s =
    all_mono is_item_char is_gate_char (λ c. &&-left (is_gate_char c) (not (c == b','))) s

join_gate_chars : (items : List Text) → All IsItem items → all is_gate_char (join items) ≡ true
join_gate_chars [] h = refl
join_gate_chars (item ∷ []) h = item_gate_chars item h.0
join_gate_chars (item ∷ next ∷ items) h =
    all-append is_gate_char item (b',' ∷ join (next ∷ items)) (item_gate_chars item h.0)
      (join_gate_chars (next ∷ items) h.1)

-- The gate pattern reads back the gate and its body, unless the body is empty.
pub match_gate-print_gate :
    (g : Gate) (items : List Text)
    → All IsItem items
    → is_empty (join items) ≡ false
    → match_gate (print_gate g items) ≡ some (g, join items)
unfolding match_gate
match_gate-print_gate and items h filled =
    rw (strip_last-append b')' (join items), gate_body) (rw (filled, join_gate_chars items h) refl)
match_gate-print_gate or items h filled =
    rw (strip_last-append b')' (join items), gate_body) (rw (filled, join_gate_chars items h) refl)
