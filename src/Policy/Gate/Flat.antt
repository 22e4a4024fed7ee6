-- ===== src/Policy/Gate/Flat.antt =====
-- What `GatePolicy.FromString` makes of a gate of role clauses, and of items behind a blank.
use mathlib.Core.List.{append_assoc, append-nil}
use fabric_common.Base.{
  ℕ, suc, ◌≡◌, refl, ap, sym, ◌∙◌, inl, inr, false, some, List, [], ◌∷◌, ◌++◌, map, Text, length,
  get_elem?, Bool-cases, Option-cases, All, all, is_space, is_empty, get_elem?-append_last,
}
use fabric_common.Base.Result.{ok}
use fabric_common.Policy.Proto.{
  MspRole, MspPrincipal, SignaturePolicy, signed_by, n_out_of, Envelope, nil, rules,
}
use fabric_common.Policy.Gate.{
  Gate, and, or, index_of, role_key, Builder, Parsed, Recur, parse_role_clause, parse_nested,
  parse_role_item, parse_item, parse_items, parse_gate, close_gate, empty_builder, from_string,
  match_gate, match_role,
}
use fabric_common.Policy.Gate.Print.{
  Clause, IsClause, print_clause, join, print_gate, IsItem, match_role-print_clause,
  match_gate-print_clause, print_clause-IsItem, split_comma-join, match_gate-print_gate,
}
use fabric_common.Policy.Gate.Bounds.{IsLinked, empty_builder-IsLinked, clause-Keeps, principal}

abbrev pub print_clauses : List Clause → List Text
print_clauses = map print_clause

-- A gate of role clauses with no blanks.
abbrev pub flat_text : Gate → Clause → List Clause → Text
flat_text g c cs = print_gate g (print_clauses (c ∷ cs))

-- The same text with a blank behind each comma.
abbrev pub spaced_text : Gate → Clause → List Clause → Text
spaced_text g c cs = print_gate g (print_clause c ∷ map (λ d. 32 ∷ print_clause d) cs)

-- How many of its clauses a gate asks for.
abbrev pub asked : Gate → List Clause → ℕ
asked or cs = 1
asked and cs = length cs

module _ {Bytes : Type 0} (encode : MspRole → Bytes) where
  -- The clauses one after another.
  add_clauses : List Clause → Parsed Bytes → Parsed Bytes
  add_clauses [] acc = acc
  add_clauses (c ∷ cs) (rs, st) =
      let (p, st') = parse_role_clause encode c.mspid c.role st in
      add_clauses cs (rs ++ p ∷ [], st')

  -- An item behind a blank is skipped, whatever follows the blank.
  blank_item :
      (recur : Recur Bytes) (t : Text) (acc : Parsed Bytes)
      → parse_item encode recur (32 ∷ t) acc ≡ ok acc
  unfolding parse_item parse_nested parse_role_item match_gate match_role
  blank_item recur t acc = elim (Bool-cases (all is_space t)) [
    | inl blank ↦ rw (blank, parse_item)
    | inr filled ↦ rw (filled, parse_item)
  ]

  clause_item :
      (recur : Recur Bytes) (c : Clause) (acc : Parsed Bytes)
      → IsClause c
      → parse_item encode recur (print_clause c) acc ≡ ok (add_clauses (c ∷ []) acc)
  unfolding parse_item parse_nested parse_role_item add_clauses
  clause_item recur c (rs, st) h =
      rw (match_gate-print_clause c, parse_nested)
        (rw (match_role-print_clause c h, parse_role_item))

  blank_items :
      (recur : Recur Bytes) (ts : List Text) (acc : Parsed Bytes)
      → parse_items encode recur (map (λ t. 32 ∷ t) ts) acc ≡ ok acc
  unfolding parse_items
  blank_items recur [] acc = refl
  blank_items recur (t ∷ ts) acc = rw (blank_item recur t acc) (blank_items recur ts acc)

  clause_items :
      (recur : Recur Bytes) (cs : List Clause) (acc : Parsed Bytes)
      → All IsClause cs
      → parse_items encode recur (print_clauses cs) acc ≡ ok (add_clauses cs acc)
  unfolding parse_items add_clauses
  clause_items recur [] acc h = refl
  clause_items recur (c ∷ cs) (rs, st) h =
      rw (clause_item recur c (rs, st) h.0) (clause_items recur cs _ h.1)

  abbrev close : Gate → Parsed Bytes → Envelope Bytes
  close g (rs, st) = record { rule = close_gate g rs; identities = st.identities }

  -- The parse of a gate is the parse of its items.
  print_gate_items :
      (g : Gate) (item : Text) (items : List Text) (out : Parsed Bytes)
      → All IsItem (item ∷ items)
      → is_empty (join (item ∷ items)) ≡ false
      → ((recur : Recur Bytes)
          → parse_items encode recur (item ∷ items) ([], empty_builder) ≡ ok out)
      → from_string encode (print_gate g (item ∷ items)) ≡ ok (close g out)
  unfolding from_string parse_gate
  print_gate_items g item items out h filled k =
      rw (match_gate-print_gate g (item ∷ items) h filled, from_string)
        (rw (split_comma-join item items h) (rw (k _) refl))

  -- The rules stand for the clauses, one by one and in order: each is signed by an index at which
  -- the list of identities holds the clause's principal.
  abbrev pub StandFor : List (MspPrincipal Bytes) → List Clause → List SignaturePolicy → Type 0
  StandFor ids [] [] = Unit
  StandFor ids (c ∷ cs) (p ∷ ps) =
      ((k : ℕ) × (p ≡ signed_by k) × (get_elem? ids k ≡ some (principal encode c.mspid c.role)))
      × StandFor ids cs ps
  StandFor ids _ _ = ⊥

  clause_points :
      (c : Clause) (st : Builder Bytes)
      → IsLinked encode st
      → let (p, st') = parse_role_clause encode c.mspid c.role st in
        (k : ℕ) × (p ≡ signed_by k)
        × (get_elem? st'.identities k ≡ some (principal encode c.mspid c.role))
  unfolding parse_role_clause
  clause_points c st l = elim (Option-cases (index_of (role_key c.mspid c.role) st.index_map)) [
    | inl fresh ↦
        rw (fresh, parse_role_clause)
          (length st.identities, refl, get_elem?-append_last st.identities _)
    | inr (i, found) ↦ rw (found, parse_role_clause) (i, refl, l.leads c.mspid c.role i found)
  ]

  -- What the clauses add to the rules, and that what is there already stays.
  record Adds (cs : List Clause) (acc out : Parsed Bytes) : Type 0 where
    added : List SignaturePolicy
    extended : out.0 ≡ acc.0 ++ added
    stand : StandFor out.1.identities cs added
    stable :
        (i : ℕ) (p : MspPrincipal Bytes)
        → get_elem? acc.1.identities i ≡ some p
        → get_elem? out.1.identities i ≡ some p

  add_clauses-Adds :
      (cs : List Clause) (rs : List SignaturePolicy) (st : Builder Bytes)
      → IsLinked encode st
      → Adds cs (rs, st) (add_clauses cs (rs, st))
  unfolding add_clauses
  add_clauses-Adds [] rs st l = record {
    added = [];
    extended = sym (append-nil rs);
    stand = tt;
    stable = λ i p h. h;
  }
  add_clauses-Adds (c ∷ cs) rs st l =
      let (p, st') = parse_role_clause encode c.mspid c.role st in
      let kept = (clause-Keeps encode c.mspid c.role st l).0 in
      let (k, at, here) = clause_points c st l in
      let later = add_clauses-Adds cs (rs ++ p ∷ []) st' kept.linked in
      record {
        added = p ∷ later.added;
        extended = later.extended ∙ append_assoc rs (p ∷ []) later.added;
        stand = ((k, at, later.stable k _ here), later.stand);
        stable = λ i q h. later.stable i q (kept.stable i q h);
      }

  flat_items : (cs : List Clause) → All IsClause cs → All IsItem (print_clauses cs)
  flat_items [] h = tt
  flat_items (c ∷ cs) h = (print_clause-IsItem c h.0, flat_items cs h.1)

  filled_join : (c : Clause) (items : List Text) → is_empty (join (print_clause c ∷ items)) ≡ false
  filled_join c [] = refl
  filled_join c (item ∷ items) = refl

  flat_parse :
      (g : Gate) (c : Clause) (cs : List Clause)
      → All IsClause (c ∷ cs)
      → from_string encode (flat_text g c cs)
        ≡ ok (close g (add_clauses (c ∷ cs) ([], empty_builder)))
  flat_parse g c cs h =
      print_gate_items g (print_clause c) (print_clauses cs) _ (flat_items (c ∷ cs) h)
        (filled_join c (print_clauses cs))
        (λ recur. clause_items recur (c ∷ cs) ([], empty_builder) h)

  length-StandFor :
      (ids : List (MspPrincipal Bytes)) (cs : List Clause) (ps : List SignaturePolicy)
      → StandFor ids cs ps
      → length ps ≡ length cs
  length-StandFor ids [] [] h = refl
  length-StandFor ids [] (p ∷ ps) h = absurd h
  length-StandFor ids (c ∷ cs) [] h = absurd h
  length-StandFor ids (c ∷ cs) (p ∷ ps) h = ap suc (length-StandFor ids cs ps h.1)

  close_gate-asked :
      (g : Gate) (cs : List Clause) (ps : List SignaturePolicy)
      → length ps ≡ length cs
      → close_gate g ps ≡ n_out_of (asked g cs) (rules ps)
  close_gate-asked or cs ps h = refl
  close_gate-asked and cs ps h = ap (λ n. n_out_of n (rules ps)) h

  -- A gate of role clauses, written with no blanks and with MSP ids that are not empty and consist of
  -- letters, digits and dots, parses to the policy it stands for: an OR asks for one and an AND for
  -- all of its clauses, over one rule for each clause, in order, each pointing at the clause's
  -- principal.
  pub from_string-print_gate :
      (g : Gate) (c : Clause) (cs : List Clause)
      → All IsClause (c ∷ cs)
      → (e : Envelope Bytes) × (rs : List SignaturePolicy) × (from_string encode (flat_text g c cs)
          ≡ ok e)
        × (e.rule ≡ n_out_of (asked g (c ∷ cs)) (rules rs))
        × StandFor e.identities (c ∷ cs) rs
  from_string-print_gate g c cs h =
      let done = add_clauses-Adds (c ∷ cs) [] empty_builder (empty_builder-IsLinked encode) in
      let out = add_clauses (c ∷ cs) ([], empty_builder) in
      let stand : StandFor out.1.identities (c ∷ cs) out.0 = rw done.extended done.stand in
      (
        close g out,
        out.0,
        flat_parse g c cs h,
        close_gate-asked g (c ∷ cs) out.0 (length-StandFor out.1.identities (c ∷ cs) out.0 stand),
        stand,
      )

  spaced_items :
      (cs : List Clause) → All IsClause cs → All IsItem (map (λ d. 32 ∷ print_clause d) cs)
  spaced_items [] h = tt
  spaced_items (c ∷ cs) h = (print_clause-IsItem c h.0, spaced_items cs h.1)

  blank_clauses :
      (recur : Recur Bytes) (cs : List Clause) (acc : Parsed Bytes)
      → parse_items encode recur (map (λ d. 32 ∷ print_clause d) cs) acc ≡ ok acc
  unfolding parse_items
  blank_clauses recur [] acc = refl
  blank_clauses recur (c ∷ cs) acc =
      rw (blank_item recur (print_clause c) acc) (blank_clauses recur cs acc)

  spaced_parse :
      (recur : Recur Bytes) (c : Clause) (cs : List Clause)
      → IsClause c
      → parse_items encode recur
          (print_clause c ∷ map (λ d. 32 ∷ print_clause d) cs)
          ([], empty_builder)
        ≡ ok (add_clauses (c ∷ []) ([], empty_builder))
  unfolding parse_items
  spaced_parse recur c cs h =
      rw (clause_item recur c ([], empty_builder) h) (blank_clauses recur cs _)

  -- With a blank behind each comma, and MSP ids that are not empty and consist of letters, digits and
  -- dots, every clause but the first is lost: the text parses to what its first clause alone parses
  -- to, whatever the gate.
  pub from_string-spaced :
      (g : Gate) (c : Clause) (cs : List Clause)
      → All IsClause (c ∷ cs)
      → from_string encode (spaced_text g c cs) ≡ from_string encode (flat_text g c [])
  from_string-spaced g c cs h =
      print_gate_items g (print_clause c) (map (λ d. 32 ∷ print_clause d) cs) _
        (print_clause-IsItem c h.0, spaced_items cs h.1)
        (filled_join c (map (λ d. 32 ∷ print_clause d) cs)) (λ recur. spaced_parse recur c cs h.0)
      ∙ sym (flat_parse g c [] (h.0, tt))

  -- An AND whose every clause stands behind a blank parses to the policy "0 out of no rule", with
  -- no identity: it asks for no signature at all.
  pub from_string-vacuous :
      (c : Clause) (cs : List Clause)
      → All IsClause (c ∷ cs)
      → from_string encode (print_gate and (map (λ d. 32 ∷ print_clause d) (c ∷ cs)))
        ≡ ok (record { rule = n_out_of 0 nil; identities = [] })
  from_string-vacuous c cs h =
      print_gate_items and (32 ∷ print_clause c) (map (λ d. 32 ∷ print_clause d) cs) _
        (spaced_items (c ∷ cs) h) (filled c (map (λ d. 32 ∷ print_clause d) cs))
        (λ recur. blank_clauses recur (c ∷ cs) ([], empty_builder))
    where
      filled :
          (d : Clause) (items : List Text) → is_empty (join ((32 ∷ print_clause d) ∷ items)) ≡ false
      filled d [] = refl
      filled d (item ∷ items) = refl

  -- The parse of a gate of one clause.
  pub from_string_single :
      (g : Gate) (c : Clause)
      → IsClause c
      → from_string encode (flat_text g c [])
        ≡ ok (record {
          rule = close_gate g (signed_by 0 ∷ []);
          identities = principal encode c.mspid c.role ∷ [];
        })
  unfolding add_clauses parse_role_clause index_of
  from_string_single g c h = flat_parse g c [] (h, tt)
