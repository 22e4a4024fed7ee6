-- ===== src/Policy/Gate/Bounds.antt =====
-- The signer indices of a parsed gate policy: each points into the list of identities, and no
-- identity is listed twice.
use fabric_common.Base.{
  sym, ◌∙◌, ℕ, zero, suc, ◌≤◌, ◌<◌, ◌≡◌, ap, inl, inr, none, some, List, [], ◌∷◌, ◌++◌, Text,
  text_eq, text_eq_iff, length, get_elem?, length-append, get_elem?-append_left,
  get_elem?-append_last, get_elem?-append_one, get_elem?-lt, Bool-cases, Option-cases, arith, All,
  All-append, all, is_space,
}
use fabric_common.Base.Result.{ok, Ensures, bind-Ensures, Ensures-eq_ok}
use fabric_common.Policy.Proto.{
  Role, role_type, MspRole, MspPrincipal, SignaturePolicy, signed_by, n_out_of, untyped, Rules, nil,
  cons, rules, Envelope, build_msp_principal,
}
use fabric_common.Policy.Gate.Print.{role_key-injective}
use fabric_common.Policy.Gate.{
  Gate, and, or, IndexMap, index_of, role_key, Builder, parse_role_clause, Parsed, Recur,
  parse_nested, parse_role_item, parse_item, parse_items, parse_gate, close_gate, empty_builder,
  from_string, match_gate, match_role, split_comma,
}

-- Every signer index of a policy is below `n`.
abbrev mutual
  pub InBounds : ℕ → SignaturePolicy → Type 0
  InBounds n untyped = Unit
  InBounds n (signed_by k) = k < n
  InBounds n (n_out_of _ rs) = AllInBounds n rs

  pub AllInBounds : ℕ → Rules → Type 0
  AllInBounds n nil = Unit
  AllInBounds n (cons p ps) = InBounds n p × AllInBounds n ps

mutual
  InBounds-mono : (n m : ℕ) (p : SignaturePolicy) → n ≤ m → InBounds n p → InBounds m p
  InBounds-mono n m untyped h b = tt
  InBounds-mono n m (signed_by k) h b = omega arith
  InBounds-mono n m (n_out_of _ rs) h b = AllInBounds-mono n m rs h b

  AllInBounds-mono : (n m : ℕ) (rs : Rules) → n ≤ m → AllInBounds n rs → AllInBounds m rs
  AllInBounds-mono n m nil h b = tt
  AllInBounds-mono n m (cons p ps) h b = (InBounds-mono n m p h b.0, AllInBounds-mono n m ps h b.1)

All-InBounds-mono :
    (n m : ℕ) (ps : List SignaturePolicy) → n ≤ m → All (InBounds n) ps → All (InBounds m) ps
All-InBounds-mono n m [] h b = tt
All-InBounds-mono n m (p ∷ ps) h b = (InBounds-mono n m p h b.0, All-InBounds-mono n m ps h b.1)

AllInBounds-rules :
    (n : ℕ) (ps : List SignaturePolicy) → All (InBounds n) ps → AllInBounds n (rules ps)
AllInBounds-rules n [] h = tt
AllInBounds-rules n (p ∷ ps) h = (h.0, AllInBounds-rules n ps h.1)

close_gate-InBounds :
    (g : Gate) (n : ℕ) (ps : List SignaturePolicy)
    → All (InBounds n) ps
    → InBounds n (close_gate g ps)
close_gate-InBounds and n ps h = AllInBounds-rules n ps h
close_gate-InBounds or n ps h = AllInBounds-rules n ps h

module _ {Bytes : Type 0} (encode : MspRole → Bytes) where
  abbrev pub principal : Text → Role → MspPrincipal Bytes
  principal m r = build_msp_principal encode (role_type r) m

  -- The map and the list agree: the map leads into the list, and each listed identity is the one
  -- that its own key leads to.
  pub record IsLinked (st : Builder Bytes) : Type 0 where
    pub inside : (k : Text) (i : ℕ) → index_of k st.index_map ≡ some i → i < length st.identities
    pub leads :
        (m : Text) (r : Role) (i : ℕ)
        → index_of (role_key m r) st.index_map ≡ some i
        → get_elem? st.identities i ≡ some (principal m r)
    pub own :
        (i : ℕ) (p : MspPrincipal Bytes)
        → get_elem? st.identities i ≡ some p
        → (m : Text) × (r : Role) × (p ≡ principal m r)
          × (index_of (role_key m r) st.index_map ≡ some i)

  pub empty_builder-IsLinked : IsLinked empty_builder
  unfolding index_of
  empty_builder-IsLinked = record {
    inside = λ k i h. absurd (cc);
    leads = λ m r i h. absurd (cc);
    own = λ i p h. absurd (cc);
  }

  -- What a step of the parser keeps: the links, and the length of the list never falls.
  pub record Keeps (st st' : Builder Bytes) : Type 0 where
    pub linked : IsLinked st'
    pub grows : length st.identities ≤ length st'.identities
    pub stable :
        (i : ℕ) (p : MspPrincipal Bytes)
        → get_elem? st.identities i ≡ some p
        → get_elem? st'.identities i ≡ some p

  Keeps-trans : {s t u : Builder Bytes} → Keeps s t → Keeps t u → Keeps s u
  Keeps-trans a b = record {
    linked = b.linked;
    grows = omega arith;
    stable = λ i p h. b.stable i p (a.stable i p h);
  }

  -- A new key at the end of the list.
  extend-IsLinked :
      (m : Text) (r : Role) (st : Builder Bytes)
      → IsLinked st
      → index_of (role_key m r) st.index_map ≡ none
      → IsLinked (record {
        index_map = (role_key m r, length st.identities) ∷ st.index_map;
        identities = st.identities ++ principal m r ∷ [];
      })
  unfolding index_of
  extend-IsLinked m r st l fresh = record {
    inside =
        λ k i h. ground (arith, l.inside k i, length-append st.identities (principal m r ∷ []));
    leads = λ m' r' i h. elim (Bool-cases (text_eq (role_key m r) (role_key m' r'))) [
      | inl same ↦
          let (e, f) = role_key-injective m m' r r' ((text_eq_iff _ _).0 same) in
          let at : i ≡ length st.identities = ground (arith, same) in
          rw (at, ← e, ← f) (get_elem?-append_last st.identities (principal m r))
      | inr other ↦
          let old : index_of (role_key m' r') st.index_map ≡ some i = ground (arith, other) in
          get_elem?-append_left st.identities (principal m r ∷ []) i
            (l.inside (role_key m' r') i old)
          ∙ l.leads m' r' i old
    ];
    own = λ i p h. elim (get_elem?-append_one st.identities (principal m r) i h) [
      | inl (below, old) ↦
          let (m', r', e, at) = l.own i p old in
          (m', r', e, ground (arith, text_eq_iff (role_key m r) (role_key m' r')))
      | inr (last, new) ↦ (m, r, new, ground (arith, text_eq_iff (role_key m r) (role_key m r)))
    ];
  }

  pub clause-Keeps :
      (m : Text) (r : Role) (st : Builder Bytes)
      → IsLinked st
      → let (p, st') = parse_role_clause encode m r st in
        Keeps st st' × InBounds (length st'.identities) p
  unfolding parse_role_clause
  clause-Keeps m r st l = elim (Option-cases (index_of (role_key m r) st.index_map)) [
    | inl fresh ↦
        rw (fresh, parse_role_clause)
          (
            record {
              linked = extend-IsLinked m r st l fresh;
              grows = omega (arith, length-append st.identities (principal m r ∷ []));
              stable = λ i p h.
                  get_elem?-append_left st.identities (principal m r ∷ []) i
                    (get_elem?-lt st.identities i h)
                  ∙ h;
            },
            omega (arith, length-append st.identities (principal m r ∷ [])),
          )
    | inr (i, found) ↦
        rw (found, parse_role_clause)
          (
            record { linked = l; grows = omega arith; stable = λ i p h. h },
            l.inside (role_key m r) i found,
          )
  ]

  -- What a parse of rules has established.
  record IsGood (st : Builder Bytes) (out : Parsed Bytes) : Type 0 where
    keeps : Keeps st out.1
    bounded : All (InBounds (length out.1.identities)) out.0

  abbrev IsSoundAt : Builder Bytes → SignaturePolicy × Builder Bytes → Type 0
  IsSoundAt st out = Keeps st out.1 × InBounds (length out.1.identities) out.0

  abbrev IsSound : Recur Bytes → Type 0
  IsSound recur =
      (g : Gate) (sub : Text) (st : Builder Bytes)
      → IsLinked st
      → Ensures (IsSoundAt st) (recur g sub st)

  push-IsGood :
      (st : Builder Bytes) (rs : List SignaturePolicy) (st' st'' : Builder Bytes)
      (p : SignaturePolicy)
      → IsGood st (rs, st')
      → Keeps st' st''
      → InBounds (length st''.identities) p
      → IsGood st (rs ++ p ∷ [], st'')
  push-IsGood st rs st' st'' p g k b = record {
    keeps = Keeps-trans g.keeps k;
    bounded =
        All-append (InBounds (length st''.identities)) rs (p ∷ [])
          (All-InBounds-mono _ _ rs k.grows g.bounded) (b, tt);
  }

  nested-IsGood :
      (recur : Recur Bytes) (st : Builder Bytes) (item : Text) (acc : Parsed Bytes)
      → IsSound recur
      → IsGood st acc
      → Ensures (IsGood st) (parse_nested encode recur item acc)
  unfolding parse_nested
  nested-IsGood recur st item (rs, st') sound g = elim (Option-cases (match_gate item)) [
    | inl no_gate ↦ rw (no_gate, parse_nested) g
    | inr ((gate, sub), found) ↦
        rw (found, parse_nested)
          (bind-Ensures (IsSoundAt st') (IsGood st) (recur gate sub st') _
            (sound gate sub st' g.keeps.linked)
            (λ out h. push-IsGood st rs st' out.1 out.0 g h.0 h.1))
  ]

  role_item-IsGood :
      (st : Builder Bytes) (item : Text) (acc : Parsed Bytes)
      → IsGood st acc
      → IsGood st (parse_role_item encode item acc)
  unfolding parse_role_item
  role_item-IsGood st item (rs, st') g = elim (Option-cases (match_role item)) [
    | inl no_role ↦ rw (no_role, parse_role_item) g
    | inr ((m, r), found) ↦
        rw (found, parse_role_item)
          let (p, st'') = parse_role_clause encode m r st' in
            push-IsGood st rs st' _ _ g (clause-Keeps m r st' g.keeps.linked).0
              (clause-Keeps m r st' g.keeps.linked).1
  ]

  item-IsGood :
      (recur : Recur Bytes) (st : Builder Bytes) (item : Text) (acc : Parsed Bytes)
      → IsSound recur
      → IsGood st acc
      → Ensures (IsGood st) (parse_item encode recur item acc)
  unfolding parse_item
  item-IsGood recur st item acc sound g = elim (Bool-cases (all is_space item)) [
    | inl blank ↦ rw (blank, parse_item) g
    | inr filled ↦
        rw (filled, parse_item)
          (bind-Ensures (IsGood st) (IsGood st) (parse_nested encode recur item acc) _
            (nested-IsGood recur st item acc sound g) (λ next h. role_item-IsGood st item next h))
  ]

  items-IsGood :
      (recur : Recur Bytes) (st : Builder Bytes) (items : List Text) (acc : Parsed Bytes)
      → IsSound recur
      → IsGood st acc
      → Ensures (IsGood st) (parse_items encode recur items acc)
  unfolding parse_items
  items-IsGood recur st [] acc sound g = g
  items-IsGood recur st (item ∷ items) acc sound g =
      bind-Ensures (IsGood st) (IsGood st) (parse_item encode recur item acc) _
        (item-IsGood recur st item acc sound g) (λ next h. items-IsGood recur st items next sound h)

  gate-IsSound : (fuel : ℕ) → IsSound (parse_gate encode fuel)
  unfolding parse_gate
  gate-IsSound zero g sub st l = tt
  gate-IsSound (suc fuel) g sub st l =
      bind-Ensures (IsGood st) (IsSoundAt st)
        (parse_items encode (parse_gate encode fuel) (split_comma sub) ([], st)) _
        (items-IsGood (parse_gate encode fuel) st (split_comma sub) ([], st) (gate-IsSound fuel)
          (record {
            keeps = record { linked = l; grows = omega arith; stable = λ i p h. h };
            bounded = tt;
          }))
        (λ done h. (h.keeps, close_gate-InBounds g _ done.0 h.bounded))

  -- What the envelope of a parsed text guarantees.
  abbrev IsSoundEnvelope : Envelope Bytes → Type 0
  IsSoundEnvelope e =
      InBounds (length e.identities) e.rule
      × ((m : IndexMap) × IsLinked (record { index_map = m; identities = e.identities }))

  from_string-IsSound : (s : Text) → Ensures IsSoundEnvelope (from_string encode s)
  unfolding from_string
  from_string-IsSound s = elim (Option-cases (match_gate s)) [
    | inl no_gate ↦ rw (no_gate, from_string) tt
    | inr ((g, sub), found) ↦
        rw (found, from_string)
          (bind-Ensures (IsSoundAt empty_builder) IsSoundEnvelope
            (parse_gate encode (suc (length s)) g sub empty_builder) _
            (gate-IsSound (suc (length s)) g sub empty_builder empty_builder-IsLinked)
            (λ out h. (h.1, (out.1.index_map, h.0.linked))))
  ]

  -- Every signer index in the rule of a parsed policy points into its list of identities.
  pub from_string-InBounds :
      (s : Text) (e : Envelope Bytes)
      → from_string encode s ≡ ok e
      → InBounds (length e.identities) e.rule
  from_string-InBounds s e h = (Ensures-eq_ok IsSoundEnvelope _ (from_string-IsSound s) h).0

  role_type-injective : (r r' : Role) → role_type r ≡ role_type r' → r ≡ r'
  role_type-injective r r' h = ground arith

  principal-injective :
      ((a b : MspRole) → encode a ≡ encode b → a ≡ b)
      → (m m' : Text) (r r' : Role) → principal m r ≡ principal m' r'
      → (m ≡ m') × (r ≡ r')
  principal-injective inj m m' r r' h =
      let same = inj _ _ (ap (λ (t : MspPrincipal Bytes). t.principal) h) in
      (
        ap (λ (t : MspRole). t.msp_identifier) same,
        role_type-injective r r' (ap (λ (t : MspRole). t.role) same),
      )

  linked-distinct :
      ((a b : MspRole) → encode a ≡ encode b → a ≡ b)
      → (st : Builder Bytes) (i j : ℕ) (p : MspPrincipal Bytes) → IsLinked st
      → get_elem? st.identities i ≡ some p
      → get_elem? st.identities j ≡ some p
      → i ≡ j
  linked-distinct inj st i j p l at_i at_j =
      let (m, r, e1, f1) = l.own i p at_i in
      let (m', r', e2, f2) = l.own j p at_j in
      let (same_m, same_r) = principal-injective inj m m' r r' (sym e1 ∙ e2) in
      ground (arith, f1, f2, same_m, same_r)

  -- If the encoder is injective, a parsed policy lists no identity twice.
  pub from_string-distinct :
      (s : Text) (e : Envelope Bytes) (i j : ℕ) (p : MspPrincipal Bytes)
      → ((a b : MspRole) → encode a ≡ encode b → a ≡ b)
      → from_string encode s ≡ ok e
      → get_elem? e.identities i ≡ some p
      → get_elem? e.identities j ≡ some p
      → i ≡ j
  from_string-distinct s e i j p inj h at_i at_j =
      let (map, l) = (Ensures-eq_ok IsSoundEnvelope _ (from_string-IsSound s) h).1 in
      linked-distinct inj (record { index_map = map; identities = e.identities }) i j p l at_i at_j
