-- ===== src/Policy/Gate/Fuel.antt =====
-- The recursion of the gate parser ends: a nested gate's body is shorter than the item it is in.
use mathlib.Core.Option
use fabric_common.Base.{
  ℕ, zero, suc, ◌≤◌, ◌<◌, ◌≡◌, refl, ◌≢◌, inl, inr, none, some, List, [], ◌∷◌, Text, codes,
  strip_prefix, strip_last, length, Bool-cases, Option-cases, arith, All, all, ◌⊎◌, ◌==◌, is_space,
}
use fabric_common.Base.Result.{Result, ok, err, ◌>>=◌}
use fabric_common.Policy.Proto.{MspRole, Envelope}
use fabric_common.Policy.Gate.{
  Gate, Failure, type_error, gate_body, match_gate, split_comma, Builder, Parsed, Recur,
  parse_nested, parse_item, parse_items, parse_gate, empty_builder, from_string,
}

strip_prefix_shorter : (p s r : Text) → strip_prefix p s ≡ some r → length r ≤ length s
strip_prefix_shorter [] s r h = ground arith
strip_prefix_shorter (c ∷ p) [] r h = cc
strip_prefix_shorter (c ∷ p) (d ∷ s) r h = ground (arith, strip_prefix_shorter p s r)

strip_last_shorter : (c : ℕ) (s r : Text) → strip_last c s ≡ some r → length r < length s
unfolding strip_last
strip_last_shorter c [] r h = cc
strip_last_shorter c (x ∷ []) r h = ground arith
strip_last_shorter c (x ∷ y ∷ s) r h =
    let (t, e, same) = (Option.map-eq-some_iff _ _).0 h in
    ground (arith, strip_last_shorter c (y ∷ s) t e, same)

gate_body_shorter : (s r : Text) → gate_body s ≡ some r → length r < length s
unfolding gate_body
gate_body_shorter s r h = elim (Option-cases (strip_last b')' s)) [
  | inl missing ↦ absurd (ground (arith, missing))
  | inr (t, e) ↦ ground (arith, e, strip_last_shorter b')' s t e)
]

-- What a gate's name leaves, and the body in it.
body_shorter :
    (p s t u : Text) → strip_prefix p s ≡ some t → gate_body t ≡ some u → length u < length s
body_shorter p s t u e k = omega (arith, strip_prefix_shorter p s t e, gate_body_shorter t u k)

-- The body of a matched gate is shorter than the text.
match_gate_shorter :
    (s : Text) (g : Gate) (r : Text) → match_gate s ≡ some (g, r) → length r < length s
unfolding match_gate
match_gate_shorter s g r h = elim (Option-cases (strip_prefix (codes "AND(") s)) [
  | inr (t, e) ↦ elim (Option-cases (gate_body t)) [
    | inl missing ↦ absurd (ground (arith, e, missing))
    | inr (u, k) ↦ ground (arith, e, k, body_shorter (codes "AND(") s t u e k)
  ]
  | inl no_and ↦ elim (Option-cases (strip_prefix (codes "OR(") s)) [
    | inl no_or ↦ absurd (ground (arith, no_and, no_or))
    | inr (t, e) ↦ elim (Option-cases (gate_body t)) [
      | inl missing ↦ absurd (ground (arith, no_and, e, missing))
      | inr (u, k) ↦ ground (arith, no_and, e, k, body_shorter (codes "OR(") s t u e k)
    ]
  ]
]

abbrev IsWithin : ℕ → Text → Type 0
IsWithin n s = length s ≤ n

All-IsWithin_mono : (n m : ℕ) (ps : List Text) → n ≤ m → All (IsWithin n) ps → All (IsWithin m) ps
All-IsWithin_mono n m [] h a = tt
All-IsWithin_mono n m (p ∷ ps) h a = (omega arith, All-IsWithin_mono n m ps h a.1)

-- No piece of a split text is longer than the text.
split_comma-IsWithin : (s : Text) → All (IsWithin (length s)) (split_comma s)
unfolding split_comma
split_comma-IsWithin [] = (omega arith, tt)
split_comma-IsWithin (c ∷ s) = go (split_comma s) refl (split_comma-IsWithin s)
  where
    go :
        (ps : List Text)
        → split_comma s ≡ ps
        → All (IsWithin (length s)) ps
        → All (IsWithin (suc (length s))) (split_comma (c ∷ s))
    go [] e h = rw (e, split_comma) (omega arith, tt)
    go (p ∷ ps) e h = elim (Bool-cases (c == b',')) [
      | inl comma ↦
          rw (e, split_comma)
            (rw comma (omega arith, (omega arith, All-IsWithin_mono _ _ ps (omega arith) h.1)))
      | inr other ↦
          rw (e, split_comma) (rw other (omega arith, All-IsWithin_mono _ _ ps (omega arith) h.1))
    ]

abbrev IsOk : {A : Type 0} → Result Failure A → Type 0
IsOk (ok a) = Unit
IsOk (err e) = ⊥

bind-IsOk :
    {A B : Type 0} (m : Result Failure A) (f : A → Result Failure B)
    → IsOk m
    → ((a : A) → IsOk (f a))
    → IsOk (m >>= f)
bind-IsOk (ok a) f h k = k a
bind-IsOk (err e) f h k = h

module _ {Bytes : Type 0} (encode : MspRole → Bytes) where
  -- A nested parser that succeeds on every text shorter than `n`.
  abbrev Serves : ℕ → Recur Bytes → Type 0
  Serves n recur =
      (g : Gate) (sub : Text) (st : Builder Bytes) → length sub < n → IsOk (recur g sub st)

  item-IsOk :
      (n : ℕ) (recur : Recur Bytes) (item : Text) (acc : Parsed Bytes)
      → Serves n recur
      → length item ≤ n
      → IsOk (parse_item encode recur item acc)
  unfolding parse_item parse_nested
  item-IsOk n recur item acc h k = elim (Bool-cases (all is_space item)) [
    | inl blank ↦ rw (blank, parse_item) tt
    | inr filled ↦
        rw (filled, parse_item)
          (elim (Option-cases (match_gate item)) [
            | inl no_gate ↦ rw (no_gate, parse_nested) tt
            | inr ((g, sub), e) ↦
                rw (e, parse_nested)
                  (bind-IsOk _ _
                    (bind-IsOk (recur g sub acc.1) _
                      (h g sub acc.1 (omega (arith, match_gate_shorter item g sub e))) (λ out. tt))
                    (λ next. tt))
          ])
  ]

  items-IsOk :
      (n : ℕ) (recur : Recur Bytes) (items : List Text) (acc : Parsed Bytes)
      → Serves n recur
      → All (IsWithin n) items
      → IsOk (parse_items encode recur items acc)
  unfolding parse_items
  items-IsOk n recur [] acc h k = tt
  items-IsOk n recur (item ∷ items) acc h k =
      bind-IsOk (parse_item encode recur item acc) _ (item-IsOk n recur item acc h k.0)
        (λ next. items-IsOk n recur items next h k.1)

  -- Fuel beyond the length of the body is enough.
  gate-IsOk : (fuel : ℕ) → Serves fuel (parse_gate encode fuel)
  unfolding parse_gate
  gate-IsOk zero g sub st h = elim h [ ]
  gate-IsOk (suc fuel) g sub st h =
      bind-IsOk (parse_items encode (parse_gate encode fuel) (split_comma sub) ([], st)) _
        (items-IsOk fuel (parse_gate encode fuel) (split_comma sub) ([], st) (gate-IsOk fuel)
          (All-IsWithin_mono _ _ _ (omega arith) (split_comma-IsWithin sub)))
        (λ done. tt)

  ok_of_IsOk : {A : Type 0} (m : Result Failure A) → IsOk m → (a : A) × (m ≡ ok a)
  ok_of_IsOk (ok a) h = (a, refl)
  ok_of_IsOk (err e) h = absurd h

  -- The parser ends on every text: it returns an envelope when the whole text is a gate clause,
  -- and otherwise it throws a TypeError. It never runs out of fuel.
  pub from_string_total :
      (s : Text)
      → ((match_gate s ≡ none) × (from_string encode s ≡ err type_error))
        ⊎ ((match_gate s ≢ none) × ((e : Envelope Bytes) × (from_string encode s ≡ ok e)))
  unfolding from_string
  from_string_total s = elim (Option-cases (match_gate s)) [
    | inl no_gate ↦ inl (no_gate, rw (no_gate, from_string))
    | inr ((g, sub), found) ↦
        let (out, done) = ok_of_IsOk (parse_gate encode (suc (length s)) g sub empty_builder) (
          gate-IsOk (suc (length s)) g sub empty_builder
            (omega (arith, match_gate_shorter s g sub found))) in
        inr (
          (λ missing. cc),
          (
            record { rule = out.0; identities = out.1.identities },
            rw (found, from_string) (rw done),
          ),
        )
  ]
