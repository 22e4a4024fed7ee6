-- ===== src/Names/Regex/Laws.antt =====
-- The matcher agrees with what an expression stands for.
use mathlib.Core.Path.{subst}
use fabric_common.Base.{
  conditions, ℕ, ◌≡◌, refl, sym, ap, ◌∙◌, ◌⊎◌, ◌↔◌, inl, inr, Bool, true, false, [], ◌∷◌, ◌++◌,
  ◌||◌, Text, Bool-cases, arith,
}
use fabric_common.Names.Regex.{
  Regex, never, epsilon, one, seq, alt, star, nullable, derive, matches, Matches, at_end, at_one,
  both, left, right, none_more, one_more,
}

either : (a b : Bool) → a || b ≡ true → (a ≡ true) ⊎ (b ≡ true)
either true b h = inl refl
either false b h = inr h

-- An expression that is nullable matches the empty text.
nullable-Matches : (r : Regex) → nullable r ≡ true → Matches r []
nullable-Matches never h = absurd (cc)
nullable-Matches epsilon h = at_end
nullable-Matches (one p) h = absurd (cc)
nullable-Matches (seq r q) h =
    let (a, b) = conditions (nullable r) (nullable q) h in
    both [] [] (nullable-Matches r a) (nullable-Matches q b) refl
nullable-Matches (alt r q) h = elim (either (nullable r) (nullable q) h) [
  | inl a ↦ left (nullable-Matches r a)
  | inr b ↦ right (nullable-Matches q b)
]
nullable-Matches (star r) h = none_more

no_text : {q : Regex} (s : Text) {t : Text} → Matches never s → Matches q t
no_text s m = elim m [ ]

epsilon_text : (s : Text) → Matches epsilon s → s ≡ []
epsilon_text s at_end = refl

pub one_text : (p : ℕ → Bool) (s : Text) → Matches (one p) s → (c : ℕ) × (p c ≡ true) × (s ≡ c ∷ [])
one_text p s (at_one c h) = (c, h, refl)

split_alt : (r q : Regex) (s : Text) → Matches (alt r q) s → Matches r s ⊎ Matches q s
split_alt r q s (left m) = inl m
split_alt r q s (right m) = inr m

pub split_seq :
    (r q : Regex) (u : Text)
    → Matches (seq r q) u
    → (s : Text) × (t : Text) × Matches r s × Matches q t × (u ≡ s ++ t)
split_seq r q u (both s t m n e) = (s, t, m, n, e)

-- What the rest matches behind `c`, the expression matches with it.
derive-Matches : (c : ℕ) (r : Regex) (s : Text) → Matches (derive c r) s → Matches r (c ∷ s)
unfolding derive
derive-Matches c never s m = no_text s m
derive-Matches c epsilon s m = no_text s m
derive-Matches c (one p) s m = elim (Bool-cases (p c)) [
  | inl t ↦ subst (λ x. Matches (one p) (c ∷ x)) (sym (epsilon_text s (rw t at m))) (at_one c t)
  | inr f ↦ no_text s (rw f at m)
]
derive-Matches c (seq r q) s m = elim (Bool-cases (nullable r)) [
  | inl t ↦ elim (split_alt (seq (derive c r) q) (derive c q) s (rw t at m)) [
    | inl a ↦
        let (u, v, ma, mb, e) = split_seq (derive c r) q s a in
        both (c ∷ u) v (derive-Matches c r u ma) mb (ap (λ x. c ∷ x) e)
    | inr b ↦ both [] (c ∷ s) (nullable-Matches r t) (derive-Matches c q s b) refl
  ]
  | inr f ↦
      let (u, v, ma, mb, e) = split_seq (derive c r) q s (rw f at m) in
      both (c ∷ u) v (derive-Matches c r u ma) mb (ap (λ x. c ∷ x) e)
]
derive-Matches c (alt r q) s m = elim (split_alt (derive c r) (derive c q) s m) [
  | inl a ↦ left (derive-Matches c r s a)
  | inr b ↦ right (derive-Matches c q s b)
]
derive-Matches c (star r) s m =
    let (u, v, ma, mb, e) = split_seq (derive c r) (star r) s m in
    one_more (c ∷ u) v (derive-Matches c r u ma) mb (ap (λ x. c ∷ x) e)

empty_parts : (s t : Text) → [] ≡ s ++ t → (s ≡ []) × (t ≡ [])
empty_parts [] t h = (refl, sym h)
empty_parts (c ∷ s) t h = absurd (cc)

-- An expression that matches the empty text is nullable.
Matches-nullable : (r : Regex) → Matches r [] → nullable r ≡ true
Matches-nullable never m = elim m [ ]
Matches-nullable epsilon m = refl
Matches-nullable (one p) m = let (c, h, e) = one_text p [] m in absurd (cc)
Matches-nullable (seq r q) m =
    let (s, t, a, b, e) = split_seq r q [] m in
    let (es, et) = empty_parts s t e in
    rw (Matches-nullable r (subst (Matches r) es a)) (Matches-nullable q (subst (Matches q) et b))
Matches-nullable (alt r q) m = elim (split_alt r q [] m) [
  | inl a ↦ rw (Matches-nullable r a) refl
  | inr b ↦ ground (arith, Matches-nullable q b)
]
Matches-nullable (star r) m = refl

-- Where the first unit of a repetition stands.
star_head :
    (r : Regex) (u : Text) (c : ℕ) (s : Text)
    → Matches (star r) u
    → u ≡ c ∷ s
    → (t : Text) × (v : Text) × Matches r (c ∷ t) × Matches (star r) v × (s ≡ t ++ v)
star_head r u c s none_more h = absurd (cc)
star_head r u c s (one_more [] t m n e) h = star_head r t c s n (sym e ∙ h)
star_head r u c s (one_more (d ∷ x) t m n e) h =
    let k : d ∷ x ++ t ≡ c ∷ s = sym e ∙ h in
    let first : d ≡ c = cc in
    let rest : s ≡ x ++ t = cc in (x, t, subst (λ y. Matches r (y ∷ x)) first m, n, rest)

-- The first unit of a sequence stands in its first part, or that is empty.
seq_head :
    (r : Regex) (c : ℕ) (s u v : Text)
    → Matches r u
    → c ∷ s ≡ u ++ v
    → ((t : Text) × (u ≡ c ∷ t) × (s ≡ t ++ v)) ⊎ ((nullable r ≡ true) × (v ≡ c ∷ s))
seq_head r c s [] v m h = inr (Matches-nullable r m, sym h)
seq_head r c s (d ∷ t) v m h =
    let first : d ≡ c = cc in let rest : s ≡ t ++ v = cc in inl (t, ap (λ x. x ∷ t) first, rest)

-- What an expression matches, the rest matches behind the first unit.
Matches-derive : (c : ℕ) (r : Regex) (s : Text) → Matches r (c ∷ s) → Matches (derive c r) s
unfolding derive
Matches-derive c never s m = elim m [ ]
Matches-derive c epsilon s m = let e = epsilon_text (c ∷ s) m in absurd (cc)
Matches-derive c (one p) s m =
    let (d, h, e) = one_text p (c ∷ s) m in
    let same : d ≡ c = cc in
    let ended : [] ≡ s = cc in
    let t : p c ≡ true = ap p (sym same) ∙ h in rw t (subst (Matches epsilon) ended at_end)
Matches-derive c (seq r q) s m =
    let (u, v, a, b, e) = split_seq r q (c ∷ s) m in
    elim (seq_head r c s u v a e) [
      | inl (t, h, k) ↦
          let l = both t v (Matches-derive c r t (subst (Matches r) h a)) b k in
          elim (Bool-cases (nullable r)) [ inl n ↦ rw n (left l) | inr n ↦ rw n l ]
      | inr (n, h) ↦ rw n (right (Matches-derive c q s (subst (Matches q) h b)))
    ]
Matches-derive c (alt r q) s m = elim (split_alt r q (c ∷ s) m) [
  | inl a ↦ left (Matches-derive c r s a)
  | inr b ↦ right (Matches-derive c q s b)
]
Matches-derive c (star r) s m =
    let (t, v, a, b, e) = star_head r (c ∷ s) c s m refl in both t v (Matches-derive c r t a) b e

-- The matcher accepts the texts that the expression stands for, and no others.
pub matches_iff : (r : Regex) (s : Text) → (matches r s ≡ true) ↔ Matches r s
unfolding matches
matches_iff r [] = (nullable-Matches r, Matches-nullable r)
matches_iff r (c ∷ s) = (
  λ h. derive-Matches c r s ((matches_iff (derive c r) s).0 h),
  λ m. (matches_iff (derive c r) s).1 (Matches-derive c r s m),
)
