-- ===== src/Names/Rules/Laws.antt =====
-- What the rules for names come to, without regular expressions.
use mathlib.Core.Path.{subst}
use fabric_common.Base.{
  conditions, ℕ, ◌≡◌, refl, sym, ◌↔◌, inl, inr, Bool, true, false, [], ◌∷◌, ◌++◌, ◌&&◌, not, ltb,
  length, Text, all, all-append, all_mono, ◌<◌, is_empty, Bool-cases, arith,
}
use fabric_common.Base.Result.{ok}
use fabric_common.Names.Regex.{
  Regex, one, seq, star, plus, matches, Matches, at_one, both, none_more, one_more,
}
use fabric_common.Names.Regex.Laws.{matches_iff, one_text, split_seq}
use fabric_common.Names.Rules.{
  is_lower, is_channel_unit, is_group_unit, is_version_unit, is_collection_start,
  is_collection_unit, channel_pattern, group_pattern, Invalid, or_throw, channel_name_matcher,
  config_group_matcher, msp_id_matcher, version_matcher, collection_matcher,
}

abbrev pub starts : (ℕ → Bool) → Text → Bool
starts p [] = false
starts p (c ∷ s) = p c

module _ (p : ℕ → Bool) where
  one-all : (s : Text) → Matches (one p) s → all p s ≡ true
  one-all s (at_one c h) = rw h refl

  -- All units of a repetition pass a test that those of its parts pass.
  star-all :
      (r : Regex)
      → ((s : Text) → Matches r s → all p s ≡ true)
      → (u : Text) → Matches (star r) u
      → all p u ≡ true
  star-all r each u none_more = refl
  star-all r each u (one_more s t m n e) =
      subst (λ x. all p x ≡ true) (sym e) (all-append p s t (each s m) (star-all r each t n))

  plus-all : (s : Text) → Matches (plus (one p)) s → all p s ≡ true
  plus-all s m =
      let (u, v, a, b, e) = split_seq (one p) (star (one p)) s m in
      subst (λ x. all p x ≡ true) (sym e)
        (all-append p u v (one-all u a) (star-all (one p) one-all v b))

  plus-starts : (s : Text) → Matches (plus (one p)) s → starts p s ≡ true
  plus-starts s m =
      let (u, v, a, b, e) = split_seq (one p) (star (one p)) s m in
      let (c, h, k) = one_text p u a in
      subst (λ x. starts p x ≡ true) (sym e) (subst (λ x. starts p (x ++ v) ≡ true) (sym k) h)

  all-star : (s : Text) → all p s ≡ true → Matches (star (one p)) s
  all-star [] h = none_more
  all-star (c ∷ s) h =
      let (a, b) = conditions (p c) (all p s) h in
      one_more (c ∷ []) s (at_one c a) (all-star s b) refl

  all-star_plus : (s : Text) → all p s ≡ true → Matches (star (plus (one p))) s
  all-star_plus [] h = none_more
  all-star_plus (c ∷ s) h =
      let (a, b) = conditions (p c) (all p s) h in
      one_more (c ∷ []) s (both (c ∷ []) [] (at_one c a) none_more refl) (all-star_plus s b) refl

starts-append : (p : ℕ → Bool) (s t : Text) → starts p s ≡ true → starts p (s ++ t) ≡ true
starts-append p [] t h = absurd (cc)
starts-append p (c ∷ s) t h = h

together : (a b : Bool) → a ≡ true → b ≡ true → a && b ≡ true
together a b h k = rw (h, k) refl

-- What a text of two parts passes where they pass it.
joined :
    (p q : ℕ → Bool) (s u v : Text)
    → s ≡ u ++ v
    → starts p u ≡ true
    → all q u ≡ true
    → all q v ≡ true
    → starts p s && all q s ≡ true
joined p q s u v e a b d =
    subst (λ x. starts p x && all q x ≡ true) (sym e)
      (together (starts p (u ++ v)) (all q (u ++ v)) (starts-append p u v a) (all-append q u v b d))

module _ (p q : ℕ → Bool) (sub : (c : ℕ) → p c ≡ true → q c ≡ true) where
  one_star : (s : Text) → starts p s && all q s ≡ true → Matches (seq (one p) (star (one q))) s
  one_star [] h = absurd (cc)
  one_star (c ∷ s) h =
      let (a, b) = conditions (p c) (all q (c ∷ s)) h in
      let (first, rest) = conditions (q c) (all q s) b in
      both (c ∷ []) s (at_one c a) (all-star q s rest) refl

  -- `^pq*$`
  one_star_iff :
      (s : Text) → (matches (seq (one p) (star (one q))) s ≡ true) ↔ (starts p s && all q s ≡ true)
  one_star_iff s = (
    λ h.
        let m = (matches_iff (seq (one p) (star (one q))) s).0 h in
        let (u, v, a, b, e) = split_seq (one p) (star (one q)) s m in
        let (c, first, k) = one_text p u a in
        joined p q s u v e (subst (λ x. starts p x ≡ true) (sym k) first)
          (all_mono p q sub u (one-all p u a)) (star-all q (one q) (one-all q) v b),
    λ h. (matches_iff (seq (one p) (star (one q))) s).1 (one_star s h),
  )

  plus_star :
      (s : Text)
      → starts p s && all q s ≡ true
      → Matches (seq (plus (one p)) (star (plus (one q)))) s
  plus_star [] h = absurd (cc)
  plus_star (c ∷ s) h =
      let (a, b) = conditions (p c) (all q (c ∷ s)) h in
      let (first, rest) = conditions (q c) (all q s) b in
      both (c ∷ []) s (both (c ∷ []) [] (at_one c a) none_more refl) (all-star_plus q s rest) refl

  -- `^p+(q+)*$`
  plus_star_iff :
      (s : Text)
      → (matches (seq (plus (one p)) (star (plus (one q)))) s ≡ true)
        ↔ (starts p s && all q s ≡ true)
  plus_star_iff s = (
    λ h.
        let m = (matches_iff (seq (plus (one p)) (star (plus (one q)))) s).0 h in
        let (u, v, a, b, e) = split_seq (plus (one p)) (star (plus (one q))) s m in
        joined p q s u v e (plus-starts p u a) (all_mono p q sub u (plus-all p u a))
          (star-all q (plus (one q)) (plus-all q) v b),
    λ h. (matches_iff (seq (plus (one p)) (star (plus (one q)))) s).1 (plus_star s h),
  )

not_empty : (p : ℕ → Bool) (s : Text) → (starts p s && all p s) ≡ (not (is_empty s) && all p s)
not_empty p [] = refl
not_empty p (c ∷ s) = elim (Bool-cases (p c)) [ inl t ↦ rw t refl | inr f ↦ rw f refl ]

-- `^p+$`
plus_iff :
    (p : ℕ → Bool) (s : Text)
    → (matches (plus (one p)) s ≡ true) ↔ (not (is_empty s) && all p s ≡ true)
plus_iff p s =
    subst (λ b. (matches (plus (one p)) s ≡ true) ↔ (b ≡ true)) (not_empty p s)
      (one_star_iff p p (λ c h. h) s)

accepted : (x : Invalid) (b : Bool) → or_throw x true b ≡ ok true → b ≡ true
accepted x true h = refl
accepted x false h = absurd (cc)

ltb_iff : (m n : ℕ) → (ltb m n ≡ true) ↔ (m < n)
ltb_iff m n = ground arith

-- Two tests that agree, with a bound on the length.
bounded_iff :
    (x : Invalid) (a b : Bool) (s : Text)
    → (a ≡ true) ↔ (b ≡ true)
    → (or_throw x true (a && ltb (length s) 250) ≡ ok true) ↔ ((b ≡ true) × (length s < 250))
bounded_iff x a b s h = (
  λ k.
      let (t, l) = conditions a (ltb (length s) 250) (accepted x (a && ltb (length s) 250) k) in
      (h.0 t, (ltb_iff (length s) 250).0 l),
  λ k. rw (h.1 (k.0)) (rw ((ltb_iff (length s) 250).1 (k.1)) refl),
)

-- The rules without regular expressions. A channel's name is shorter than 250, starts with a lower
-- case letter and has lower case letters, digits, dots and dashes; the name of a group is shorter
-- than 250, and like an MSP id not empty and of letters, digits, dots and dashes; a version is not
-- empty and of letters, digits and the units `_.+-`; a collection's name starts with a letter, a
-- digit or a dash and may have underscores behind that.
pub matchers_iff :
    (s : Text)
    → ((channel_name_matcher s true ≡ ok true)
        ↔ ((starts is_lower s && all is_channel_unit s ≡ true) × (length s < 250)))
      × ((config_group_matcher s true ≡ ok true)
          ↔ ((not (is_empty s) && all is_group_unit s ≡ true) × (length s < 250)))
      × ((msp_id_matcher s ≡ true) ↔ (not (is_empty s) && all is_group_unit s ≡ true))
      × ((version_matcher s ≡ true) ↔ (not (is_empty s) && all is_version_unit s ≡ true))
      × ((collection_matcher s ≡ true)
          ↔ (starts is_collection_start s && all is_collection_unit s ≡ true))
unfolding channel_name_matcher config_group_matcher msp_id_matcher version_matcher
    collection_matcher
matchers_iff s = (
  bounded_iff (Invalid.channel_name s) (matches channel_pattern s)
      (starts is_lower s && all is_channel_unit s) s
      (one_star_iff is_lower is_channel_unit (λ c h. rw h refl) s),
  bounded_iff (Invalid.config_group_name s) (matches group_pattern s)
      (not (is_empty s) && all is_group_unit s) s (plus_iff is_group_unit s),
  plus_iff is_group_unit s,
  plus_iff is_version_unit s,
  plus_star_iff is_collection_start is_collection_unit (λ c h. rw h refl) s,
)
