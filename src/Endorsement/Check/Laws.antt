-- ===== src/Endorsement/Check/Laws.antt =====
-- What the checks of the endorsements let pass, and what their errors name.
use fabric_common.Base.{
  ◌≡◌, refl, sym, ap, ◌∙◌, ◌⊎◌, inl, inr, Bool, true, false, Option, List, [], ◌∷◌, ◌&&◌, ◌||◌, not,
  Text, text_eq, text_eq_iff, keep, is_empty, all, any, arith, Bool-cases,
}
use fabric_common.Base.Result.{ok, err, ok_inj}
use fabric_common.Endorsement.Check.{
  Verdict, Endorsement, Proposal, Verdicts, system_error, endorse_error, succeeded, without_payload,
  put_verdict, collect, san_check, filter_or_all, refuse, endorse_all,
}

-- An answer that counts as an error.
abbrev pub is_failure : Option (Endorsement → Bool) → Endorsement → Bool
is_failure f e = not (succeeded e) && filter_or_all f e

abbrev pub names : Verdicts → Text → Bool
names [] url = false
names ((u, v) ∷ m) url = text_eq u url || names m url

names-put_verdict :
    (u : Text) (v : Verdict) (m : Verdicts) (url : Text)
    → names (put_verdict u v m) url ≡ (text_eq u url || names m url)
unfolding put_verdict
names-put_verdict u v [] url = refl
names-put_verdict u v ((w, x) ∷ m) url = elim (Bool-cases (text_eq w u)) [
  | inl t ↦ rw t (rw (sym ((text_eq_iff w u).0 t)) (ground (arith)))
  | inr t ↦ rw t (ground (arith, names-put_verdict u v m url))
]

names-collect :
    (sum : Verdicts) (es : List Endorsement) (url : Text)
    → names (collect sum es) url ≡ (names sum url || any (λ e. text_eq e.url url) es)
unfolding collect
names-collect sum [] url = ground arith
names-collect sum (e ∷ es) url =
    names-collect (put_verdict e.url (without_payload e.response) sum) es url
    ∙ ground (arith, names-put_verdict e.url (without_payload e.response) sum url)

cases {ℓ} : {A : Type ℓ} (xs : List A) → (xs ≡ []) ⊎ ((x : A) × (ys : List A) × (xs ≡ x ∷ ys))
cases [] = inl refl
cases (x ∷ xs) = inr (x, xs, refl)

-- The errors among the answers.
abbrev failures : Option (Endorsement → Bool) → List Endorsement → List Endorsement
failures f es = keep (filter_or_all f) (keep (λ e. not (succeeded e)) es)

all-failures :
    (f : Option (Endorsement → Bool)) (es : List Endorsement)
    → is_empty (failures f es) ≡ all (λ e. not (is_failure f e)) es
all-failures f [] = refl
all-failures f (e ∷ es) = elim (Bool-cases (succeeded e)) [
  | inl t ↦ rw t (all-failures f es)
  | inr t ↦ elim (Bool-cases (filter_or_all f e)) [
    | inl u ↦ rw (t, u) refl
    | inr u ↦ rw (t, u) (all-failures f es)
  ]
]

any-failures :
    (f : Option (Endorsement → Bool)) (url : Text) (es : List Endorsement)
    → any (λ e. text_eq e.url url) (failures f es)
      ≡ any (λ e. is_failure f e && text_eq e.url url) es
any-failures f url [] = refl
any-failures f url (e ∷ es) = elim (Bool-cases (succeeded e)) [
  | inl t ↦ rw t (any-failures f url es)
  | inr t ↦ elim (Bool-cases (filter_or_all f e)) [
    | inl u ↦ rw (t, u) (ap (λ b. text_eq e.url url || b) (any-failures f url es))
    | inr u ↦ rw (t, u) (any-failures f url es)
  ]
]

module _ {E : Type 0} where
  -- The check returns the result itself where the SDK reports no error and every answer has status
  -- 200 or is spared by the filter. Otherwise it throws: the SDK's errors, if there are any, and else
  -- an object that names a url exactly if an answer that counts as an error came from there.
  pub endorse_all-names :
      (f : Option (Endorsement → Bool)) (r : Proposal E) (url : Text)
      → ((endorse_all f r ≡ ok r)
          × (is_empty r.errors ≡ true)
          × (all (λ e. not (is_failure f e)) r.responses ≡ true))
        ⊎ ((endorse_all f r ≡ err (system_error r.errors)) × (is_empty r.errors ≡ false))
        ⊎ ((m : Verdicts) × (endorse_all f r ≡ err (endorse_error m))
            × (is_empty r.errors ≡ true)
            × (all (λ e. not (is_failure f e)) r.responses ≡ false)
            × (names m url ≡ any (λ e. is_failure f e && text_eq e.url url) r.responses))
  unfolding endorse_all san_check
  endorse_all-names f r url = elim (Bool-cases (is_empty r.errors)) [
    | inr h ↦ inr (inl (rw h refl, h))
    | inl h ↦ elim (cases (failures f r.responses)) [
      | inl e ↦
          inl (rw h (ap (λ xs. refuse xs r) e), h, sym (all-failures f r.responses) ∙ ap is_empty e)
      | inr (x, xs, e) ↦ inr (
          inr (
            collect [] (x ∷ xs),
            rw h (ap (λ ys. refuse ys r) e),
            h,
            sym (all-failures f r.responses) ∙ ap is_empty e,
            names-collect [] (x ∷ xs) url
                ∙ ap (any (λ i. text_eq i.url url)) (sym e)
                ∙ any-failures f url r.responses,
          ))
    ]
  ]

  -- What the check passes, it passes unchanged, with no error among the answers.
  pub endorse_all-ok :
      (f : Option (Endorsement → Bool)) (r out : Proposal E)
      → endorse_all f r ≡ ok out
      → (out ≡ r)
        × (is_empty r.errors ≡ true)
        × (all (λ e. not (is_failure f e)) r.responses ≡ true)
  endorse_all-ok f r out h = elim (endorse_all-names f r []) [
    | inl (k, c, d) ↦ (ok_inj (sym h ∙ k), c, d)
    | inr (inl (k, c)) ↦ absurd (cc)
    | inr (inr (m, k, c, d, e)) ↦ absurd (cc)
  ]
