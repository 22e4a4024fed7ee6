-- ===== src/Endorsement/Queries/Laws.antt =====
-- What the queries make of the answers.
use fabric_common.Base.{
  ℕ, suc, ◌+◌, ◌≤◌, ◌≡◌, refl, sym, ap, ◌∙◌, ◌⊎◌, inl, inr, Bool, true, false, Option, none, some,
  List, [], ◌∷◌, map, ◌&&◌, ◌||◌, ◌==◌, not, Text, is_empty, all, keep, length, arith, Bool-cases,
  if◌then◌else◌, text_eq, Option-cases, any,
}
use mathlib.Core.Path.{subst}
use fabric_common.Base.Result.{Result, ok, err, ◌>>=◌}
use fabric_common.Endorsement.Check.{
  Bytes, Verdict, Endorsement, Proposal, Verdicts, Thrown, decode_error, system_error,
  endorse_error, succeeded, without_payload, put_verdict, collect, san_check, filter_or_all, refuse,
  endorse_all,
}
use fabric_common.Endorsement.Queries.{
  is_not_found, tally, flagged, tx_errors, tx_not_found, tx, has_joined, each_joined, join, seen,
  answer, decode_each,
}

abbrev pub is_missing : {A : Type 0} → Option A → Bool
is_missing none = true
is_missing (some _) = false

tally-le :
    (tx_id : Text) (es : List Endorsement) (acc : Verdicts × ℕ)
    → (tally tx_id es acc).1 ≤ acc.1 + length es
unfolding tally
tally-le tx_id [] (sum, n) = omega arith
tally-le tx_id (e ∷ es) (sum, n) =
    let acc : Verdicts × ℕ = (
      put_verdict e.url (without_payload e.response) sum,
      if is_not_found tx_id e then suc n else n,
    ) in
    ground (arith, tally-le tx_id es acc)

-- The counter reaches the number of the errors exactly if each of them is "not found".
tally-all :
    (tx_id : Text) (es : List Endorsement) (sum : Verdicts) (n total : ℕ)
    → total ≡ n + length es
    → ((tally tx_id es (sum, n)).1 == total) ≡ all (is_not_found tx_id) es
unfolding tally
tally-all tx_id [] sum n total h = ground arith
tally-all tx_id (e ∷ es) sum n total h =
    let sum' = put_verdict e.url (without_payload e.response) sum in
    elim (Bool-cases (is_not_found tx_id e)) [
      | inl t ↦ rw (t, tally) (tally-all tx_id es sum' (suc n) total (omega arith))
      | inr t ↦ rw (t, tally) (ground (arith, tally-le tx_id es (sum', n)))
    ]

cases {ℓ} : {A : Type ℓ} (xs : List A) → (xs ≡ []) ⊎ ((x : A) × (ys : List A) × (xs ≡ x ∷ ys))
cases [] = inl refl
cases (x ∷ xs) = inr (x, xs, refl)

both : (a b : Bool) → (a && b) ≡ true → (a ≡ true) × (b ≡ true)
both true true h = (refl, refl)
both true false h = absurd (cc)
both false b h = absurd (cc)

-- The answers that do not have status 200.
abbrev failed : List Endorsement → List Endorsement
failed = keep (λ e. not (succeeded e))

is_empty-failed : (es : List Endorsement) → is_empty (failed es) ≡ all succeeded es
is_empty-failed [] = refl
is_empty-failed (e ∷ es) = elim (Bool-cases (succeeded e)) [
  | inl t ↦ rw t (is_empty-failed es)
  | inr t ↦ rw t refl
]

all-failed :
    (p : Endorsement → Bool) (es : List Endorsement)
    → all p (failed es) ≡ all (λ e. succeeded e || p e) es
all-failed p [] = refl
all-failed p (e ∷ es) = elim (Bool-cases (succeeded e)) [
  | inl t ↦ rw t (all-failed p es)
  | inr t ↦ rw t (ap (λ b. p e && b) (all-failed p es))
]

module _ {E : Type 0} where
  judged :
      (tx_id : Text) (r : Proposal E) (e : Endorsement) (es : List Endorsement)
      → ((all (is_not_found tx_id) (e ∷ es) ≡ true)
          × ((xs : List _) × (tx_errors tx_id r (e ∷ es) ≡ ok (flagged xs))))
        ⊎ ((all (is_not_found tx_id) (e ∷ es) ≡ false)
            × ((m : Verdicts) × (tx_errors tx_id r (e ∷ es) ≡ err (endorse_error m))))
  judged tx_id r e es =
      let acc = tally tx_id (e ∷ es) ([], 0) in
      let test : (acc.1 == length (e ∷ es)) ≡ all (is_not_found tx_id) (e ∷ es) =
        tally-all tx_id (e ∷ es) [] 0 (length (e ∷ es)) (omega arith) in
      elim (Bool-cases (all (is_not_found tx_id) (e ∷ es))) [
        | inl t ↦ inl (t, (map seen r.responses, rw (test, t) refl))
        | inr t ↦ inr (t, (acc.0, rw (test, t) refl))
      ]

  -- What comes of the decoding of all of them.
  abbrev pub AreDecoded :
      {A : Type 0} → (Bytes → Option A) → List Bytes → Result (Thrown E) (List A) → Type 0
  AreDecoded {A = A} decode bs r =
      ((as' : List A) × (map decode bs ≡ map some as') × (r ≡ ok as'))
      ⊎ ((any (λ b. is_missing (decode b)) bs ≡ true) × (r ≡ err decode_error))

  decode_each-AreDecoded :
      {A : Type 0} (decode : Bytes → Option A) (bs : List Bytes)
      → AreDecoded decode bs (decode_each decode bs)
  unfolding decode_each
  decode_each-AreDecoded decode [] = inl ([], refl, refl)
  decode_each-AreDecoded decode (b ∷ bs) = elim (Option-cases (decode b)) [
    | inl h ↦ inr (rw h refl, rw (h, decode_each) refl)
    | inr (a, h) ↦ elim (decode_each-AreDecoded decode bs) [
      | inl (as', k, e) ↦
          inl (
            a ∷ as',
            rw h (ap (λ xs. some a ∷ xs) k),
            rw (h, decode_each) (rw (e, decode_each) refl),
          )
      | inr (k, e) ↦ inr (rw h k, rw (h, decode_each) (rw (e, decode_each) refl))
    ]
  ]

  -- The search for a transaction: it throws what the SDK reports; where every answer has status 200
  -- it returns the decoded results, in order, or throws the decoder's error where one cannot be
  -- decoded; it returns nothing where some answers have another status and each of these says "not
  -- found". On any other failure among the answers it throws.
  pub tx-is_not_found :
      {A : Type 0} (decode : Bytes → Option A) (tx_id : Text) (r : Proposal E)
      → ((is_empty r.errors ≡ false) × (tx decode tx_id (ok r) ≡ err (system_error r.errors)))
        ⊎ ((is_empty r.errors ≡ true)
            × (all succeeded r.responses ≡ true)
            × AreDecoded decode r.query_results (tx decode tx_id (ok r)))
        ⊎ ((is_empty r.errors ≡ true)
            × (all succeeded r.responses ≡ false)
            × (all (λ e. succeeded e || is_not_found tx_id e) r.responses ≡ true)
            × (tx decode tx_id (ok r) ≡ ok []))
        ⊎ ((is_empty r.errors ≡ true)
            × (all (λ e. succeeded e || is_not_found tx_id e) r.responses ≡ false)
            × ((m : Verdicts) × (tx decode tx_id (ok r) ≡ err (endorse_error m))))
  unfolding tx tx_not_found san_check
  tx-is_not_found decode tx_id r = elim (Bool-cases (is_empty r.errors)) [
    | inr h ↦ inl (h, rw h refl)
    | inl h ↦ elim (cases (failed r.responses)) [
      | inl e ↦ inr (
          inl (
            h,
            sym (is_empty-failed r.responses) ∙ ap is_empty e,
            subst (AreDecoded decode r.query_results)
                (sym (rw h (ap (λ xs. tx_errors tx_id r xs >>= answer decode) e)))
                (decode_each-AreDecoded decode r.query_results),
          ))
      | inr (x, xs, e) ↦
          let none_ok = sym (is_empty-failed r.responses) ∙ ap is_empty e in
          let test =
            sym (all-failed (is_not_found tx_id) r.responses) ∙ ap (all (is_not_found tx_id)) e in
          elim (judged tx_id r x xs) [
            | inl (t, (ys, k)) ↦ inr (
                inr (
                  inl (
                    h,
                    none_ok,
                    test ∙ t,
                    rw h (
                        ap (λ zs. tx_errors tx_id r zs >>= answer decode) e
                        ∙ ap (λ o. o >>= answer decode) k),
                  )))
            | inr (t, (m, k)) ↦ inr (
                inr (
                  inr (
                    h,
                    test ∙ t,
                    (
                      m,
                      rw h (
                          ap (λ zs. tx_errors tx_id r zs >>= answer decode) e
                          ∙ ap (λ o. o >>= answer decode) k),
                    ),
                  )))
          ]
    ]
  ]

each_joined-put_verdict :
    (channel u : Text) (v : Verdict) (m : Verdicts)
    → has_joined channel v ≡ true
    → each_joined channel m ≡ true
    → each_joined channel (put_verdict u v m) ≡ true
unfolding put_verdict
each_joined-put_verdict channel u v [] h k = rw h refl
each_joined-put_verdict channel u v ((w, x) ∷ m) h k = elim (Bool-cases (text_eq w u)) [
  | inl t ↦ rw t (ground (arith))
  | inr t ↦ rw t (ground (arith, each_joined-put_verdict channel u v m))
]

each_joined-collect :
    (channel : Text) (sum : Verdicts) (es : List Endorsement)
    → each_joined channel sum ≡ true
    → all (λ e. has_joined channel (without_payload e.response)) es ≡ true
    → each_joined channel (collect sum es) ≡ true
unfolding collect
each_joined-collect channel sum [] h k = h
each_joined-collect channel sum (e ∷ es) h k =
    let (a, b) =
      both (has_joined channel (without_payload e.response))
        (all (λ i. has_joined channel (without_payload i.response)) es) k in
    each_joined-collect channel (put_verdict e.url (without_payload e.response) sum) es
      (each_joined-put_verdict channel e.url (without_payload e.response) sum a h) b

keep_all : (xs : List Endorsement) → keep (filter_or_all none) xs ≡ xs
keep_all [] = refl
keep_all (x ∷ xs) = ap (λ ys. x ∷ ys) (keep_all xs)

module _ {E : Type 0} where
  -- A join of peers each of which answers with status 200, or that it has joined the channel already,
  -- returns, where the SDK reports no error: the result if all took it, and undefined if some had
  -- joined before.
  pub join-has_joined :
      (channel : Text) (r : Proposal E)
      → is_empty r.errors ≡ true
      → all (λ e. succeeded e || has_joined channel (without_payload e.response)) r.responses ≡ true
      → ((all succeeded r.responses ≡ true) × (join channel (endorse_all none r) ≡ ok (some r)))
        ⊎ ((all succeeded r.responses ≡ false) × (join channel (endorse_all none r) ≡ ok none))
  unfolding join endorse_all san_check
  join-has_joined channel r h k = elim (cases (failed r.responses)) [
    | inl e ↦ inl (
      sym (is_empty-failed r.responses) ∙ ap is_empty e,
      rw h (ap (λ xs. join channel (refuse (keep (filter_or_all none) xs) r)) e ∙ rw h refl),
    )
    | inr (x, xs, e) ↦
        let joined =
          sym (ap (all (λ i. has_joined channel (without_payload i.response))) e)
          ∙ all-failed (λ i. has_joined channel (without_payload i.response)) r.responses
          ∙ k in
        inr (
          sym (is_empty-failed r.responses) ∙ ap is_empty e,
          rw h (
              ap (λ ys. join channel (refuse (keep (filter_or_all none) ys) r)) e
              ∙ rw (keep_all xs, each_joined-collect channel [] (x ∷ xs) refl joined) refl),
        )
  ]
