-- ===== src/Endorsement/Queries.antt =====
-- `QueryHub` of nodejs/query.js and `queryInstalledChaincodes` of nodejs/admin/lifecycleProposal.js,
-- on the outcome of `send`. The decoders are parameters, where `none` is a decoder that throws. The
-- messages to the logger are left out.
pub mod Laws
use fabric_common.Base.{
  ℕ, suc, Bool, true, false, Option, none, some, List, [], ◌∷◌, ◌++◌, map, ◌==◌, ◌&&◌, not, Text,
  codes, text_eq, starts_with, is_empty, keep, length, if◌then◌else◌,
}
use fabric_common.Base.Result.{Result, ok, err, ◌>>=◌}
use fabric_common.Endorsement.Check.{
  Bytes, Response, Verdict, Endorsement, Proposal, Verdicts, Thrown, endorse_error, decode_error,
  assertion_error, succeeded, without_payload, put_verdict, san_check,
}
use fabric_common.Endorsement.Lifecycle.{is_given, responses_of}

pub not_found_symptom : Text → Text
not_found_symptom tx_id =
    codes "Failed to get transaction with id "
    ++ tx_id
    ++ codes ", error no such transaction ID ["
    ++ tx_id
    ++ codes "] in index"

unfoldable pub is_not_found : Text → Endorsement → Bool
is_not_found tx_id e =
    e.response.status == 500 && text_eq e.response.message (not_found_symptom tx_id)

-- The reduction over the errors: the object of the verdicts and `notFoundCounter`.
unfoldable pub tally : Text → List Endorsement → Verdicts × ℕ → Verdicts × ℕ
tally tx_id [] acc = acc
tally tx_id (e ∷ es) (sum, n) =
    tally tx_id es (
      put_verdict e.url (without_payload e.response) sum,
      if is_not_found tx_id e then suc n else n,
    )

-- A response of a result whose errors have lost their payload.
pub record Seen : Type 0 where
  pub url : Text
  pub verdict : Verdict
  pub payload : Option Bytes

abbrev pub seen : Endorsement → Seen
seen e = record {
  url = e.url;
  verdict = without_payload e.response;
  payload = if succeeded e then some e.response.payload else none;
}

-- What `TxNotFound` returns: the result, or the result with the flag `NotFound`.
pub data Outcome (E : Type 0) : Type 0 where
  kept : Proposal E → Outcome E
  flagged : List Seen → Outcome E

-- `map` with a decoder that may throw.
unfoldable pub decode_each :
    {E A : Type 0} → (Bytes → Option A) → List Bytes → Result (Thrown E) (List A)
decode_each decode [] = ok []
decode_each decode (b ∷ bs) =
    let rest = decode_each decode bs in
    elim (decode b) [ none ↦ err decode_error | some a ↦ rest >>= λ as'. ok (a ∷ as') ]

module _ {E : Type 0} where
  abbrev pub judge : Proposal E → ℕ → Verdicts × ℕ → Result (Thrown E) (Outcome E)
  judge result total (sum, n) =
      if n == total then ok (flagged (map seen result.responses)) else err (endorse_error sum)

  abbrev pub tx_errors : Text → Proposal E → List Endorsement → Result (Thrown E) (Outcome E)
  tx_errors tx_id result [] = ok (kept result)
  tx_errors tx_id result (e ∷ es) = judge result (length (e ∷ es)) (tally tx_id (e ∷ es) ([], 0))

  -- `TxNotFound`
  unfoldable pub tx_not_found : Text → Proposal E → Result (Thrown E) (Outcome E)
  tx_not_found tx_id result = san_check result >>= λ failed. tx_errors tx_id result failed

  abbrev pub answer : {A : Type 0} → (Bytes → Option A) → Outcome E → Result (Thrown E) (List A)
  answer decode (flagged _) = ok []
  answer decode (kept result) = decode_each decode result.query_results

  -- `tx`
  unfoldable pub tx :
      {A : Type 0}
      → (Bytes → Option A)
      → Text
      → Result (Thrown E) (Proposal E)
      → Result (Thrown E) (List A)
  tx decode tx_id sent = sent >>= λ result. tx_not_found tx_id result >>= answer decode

-- The verdict of a peer that has joined the channel already.
unfoldable pub has_joined : Text → Verdict → Bool
has_joined channel v =
    v.status == 500
    && text_eq v.message (
        codes "cannot create ledger from genesis block: ledger ["
        ++ channel
        ++ codes "] already exists with state [ACTIVE]")

-- The loop over the errors: it ends at the first that is not spared.
abbrev pub each_joined : Text → Verdicts → Bool
each_joined channel [] = true
each_joined channel ((url, v) ∷ m) = has_joined channel v && each_joined channel m

module _ {E : Type 0} where
  -- `join`, on the outcome of `joinChannel`; it returns undefined where every peer had joined.
  unfoldable pub join :
      Text → Result (Thrown E) (Proposal E) → Result (Thrown E) (Option (Proposal E))
  unfolding has_joined
  join channel (ok result) =
      if is_empty result.errors then ok (some result) else err assertion_error
  join channel (err (endorse_error m)) =
      if each_joined channel m then ok none else err (endorse_error m)
  join channel (err x) = err x

-- The object from package ids to references.
abbrev pub Installed : Type 0 → Type 0
Installed R = List (Text × R)

pub put_installed {ℓ} : {R : Type ℓ} → Text → R → List (Text × R) → List (Text × R)
put_installed id r [] = (id, r) ∷ []
put_installed id r ((j, s) ∷ m) = if text_eq j id then (j, r) ∷ m else (j, s) ∷ put_installed id r m

pub gather {ℓ} : {R : Type ℓ} → List (Text × R) → List (Text × R) → List (Text × R)
unfolding put_installed
gather m [] = m
gather m ((id, r) ∷ es) = gather (put_installed id r m) es

module _ {R : Type 0} where
  -- The results of `queryInstalledChaincodes`: one object for each response.
  pub query_results :
      (Bytes → Option (Text × R))
      → (Bytes → Option (List (Text × R)))
      → Bool
      → List Response
      → Option (List (Installed R))
  unfolding gather
  query_results decode_one decode_many single [] = some []
  query_results decode_one decode_many single (r ∷ rs) =
      let rest = query_results decode_one decode_many single rs in
      let entry =
        if single
        then elim (decode_one r.payload) [ none ↦ none | some e ↦ some (e ∷ []) ]
        else elim (decode_many r.payload) [ none ↦ none | some es ↦ some (gather [] es) ] in
      elim entry [ none ↦ none | some e ↦ elim rest [ none ↦ none | some es ↦ some (e ∷ es) ] ]

  pub query_installed_chaincodes :
      {E : Type 0}
      → (Bytes → Option (Text × R))
      → (Bytes → Option (List (Text × R)))
      → Option Text
      → Result (Thrown E) (Proposal E)
      → Result (Thrown E) (List (Installed R))
  unfolding query_results
  query_installed_chaincodes decode_one decode_many package_id sent = sent >>= λ result.
      elim (query_results decode_one decode_many (is_given package_id) (responses_of result)) [
        | none ↦ err decode_error
        | some entries ↦ ok entries
      ]

  abbrev pub labelled : Text → Installed R → Installed R
  labelled label entry = keep (λ e. starts_with e.0 label) entry

  -- `chaincodesInstalled`: a label counts only where no package id is given.
  unfoldable pub chaincodes_installed :
      {E : Type 0}
      → (Bytes → Option (Text × R))
      → (Bytes → Option (List (Text × R)))
      → Option Text
      → Option Text
      → Result (Thrown E) (Proposal E)
      → Result (Thrown E) (List (Installed R))
  unfolding query_installed_chaincodes
  chaincodes_installed decode_one decode_many label package_id sent =
      query_installed_chaincodes decode_one decode_many package_id sent >>= λ entries. elim label [
        | none ↦ ok entries
        | some l ↦
            if is_empty l
            then ok entries
            else if is_given package_id
            then ok entries
            else ok (map (labelled l) entries)
      ]
