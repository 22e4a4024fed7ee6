-- ===== src/Endorsement/Check.antt =====
-- The checks of nodejs/admin/resultInterceptors.js on the answers of the endorsing peers. The type
-- `E` is that of the SDK's ServiceError. Where the code deletes the payload of a response, the error
-- that it throws holds the rest of the response, a `Verdict`.
pub mod Laws
use fabric_common.Base.{
  ℕ, Bool, true, false, Option, none, some, List, [], ◌∷◌, ◌==◌, ◌&&◌, if◌then◌else◌, not, Text,
  codes, text_eq, keep, is_empty,
}
use fabric_common.Base.Result.{Result, ok, err, ◌>>=◌}

abbrev pub Bytes : Type 0
Bytes = List ℕ

pub record Response : Type 0 where
  pub status : ℕ
  pub message : Text
  pub payload : Bytes

pub record Verdict : Type 0 where
  pub status : ℕ
  pub message : Text

-- A peer's answer, with the url of the connection that it came from.
pub record Endorsement : Type 0 where
  pub response : Response
  pub url : Text

pub record Proposal (E : Type 0) : Type 0 where
  pub errors : List E
  pub responses : List Endorsement
  pub query_results : List Bytes

-- The object from urls to verdicts.
abbrev pub Verdicts : Type 0
Verdicts = List (Text × Verdict)

-- What the code throws: the errors that it makes, the failure of an assertion, the decoder's, the one
-- of a file that cannot be read, and the SDK's.
pub data Thrown (E : Type 0) : Type 0 where
  system_error : List E → Thrown E
  endorse_error : Verdicts → Thrown E
  commit_error : Text → Text → Thrown E
  assertion_error decode_error read_error : Thrown E
  service_error : E → Thrown E

pub record Commit : Type 0 where
  pub status : Text
  pub info : Text

abbrev pub succeeded : Endorsement → Bool
succeeded e = e.response.status == 200

-- `delete response.payload`
abbrev pub without_payload : Response → Verdict
without_payload r = record { status = r.status; message = r.message }

-- `sum[connection.url] = response`
unfoldable pub put_verdict : Text → Verdict → Verdicts → Verdicts
put_verdict url v [] = (url, v) ∷ []
put_verdict url v ((u, w) ∷ m) = if text_eq u url then (u, v) ∷ m else (u, w) ∷ put_verdict url v m

unfoldable pub collect : Verdicts → List Endorsement → Verdicts
unfolding put_verdict
collect sum [] = sum
collect sum (e ∷ es) = collect (put_verdict e.url (without_payload e.response) sum) es

-- `errorsFilter`, or what stands for it where none is given.
abbrev pub filter_or_all : Option (Endorsement → Bool) → Endorsement → Bool
filter_or_all none e = true
filter_or_all (some f) e = f e

module _ {E : Type 0} where
  -- `SanCheck`
  unfoldable pub san_check : Proposal E → Result (Thrown E) (List Endorsement)
  san_check result =
      if is_empty result.errors
      then ok (keep (λ e. not (succeeded e)) result.responses)
      else err (system_error result.errors)

  -- The error for the answers that count as errors, if there are any.
  abbrev pub refuse : List Endorsement → Proposal E → Result (Thrown E) (Proposal E)
  refuse [] result = ok result
  refuse (e ∷ es) result = err (endorse_error (collect [] (e ∷ es)))

  -- `EndorseALL`
  unfoldable pub endorse_all :
      Option (Endorsement → Bool) → Proposal E → Result (Thrown E) (Proposal E)
  unfolding san_check
  endorse_all errors_filter result =
      san_check result >>= λ failed. refuse (keep (filter_or_all errors_filter) failed) result

  -- `CommitSuccess`
  unfoldable pub commit_success : Commit → Result (Thrown E) Commit
  commit_success result =
      if text_eq result.status (codes "SUCCESS") && is_empty result.info
      then ok result
      else err (commit_error result.status result.info)
