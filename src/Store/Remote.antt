-- ===== src/Store/Remote.antt =====
-- nodejs/operations.js and nodejs/fabric-gateway/contract.js: what a request asks for, and what its
-- outcome comes to. The requests and the gateway are parameters; a result is text once it is decoded.
use Prim.Native.String.{String}
use fabric_common.Base.{
  Bool, true, false, Option, none, some, List, ◌++◌, Text, codes, text_eq, is_empty, if◌then◌else◌,
}
use fabric_common.Base.Result.{Result, ok, err, ◌>>=◌}
use fabric_common.Endorsement.Check.{Bytes}
use fabric_common.Environment.Setting.{logging_level}

-- What a health check comes to: the result, the error of the request, or a result that is not OK.
pub data Unhealthy (X R : Type 0) : Type 0 where
  request_failed : X → Unhealthy X R
  not_ok : Text → R → Unhealthy X R

module _ {X R : Type 0} (get : Text → Result X R) (status : R → Text) where
  -- `health`
  unfoldable pub health : Text → Result (Unhealthy X R) R
  health base =
      let url = base ++ codes "/healthz" in
      elim (get url) [
        | err x ↦ err (request_failed x)
        | ok r ↦ if text_eq (status r) (codes "OK") then ok r else err (not_ok url r)
      ]

-- The url and the specification of `setLogLevel`; a level that is not in the table is undefined.
unfoldable pub set_log_level : Text → String → Text × String
set_log_level base level = (base ++ codes "/logspec", logging_level level)

-- A contract of the gateway.
pub record Call (Transient : Type 0) : Type 0 where
  pub fcn : Text
  pub params : List Text
  pub transient : Option Transient
  pub organizations : Option (List Text)

-- `getFcn`
abbrev pub get_fcn : Option Text → Text → Text
get_fcn none name = name
get_fcn (some sub) name = if is_empty sub then name else sub ++ codes ":" ++ name

-- The call of `[name, ...params]`; a call without a name is left out.
abbrev pub call_of :
    {Transient : Type 0}
    → Option Text
    → Text
    → List Text
    → Option Transient
    → Option (List Text)
    → Call Transient
call_of sub name params transient orgs = record {
  fcn = get_fcn sub name;
  params = params;
  transient = transient;
  organizations = orgs;
}

-- What a submission that is not waited for returns: its result can be taken at once.
module _ {X Transient Submitted : Type 0} (evaluate_call : Call Transient → Result X Bytes)
    (submit_call : Call Transient → Result X Bytes)
    (submit_async : Call Transient → Result X Submitted) (get_result : Submitted → Bytes)
    (decode : Bytes → Text) (sub : Option Text) where
  -- `evaluate`
  unfoldable pub evaluate : Text → List Text → Option Transient → Option (List Text) → Result X Text
  evaluate name params transient orgs =
      evaluate_call (call_of sub name params transient orgs) >>= λ b. ok (decode b)

  -- `submit`
  unfoldable pub submit :
      Text → List Text → Option Transient → Option (List Text) → Bool → Result X Text
  submit name params transient orgs true =
      submit_call (call_of sub name params transient orgs) >>= λ b. ok (decode b)
  submit name params transient orgs false =
      submit_async (call_of sub name params transient orgs) >>= λ s. ok (decode (get_result s))
