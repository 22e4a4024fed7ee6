-- ===== src/Endorsement/Lifecycle.antt =====
-- `LifecycleProposal` of nodejs/admin/lifecycleProposal.js. The protobuf encoders and decoders are
-- parameters, where `none` is a decoder that throws; a name that is not given is `none`. What the
-- calls send to the peers, the SDK's `send` does.
pub mod Laws
use fabric_common.Base.{
  ℕ, ◌≡◌, Bool, true, false, Option, none, some, List, [], ◌∷◌, ◌++◌, map, ◌==◌, ◌&&◌, not, Text,
  codes, text_eq, starts_with, is_empty, all, if◌then◌else◌,
}
use fabric_common.Base.Result.{Result, ok, err, ◌>>=◌}
use fabric_common.Base.Decimal.{print_int}
use fabric_common.Endorsement.Check.{
  Bytes, Response, Endorsement, Proposal, Thrown, decode_error, read_error, endorse_all,
}
use fabric_common.Endorsement.Manager.{Request, Sdk, Handler, Manager, set_result_handler, send}

-- A string as a condition.
abbrev pub is_given : Option Text → Bool
is_given none = false
is_given (some s) = not (is_empty s)

-- `${name}`
abbrev pub shown : Option Text → Text
shown none = codes "undefined"
shown (some s) = s

pub installed_prefix : Text
installed_prefix =
    codes
      "failed to invoke backing implementation of 'InstallChaincode': chaincode already successfully installed"

pub installed_message : Option Text → Text
unfolding installed_prefix
installed_message package_id =
    installed_prefix ++ codes " (package ID '" ++ shown package_id ++ codes "')"

-- `hasInstalled`
unfoldable pub has_installed : Option Text → Response → Bool
unfolding installed_message
has_installed package_id r =
    let match =
      if is_given package_id
      then text_eq r.message (installed_message package_id)
      else starts_with r.message installed_prefix in
    r.status == 500 && match

pub no_change_message : Text → ℕ → Text
no_change_message chaincode_id sequence =
    codes
      "failed to invoke backing implementation of 'ApproveChaincodeDefinitionForMyOrg': attempted to redefine uncommitted sequence ("
    ++ print_int sequence
    ++ codes ") for namespace "
    ++ chaincode_id
    ++ codes " with unchanged content"

-- `hasNoChange`
unfoldable pub has_no_change : Text → ℕ → Response → Bool
unfolding no_change_message
has_no_change chaincode_id sequence r =
    r.status == 500
    && text_eq r.message (no_change_message chaincode_id sequence)
    && is_empty r.payload

-- `hasNoDefinition`
unfoldable pub has_no_definition : Option Text → Response → Bool
has_no_definition chaincode_id r =
    r.status == 404
    && text_eq r.message (codes "namespace " ++ shown chaincode_id ++ codes " is not defined")
    && is_empty r.payload

abbrev pub sparing : (Response → Bool) → Option (Endorsement → Bool)
sparing spared = some (λ e. not (spared e.response))

module _ {E : Type 0} where
  abbrev pub skip_if_installed : Option Text → Handler E
  skip_if_installed package_id = endorse_all (sparing (has_installed package_id))

  abbrev pub skip_if_no_change : Text → ℕ → Handler E
  skip_if_no_change chaincode_id sequence =
      endorse_all (sparing (has_no_change chaincode_id sequence))

  abbrev pub skip_if_no_definition : Option Text → Handler E
  skip_if_no_definition chaincode_id =
      if is_given chaincode_id
      then endorse_all (sparing (has_no_definition chaincode_id))
      else endorse_all none

-- What the calls return: the SDK's result with the fields that they add.
pub record Answer (E A : Type 0) : Type 0 where
  pub result : Proposal E
  pub flag : Bool
  pub query_results : List A

abbrev pub responses_of : {E : Type 0} → Proposal E → List Response
responses_of r = map (λ e. e.response) r.responses

-- `responses.map(…)` with a decoder that may throw.
unfoldable pub decode_all :
    {E A : Type 0} → (Bytes → Option A) → List Response → Result (Thrown E) (List A)
decode_all decode [] = ok []
decode_all decode (r ∷ rs) = elim (decode r.payload) [
  | none ↦ err decode_error
  | some a ↦ decode_all decode rs >>= λ rest. ok (a ∷ rest)
]

-- What is set for `_propertyAssign`; `none` is undefined. A message without `init_required` reads as
-- one where it is false.
pub record Properties (Collections : Type 0) : Type 0 where
  pub endorsement_plugin : Option Text
  pub init_required : Bool
  pub validation_plugin : Option Text
  pub validation_parameter : Option Bytes
  pub collections : Option Collections

-- The source of a chaincode that an organisation approves.
pub data Source : Type 0 where
  local_package : Text → Source
  unavailable : Source

-- The arguments of the calls on a definition: what `_propertyAssign` adds stands in `properties`.
pub record Definition (Collections : Type 0) : Type 0 where
  pub name : Text
  pub version : Text
  pub sequence : ℕ
  pub source : Option Source
  pub properties : Properties Collections

abbrev pub keep_given : Option Text → Option Text
keep_given s = if is_given s then s else none

-- `_propertyAssign` on a message that has none of the properties.
unfoldable pub property_assign :
    {Collections : Type 0} → Properties Collections → Properties Collections
property_assign p = record p {
  endorsement_plugin = keep_given p.endorsement_plugin;
  validation_plugin = keep_given p.validation_plugin;
}

abbrev pub source_of : Option Text → Source
source_of none = unavailable
source_of (some []) = unavailable
source_of (some (c ∷ s)) = local_package (c ∷ s)

abbrev pub request : Text → List Bytes → Request
request fcn args = record {
  fcn = fcn;
  args = args;
  transient_map = none;
  init = false;
  nonce = none;
  generate_transaction_id = true;
}

module _ {E Payload Signed : Type 0} (sdk : Sdk E Payload Signed) where
  abbrev pub label :
      {Label : Type 0}
      → Option Text
      → Proposal E
      → Manager E Payload
      → Result (Thrown E) (List Label)
      → Result (Thrown E) (Answer E Label) × Manager E Payload
  label package_id result m (err x) = (err x, m)
  label package_id result m (ok labels) = (
    ok record {
      result = result;
      flag = all (has_installed package_id) (responses_of result);
      query_results = labels;
    },
    set_result_handler sdk none m,
  )

  -- What `installChaincode` does after `send`: a call that throws skips the reset of the handler.
  abbrev pub finish_install :
      {Label : Type 0}
      → (Bytes → Option Label)
      → Option Text
      → Result (Thrown E) (Proposal E) × Manager E Payload
      → Result (Thrown E) (Answer E Label) × Manager E Payload
  finish_install decode package_id (err x, m) = (err x, m)
  finish_install decode package_id (ok result, m) =
      label package_id result m (decode_all decode (responses_of result))

  -- `installChaincode`, on what `fs.readFileSync` makes of the path of the package: `none` where it
  -- throws, before a handler is set.
  unfoldable pub install_chaincode :
      {Label : Type 0}
      → (Bytes → Bytes)
      → (Bytes → Option Label)
      → Option Bytes
      → Option Text
      → Option ℕ
      → Manager E Payload
      → Result (Thrown E) (Answer E Label) × Manager E Payload
  install_chaincode encode decode none package_id timeout m = (err read_error, m)
  install_chaincode encode decode (some content) package_id timeout m =
      let started = set_result_handler sdk (some (skip_if_installed package_id)) m in
      finish_install decode package_id
        (send sdk (request (codes "InstallChaincode") (encode content ∷ [])) timeout started)

  -- `approveForMyOrg`
  unfoldable pub approve_for_my_org :
      {Collections : Type 0}
      → (Definition Collections → Bytes)
      → Text
      → Text
      → ℕ
      → Option Text
      → Properties Collections
      → Manager E Payload
      → Result (Thrown E) (Answer E Unit) × Manager E Payload
  unfolding property_assign has_no_change
  approve_for_my_org {Collections = Collections} encode name version sequence package_id properties
        m =
      let args : Definition Collections = record {
        name = name;
        version = version;
        sequence = sequence;
        source = some (source_of package_id);
        properties = property_assign properties;
      } in
      let started = set_result_handler sdk (some (skip_if_no_change name sequence)) m in
      let (sent, next) =
        send sdk (request (codes "ApproveChaincodeDefinitionForMyOrg") (encode args ∷ [])) none
          started in
      (
        sent >>= λ result. ok record {
          result = result;
          flag = all (has_no_change name sequence) (responses_of result);
          query_results = [];
        },
        next,
      )

  -- `checkCommitReadiness` and `commitChaincodeDefinition`, which keep the handler that is set.
  pub check_commit_readiness :
      {Collections Approvals : Type 0}
      → (Definition Collections → Bytes)
      → (Bytes → Option Approvals)
      → Text
      → Text
      → ℕ
      → Properties Collections
      → Manager E Payload
      → Result (Thrown E) (Answer E Approvals) × Manager E Payload
  unfolding property_assign decode_all
  check_commit_readiness {Collections = Collections} encode decode name version sequence properties
        m =
      let args : Definition Collections = record {
        name = name;
        version = version;
        sequence = sequence;
        source = none;
        properties = property_assign properties;
      } in
      let (sent, next) =
        send sdk (request (codes "CheckCommitReadiness") (encode args ∷ [])) none m in
      (
        sent >>= λ result. decode_all decode (responses_of result) >>= λ approvals.
            ok record { result = result; flag = false; query_results = approvals },
        next,
      )

  unfoldable pub commit_chaincode_definition :
      {Collections : Type 0}
      → (Definition Collections → Bytes)
      → Text
      → Text
      → ℕ
      → Properties Collections
      → Manager E Payload
      → Result (Thrown E) (Proposal E) × Manager E Payload
  unfolding property_assign
  commit_chaincode_definition {Collections = Collections} encode name version sequence properties
        m =
      let args : Definition Collections = record {
        name = name;
        version = version;
        sequence = sequence;
        source = none;
        properties = property_assign properties;
      } in
      send sdk (request (codes "CommitChaincodeDefinition") (encode args ∷ [])) none m

  -- `queryChaincodeDefinition`; `decode_one` and `decode_many` are the decoders with the amendments.
  unfoldable pub query_chaincode_definition :
      {A : Type 0}
      → (Text → Bytes)
      → (Bytes → Option A)
      → (Bytes → Option A)
      → Option Text
      → Manager E Payload
      → Result (Thrown E) (Answer E A) × Manager E Payload
  unfolding decode_all has_no_definition
  query_chaincode_definition encode decode_one decode_many name m =
      let started = set_result_handler sdk (some (skip_if_no_definition name)) m in
      let q =
        if is_given name
        then request (codes "QueryChaincodeDefinition") (encode (shown name) ∷ [])
        else request (codes "QueryChaincodeDefinitions") ([] ∷ []) in
      let (sent, next) = send sdk q none started in
      (
        sent >>= λ result.
            decode_all (if is_given name then decode_one else decode_many) (responses_of result)
            >>= λ found. ok record {
              result = result;
              flag = all (has_no_definition name) (responses_of result);
              query_results = found;
            },
        next,
      )
