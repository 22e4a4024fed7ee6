-- ===== src/Client/Discovery.antt =====
-- `SlimDiscoveryService` of nodejs/admin/discovery.js and `discoveryChaincodeInterestBuilder` of
-- nodejs/serviceDiscovery.js. The envelope, its signature and the sending are the SDK's.
use fabric_common.Base.{ℕ, Bool, false, Option, none, some, List, map, if◌then◌else◌, Text}
use fabric_common.Base.Result.{Result, ok, err}

-- What `target.sendDiscovery` returns: an Error is a value there.
pub data Response (Error Found : Type 0) : Type 0 where
  is_error : Error → Response Error Found
  found : Found → Response Error Found

pub record Service (Target : Type 0) : Type 0 where
  pub request_timeout : ℕ
  pub current_target : Target

pub record SendRequest (Target : Type 0) : Type 0 where
  pub request_timeout : Option ℕ
  pub target : Option Target

abbrev pub default : {A : Type 0} → A → Option A → A
default d none = d
default d (some a) = a

module _ {Error Found Target Envelope : Type 0}
    (send_discovery : Target → Envelope → ℕ → Result Error (Response Error Found)) where
  -- `send`
  unfoldable pub send : Envelope → SendRequest Target → Service Target → Result Error Found
  send envelope request service =
      elim (send_discovery (default service.current_target request.target) envelope
        (default service.request_timeout request.request_timeout)) [
          | err x ↦ err x
          | ok (is_error x) ↦ err x
          | ok (found r) ↦ ok r
        ]

-- The flags of a query; `none` is null.
pub record Query (Interest : Type 0) : Type 0 where
  pub config : Option Bool
  pub local : Option Bool
  pub interest : Option Interest

abbrev pub is_set : Option Bool → Bool
is_set none = false
is_set (some b) = b

-- What `build` asks the SDK to build.
unfoldable pub build : {Interest : Type 0} → Query Interest → Query Interest
build q = if is_set q.config then record q { local = some false } else q

-- The collections that a caller names for a chaincode, if they are an array.
pub record ChaincodeCall : Type 0 where
  pub name : Text
  pub collection_names : Option (List Text)

abbrev pub discovery_chaincode_interest_builder :
    List (Text × Option (List Text)) → List ChaincodeCall
discovery_chaincode_interest_builder configs =
    map (λ c. record { name = c.0; collection_names = c.1 }) configs
