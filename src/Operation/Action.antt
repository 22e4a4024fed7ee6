-- ===== src/Operation/Action.antt =====
-- `ChaincodeAction` of nodejs/chaincodeAction.js: its connections, and the choice of an event hub. A
-- connection to an endpoint may throw; `S` is the state of the endpoints.
use fabric_common.Base.{Option, none, some, List, [], ◌∷◌, map}
use fabric_common.Base.Result.{Result, ok, err}

pub data Kind : Type 0 where
  endorsers eventers : Kind

-- `Hub` is what the action makes of an eventer: it is `undefined` where there is none.
pub record Action (Endorser Eventer Hub : Type 0) : Type 0 where
  pub endorser_list : List Endorser
  pub eventer_list : List Eventer
  pub new_event_hub_of : Eventer → Hub
  pub event_selector : List Hub → Option Hub

abbrev pub default_event_hub_selector : {Hub : Type 0} → List Hub → Option Hub
default_event_hub_selector [] = none
default_event_hub_selector (h ∷ hs) = some h

module _ {S X : Type 0} where
  abbrev pub then_run :
      Result X (Unit {0}) × S → (S → Result X (Unit {0}) × S) → Result X (Unit {0}) × S
  then_run (err x, s) k = (err x, s)
  then_run (ok _, s) k = k s

  -- A loop that awaits a call on each endpoint.
  unfoldable pub await_each :
      {Endpoint : Type 0}
      → (Endpoint → S → Result X (Unit {0}) × S)
      → List Endpoint
      → S
      → Result X (Unit {0}) × S
  await_each call [] s = (ok tt, s)
  await_each call (e ∷ es) s = then_run (call e s) (await_each call es)

module _ {S X Endorser Eventer Hub : Type 0}
    (endorser_call : Endorser → S → Result X (Unit {0}) × S)
    (eventer_call : Eventer → S → Result X (Unit {0}) × S) where
  -- `connect` and `disconnect`, which differ in the call.
  unfoldable pub connect : Option Kind → Action Endorser Eventer Hub → S → Result X (Unit {0}) × S
  unfolding await_each
  connect (some endorsers) a s = await_each endorser_call a.endorser_list s
  connect (some eventers) a s = await_each eventer_call a.eventer_list s
  connect none a s =
      then_run (await_each endorser_call a.endorser_list s) (await_each eventer_call a.eventer_list)

module _ {Endorser Eventer Hub : Type 0} where
  abbrev pub new_event_hubs : Action Endorser Eventer Hub → List Hub
  new_event_hubs a = map a.new_event_hub_of a.eventer_list

  unfoldable pub new_event_hub : Action Endorser Eventer Hub → Option Hub
  new_event_hub a = a.event_selector (new_event_hubs a)
