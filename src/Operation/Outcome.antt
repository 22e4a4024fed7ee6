-- ===== src/Operation/Outcome.antt =====
-- What an async function has come to: it has returned or thrown, or it waits, for an event or for an
-- orderer that is not ready.
use fabric_common.Base.{Text}
use fabric_common.Endorsement.Check.{Thrown}
use fabric_common.Events.Settling.{Promise, pending, resolved, rejected}
use fabric_common.Events.Query.{TxEvent, TxFailure}
use fabric_common.Policy.Gate as Gate

-- What an operation throws. `E` and `X` are the SDK's errors, of a service and of an event service.
pub data Failure (E X : Type 0) : Type 0 where
  proposal : Thrown E → Failure E X
  policy : Gate.Failure → Failure E X
  no_leader : Text → Failure E X
  transaction : TxFailure X → Failure E X

pub data Outcome (F A : Type 0) : Type 0 where
  returned : A → Outcome F A
  threw : F → Outcome F A
  waiting : Outcome F A

module _ {E X A : Type 0} where
  -- `await eventHubQuery.waitForTx()` and the return behind it.
  abbrev pub after_tx : A → Promise TxEvent (TxFailure X) → Outcome (Failure E X) A
  after_tx a pending = waiting
  after_tx a (resolved e) = returned a
  after_tx a (rejected x) = threw (transaction x)
