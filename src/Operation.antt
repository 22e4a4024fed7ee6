-- ===== src/Operation.antt =====
-- The operations that the Node.js library offers on chaincodes: nodejs/chaincodeOperation.js and
-- nodejs/transaction.js. Each composes a proposal (Endorsement), a commit and the wait for the
-- transaction on a peer's event stream (Events).
pub mod Outcome
pub mod Assign
pub mod Commit
pub mod Lifecycle
pub mod Action
pub mod Transaction
mod Tests
