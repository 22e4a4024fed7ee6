-- ===== src/Endorsement.antt =====
-- The proposals that the Node.js code sends to endorsing peers: the checks of their answers
-- (nodejs/admin/resultInterceptors.js), the manager that sends (nodejs/admin/proposal.js), the
-- chaincode lifecycle (nodejs/admin/lifecycleProposal.js) and the queries (nodejs/query.js), with their
-- requests to the system chaincodes.
pub mod Check
pub mod Manager
pub mod Lifecycle
pub mod Queries
pub mod Ledger
mod Tests
