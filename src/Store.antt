-- ===== src/Store.antt =====
-- The stores and services beside a peer: nodejs/couchdb.js, the filter of nodejs/leveldb.js,
-- nodejs/operations.js and nodejs/fabric-gateway/contract.js.
pub mod Couch
pub mod Level
pub mod Remote
mod Tests
