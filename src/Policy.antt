-- ===== src/Policy.antt =====
-- Signature policies: the messages, the gate language of gatePolicy.js and the JSON form of
-- policy.js, all under nodejs/formatter.
pub mod Proto
pub mod Gate
pub mod Spec
pub mod Decode
pub mod Collection
mod Tests
