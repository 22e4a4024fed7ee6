-- ===== src/Config.antt =====
-- The channel configuration: JSON values and the edits of nodejs/formatter/configFactory.js.
pub mod Json
pub mod Orgs
pub mod Orderer
mod Tests
