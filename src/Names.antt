-- ===== src/Names.antt =====
-- The rules for names of nodejs/formatter/channel.js and nodejs/formatter/chaincode.js, which are
-- regular expressions.
pub mod Regex
pub mod Rules
mod Tests
