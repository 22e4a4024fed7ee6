-- ===== src/Environment.antt =====
-- The containers: `envBuilder` of nodejs/peer.js and of nodejs/orderer.js, and
-- nodejs/fabric-dockerode.js.
pub mod Setting
pub mod Peer
pub mod Orderer
pub mod Docker
pub mod Clearing
mod Tests
