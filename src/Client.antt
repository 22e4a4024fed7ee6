-- ===== src/Client.antt =====
-- The clients of peers, orderers and the discovery service: nodejs/formatter/remote.js,
-- nodejs/admin/peer.js, the rest of nodejs/admin/orderer.js, nodejs/admin/discovery.js,
-- nodejs/serviceDiscovery.js and nodejs/admin/user.js.
pub mod Remote
pub mod Endpoint
pub mod Peer
pub mod Discovery
pub mod User
mod Tests
