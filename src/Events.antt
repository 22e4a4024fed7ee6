-- ===== src/Events.antt =====
-- The event streams of the Node.js code: the queries of a peer's event service (nodejs/eventHub.js,
-- nodejs/admin/eventHub.js) and the delivery of blocks by an orderer (nodejs/admin/orderer.js). A
-- stream is the list of what it brings, in order.
pub mod Settling
pub mod Query
pub mod Hub
pub mod Deliver
mod Tests
