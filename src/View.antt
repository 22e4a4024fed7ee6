-- ===== src/View.antt =====
-- What the Node.js code makes of messages for a reader: nodejs/formatter/blockDecoder.js and
-- nodejs/formatter/discovery.js.
pub mod Block
pub mod Discovery
mod Tests
