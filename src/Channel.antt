-- ===== src/Channel.antt =====
-- The messages to an ordering service about a channel: nodejs/formatter/protoTranslator.js,
-- nodejs/admin/signingIdentity.js, nodejs/admin/channelUpdate.js, nodejs/channel.js and
-- nodejs/channelConfig.js.
pub mod Message
pub mod Update
pub mod Fetch
pub mod Anchor
mod Tests
