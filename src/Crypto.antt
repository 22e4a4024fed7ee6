-- ===== src/Crypto.antt =====
-- The files of key material: nodejs/path.js, nodejs/formatter/path.js and nodejs/formatter/key.js,
-- over any file system.
pub mod Files
pub mod Location
pub mod Material
mod Tests
