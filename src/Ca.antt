-- ===== src/Ca.antt =====
-- The client of a certificate authority: nodejs/ca/identityService.js, nodejs/ca/affiliationService.js,
-- nodejs/ca/certificateService.js and nodejs/ca/ca-crypto-gen.js.
pub mod Identity
pub mod Affiliation
pub mod World
pub mod Generation
mod Tests
