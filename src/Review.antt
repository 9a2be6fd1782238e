-- ===== src/Review.antt =====
-- The reports on the items of a session, the encrypted packs of them, and the end of these.
pub mod Format
pub mod Compliance
pub mod Readiness
pub mod Export
pub mod Totals
pub mod Cleanup
pub mod EncryptedPack
