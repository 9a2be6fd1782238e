-- ===== src/Security.antt =====
-- app/services/security: the runtime key cache, the unlock capabilities and the field encryption.
pub mod KeyCache
pub mod Capability
pub mod FieldEncryption
