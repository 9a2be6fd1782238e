-- ===== src/Auth.antt =====
-- app/services/auth/service.py and its callers: the master password, the data key that it wraps,
-- and the sessions that the cookie names.
pub mod Password
pub mod Crypto
pub mod Sessions
pub mod Account
pub mod Guards
pub mod Routes
