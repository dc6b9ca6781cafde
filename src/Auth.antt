-- ===== src/Auth.antt =====
-- internal/auth: access tokens, their store, and the validator in front of it.
pub mod Remote
pub mod Token
pub mod Store
pub mod Validator
pub mod Issued
pub mod Accepted
pub mod Sound
pub mod Revoked
