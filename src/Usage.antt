-- ===== src/Usage.antt =====
-- internal/usage: per-user accounting, plan limits and the durable flush.
pub mod Model
pub mod Tracker
pub mod Store
pub mod Flush
pub mod Quota
pub mod Tunnels
pub mod Admission
