-- ===== src/Control.antt =====
-- internal/control: the requests that the daemon forwards, and the connections that carry them.
pub mod Pending
pub mod Daemon
pub mod Server
