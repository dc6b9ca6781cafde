-- ===== src/Api.antt =====
-- pkg/api: what the daemon and its clients exchange.
pub mod Dispatcher
pub mod Protocol
pub mod Capacity
