-- ===== src/Tunnel.antt =====
-- internal/tunnel: public names of tunnels, and the durable tunnel records.
pub mod Engine
pub mod Store
