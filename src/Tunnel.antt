-- ===== src/Tunnel.antt =====
-- internal/tunnel
pub mod Frame
pub mod Control
pub mod Stream
pub mod Session
