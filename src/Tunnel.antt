-- ===== src/Tunnel.antt =====
-- The tunnel: crates/gaterust-tunnel.
pub mod Config
pub mod ConfigStatus
pub mod Protocol
pub mod RateLimit
pub mod Runtime
pub mod Socks5
pub mod Validation
pub mod Listeners
pub mod Reading
