-- ===== src/Proxy.antt =====
-- The reverse proxy: crates/gaterust-proxy.
pub mod Config
pub mod Hosts
pub mod Fields
pub mod Validation
pub mod Migration
pub mod Migrated
pub mod Reading
pub mod Router
