-- ===== src/Control.antt =====
-- The control plane: crates/gaterust-control.
pub mod Errors
pub mod Named
pub mod Files
pub mod TunnelEdits
pub mod ProxyEdits
pub mod View
pub mod Store
pub mod Auth
pub mod Tests
pub mod EditTests
