-- ===== src/Relay.antt =====
-- internal/relay: relays from the configuration to the embedded mihomo core.
pub mod Types
pub mod Plan
pub mod Registry
pub mod Render
pub mod Mihomo
pub mod Draining
pub mod Core
pub mod Manager
