-- ===== src/Config.antt =====
-- internal/config: the configuration file as read and validated.
pub mod Types
pub mod Source
pub mod RelaySubs
pub mod Validate
