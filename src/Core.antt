-- ===== src/Core.antt =====
-- The module core of the SDK (core/*.go).
pub mod Errors
