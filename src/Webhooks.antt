-- ===== src/Webhooks.antt =====
-- The package webhooks.
pub mod Verify
mod Tests
