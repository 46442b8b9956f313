-- ===== src/Anthropic.antt =====
-- The package anthropic: the usage records of one call.
pub mod Iterations
pub mod CacheWrites
mod Tests
