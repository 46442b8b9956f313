-- ===== src/Resilience.antt =====
-- The package core/resilience.
pub mod Classify
pub mod BreakerState
pub mod Breaker
mod Tests
pub mod Retry
pub mod Registry
pub mod ConcurrencyLimit
