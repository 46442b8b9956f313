-- ===== src/Metering.antt =====
-- The package core/metering.
pub mod Record
pub mod Buffer
pub mod FieldGuards
pub mod DeliveryMonitor
pub mod Client
mod Tests
