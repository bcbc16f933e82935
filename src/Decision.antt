-- ===== src/Decision.antt =====
-- traffic_timing_decision/: the process that turns traffic snapshots into timing plans.
pub mod Float
pub mod Constraints
pub mod Engine
pub mod Publisher
pub mod Clock
pub mod Receiver
pub mod PeriodicService
pub mod Application
pub mod Tests
