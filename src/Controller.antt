-- ===== src/Controller.antt =====
-- traffic_signal_controller/: the process that drives the lamps.
pub mod Config
pub mod SyncChannel
pub mod PlanReceiver
pub mod SpscQueue
pub mod Peers
pub mod Wait
pub mod MqWorker
pub mod Fsm
pub mod Output
pub mod Application
mod Tests
