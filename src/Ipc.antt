-- ===== src/Ipc.antt =====
-- ipc/: the message contracts that the processes share, and the system calls behind them.
pub mod Errno
pub mod Messages
pub mod PlanMessage
pub mod SignalMessage
pub mod QueueStatus
pub mod LatestValue
