-- ===== src/Ipc/QueueStatus.antt =====
-- ipc/include/traffic_ipc/latest_value_queue.h: what its operations return.
use adaptive_traffic_light.Prelude.{Bool, true, false}

pub data QueueStatus : Type 0 where
  success busy empty not_found deferred contract_mismatch system_error : QueueStatus

abbrev pub is_success : QueueStatus → Bool
is_success success = true
is_success _ = false
