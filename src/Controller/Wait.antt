-- ===== src/Controller/Wait.antt =====
-- traffic_signal_controller/src/common/plan_sync_channel.cpp, WaitForEmergencyUntil: the wait on
-- the condition variable. While a thread waits, the mutex is free: each return of
-- pthread_cond_timedwait() is one `Wake`, with what the other threads did before it.
pub mod Results
use adaptive_traffic_light.Prelude.{
  Bool, false, ◌&&◌, not, if◌then◌else◌, Option, none, some, List, [], ◌∷◌,
}
use adaptive_traffic_light.Controller.Config.{PlanData, empty_plan}
use adaptive_traffic_light.Controller.SyncChannel.{SyncChannel}
use adaptive_traffic_light.Controller.Peers.{PeerAction, act_all}

-- What pthread_cond_timedwait() returns: 0, ETIMEDOUT, or another error.
pub data WakeCode : Type 0 where
  woken timed_out failed : WakeCode

pub record Wake : Type 0 where
  pub during : List PeerAction
  pub code : WakeCode

pub data WaitResult : Type 0 where
  emergency_available timeout error : WaitResult

-- The result, the plan that went out, the channel, and the wakes that are still to come.
pub record Waited : Type 0 where
  pub result : WaitResult
  pub out_plan : PlanData
  pub channel : SyncChannel
  pub later : List Wake

-- Nothing to report yet: the condition of the loop.
abbrev pub keeps_waiting : SyncChannel → Bool
keeps_waiting ch = not ch.has_pending_emergency && not ch.shutdown_requested

-- What follows the loop.
abbrev pub finish_wait : SyncChannel → PlanData → List Wake → Waited
finish_wait ch out later =
    if ch.shutdown_requested
    then record { result = error; out_plan = out; channel = ch; later = later }
    else record {
      result = emergency_available;
      out_plan = ch.pending_emergency_plan;
      channel = record ch { pending_emergency_plan = empty_plan; has_pending_emergency = false };
      later = later;
    }

abbrev pub after_wake :
    WakeCode → SyncChannel → PlanData → List Wake → Option Waited → Option Waited
after_wake woken ch out later again = again
after_wake timed_out ch out later again =
    some (record { result = timeout; out_plan = out; channel = ch; later = later })
after_wake failed ch out later again =
    some (record { result = error; out_plan = out; channel = ch; later = later })

-- `none`: no wake is left, and the thread still waits.
unfoldable pub wait_for_emergency_until : List Wake → PlanData → SyncChannel → Option Waited
wait_for_emergency_until [] out ch = if keeps_waiting ch then none else some (finish_wait ch out [])
wait_for_emergency_until (w ∷ later) out ch =
    let woken_channel = act_all w.during ch in
    let again = wait_for_emergency_until later out woken_channel in
    if keeps_waiting ch
    then after_wake w.code woken_channel out later again
    else some (finish_wait ch out (w ∷ later))
