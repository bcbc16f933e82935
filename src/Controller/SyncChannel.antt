-- ===== src/Controller/SyncChannel.antt =====
-- traffic_signal_controller/src/common/plan_sync_channel.cpp: the mailbox between the plan
-- receiver and the signal state machine. Each function is one critical section of the mutex, so
-- it is a step on the channel's fields; the wait on the condition variable is in `Wait`.
pub mod Invariant
use adaptive_traffic_light.Prelude.{Bool, true, false, ◌||◌, not, if◌then◌else◌, Option, none, some}
use adaptive_traffic_light.Controller.Config.{
  PhaseId, all_red, ns_green, ew_green, phase_is, PlanData, empty_plan,
}

pub record SyncChannel : Type 0 where
  pub current_phase : PhaseId
  pub pending_normal_plan : PlanData
  pub has_pending_normal : Bool
  pub pending_emergency_plan : PlanData
  pub has_pending_emergency : Bool
  pub shutdown_requested : Bool

abbrev pub new_channel : SyncChannel
new_channel = record {
  current_phase = all_red;
  pending_normal_plan = empty_plan;
  has_pending_normal = false;
  pending_emergency_plan = empty_plan;
  has_pending_emergency = false;
  shutdown_requested = false;
}

abbrev pub is_green_phase : PhaseId → Bool
is_green_phase p = phase_is p ns_green || phase_is p ew_green

abbrev pub is_emergency_plan : PlanData → Bool
is_emergency_plan plan = plan.is_emergency_ns || plan.is_emergency_ew

unfoldable pub set_current_phase : PhaseId → SyncChannel → SyncChannel
set_current_phase p ch =
    if not (is_green_phase p)
    then record ch {
      current_phase = p;
      pending_emergency_plan = empty_plan;
      has_pending_emergency = false;
    }
    else record ch { current_phase = p }

-- The channel afterwards, and whether the plan was stored.
unfoldable pub publish_plan : PlanData → SyncChannel → SyncChannel × Bool
publish_plan plan ch =
    if is_emergency_plan plan
    then if not (is_green_phase ch.current_phase) || ch.shutdown_requested
      then (ch, false)
      else (record ch { pending_emergency_plan = plan; has_pending_emergency = true }, true)
    else (record ch { pending_normal_plan = plan; has_pending_normal = true }, true)

-- The plan that goes out, if there was one, and the channel afterwards.
unfoldable pub consume_pending_plan : SyncChannel → Option PlanData × SyncChannel
consume_pending_plan ch = if not ch.has_pending_normal then (none, ch) else (
  some ch.pending_normal_plan,
  record ch { pending_normal_plan = empty_plan; has_pending_normal = false },
)

unfoldable pub request_shutdown : SyncChannel → SyncChannel
request_shutdown ch = record ch { shutdown_requested = true }
