-- ===== src/Controller/Fsm.antt =====
-- traffic_signal_controller/src/traffic_signal_controller/signal_fsm_engine.cpp: the state of the
-- signal state machine and its operations on that state. Each function returns the new state;
-- what the clocks gave is an argument, `none` where clock_gettime() failed. Writes to the log are
-- left out, and with them the time stamps that are taken for the log only. `Tick` composes these
-- operations with the channel.
pub mod Lamps
pub mod Tick
pub mod Invariant
pub mod Countdown
pub mod Emergency
pub mod Green
pub mod Advance
pub mod Display
pub mod Safety
pub mod Progress
pub mod Trace
pub mod WakeupLog
use adaptive_traffic_light.Prelude.{
  ℕ, suc, ◌+◌, ◌-◌, ◌*◌, ◌/◌, ◌%◌, ◌^◌, Bool, true, false, ◌||◌, ◌&&◌, not, if◌then◌else◌, ltb, leb,
  ◌==◌, Option, none, some, List, get_or, set, Timespec, zero_time, u8, u32, u64, u32_max,
}
use adaptive_traffic_light.Controller.Config.{
  PhaseId, all_red, ns_green, ew_green, SignalGroup, north_south, east_west, phase_is, Phase,
  PlanData, empty_phase, make_default_plan, max_phases, timer_interval_ms,
  nanoseconds_per_millisecond, nanoseconds_per_second, emergency_lower_threshold_ms,
  emergency_upper_threshold_ms, emergency_green_duration_ms,
}
use adaptive_traffic_light.Controller.SyncChannel.{
  SyncChannel, set_current_phase, consume_pending_plan,
}

pub record WakeupSample : Type 0 where
  pub deadline_ns : ℕ
  pub actual_wakeup_ns : ℕ
  pub latency_ns : ℕ

abbrev pub wakeup_sample_capacity : ℕ
wakeup_sample_capacity = 4096

pub data EmergencyEvaluationResult : Type 0 where
  accepted no_active_plan invalid_direction_flags too_early too_late : EmergencyEvaluationResult
  wrong_direction not_green_phase : EmergencyEvaluationResult

pub record SignalFsmEngine : Type 0 where
  pub current_plan : PlanData
  pub remaining_time_ms : ℕ
  pub current_phase_index : ℕ
  pub active_group : SignalGroup
  pub has_active_plan : Bool
  pub next_deadline : Timespec
  pub deadline_initialized : Bool
  pub initial_phase_logged : Bool
  pub wakeup_samples : List WakeupSample
  pub wakeup_write_sequence : ℕ
  pub wakeup_read_sequence : ℕ
  pub dropped_wakeup_sample_count : ℕ

abbrev pub timespec_to_nanoseconds : Timespec → ℕ
timespec_to_nanoseconds t = u64 (t.tv_sec * nanoseconds_per_second + t.tv_nsec)

-- `currentPlan_.phases[i]`; out of the array it is taken to be an empty phase.
abbrev pub phase_at : PlanData → ℕ → Phase
phase_at plan i = get_or plan.phases i empty_phase

-- No plan, or an index past its end.
abbrev pub without_phase : SignalFsmEngine → Bool
without_phase f =
    not f.has_active_plan
    || f.current_plan.phase_count == 0
    || leb f.current_plan.phase_count f.current_phase_index

unfoldable pub current_phase_id : SignalFsmEngine → PhaseId
current_phase_id f =
    if without_phase f then all_red else (phase_at f.current_plan f.current_phase_index).phase_id

unfoldable pub reset : SignalFsmEngine → SyncChannel → SignalFsmEngine × SyncChannel
unfolding current_phase_id
reset f ch =
    let fresh = record f {
      current_plan = make_default_plan;
      current_phase_index = 0;
      active_group = north_south;
      remaining_time_ms = (phase_at make_default_plan 0).duration_ms;
      has_active_plan = true;
      next_deadline = zero_time;
      deadline_initialized = false;
      initial_phase_logged = false;
      wakeup_write_sequence = 0;
      wakeup_read_sequence = 0;
      dropped_wakeup_sample_count = 0;
    } in
    (fresh, set_current_phase (current_phase_id fresh) ch)

unfoldable pub add_milliseconds : Timespec → ℕ → Timespec
add_milliseconds t milliseconds =
    let total_nanoseconds = u64 (t.tv_nsec + u64 (milliseconds * nanoseconds_per_millisecond)) in
    record {
      tv_sec = t.tv_sec + total_nanoseconds / nanoseconds_per_second;
      tv_nsec = total_nanoseconds % nanoseconds_per_second;
    }

unfoldable pub initialize_deadline : Option Timespec → SignalFsmEngine → SignalFsmEngine
initialize_deadline none f = record f { next_deadline = zero_time; deadline_initialized = true }
initialize_deadline (some now) f = record f { next_deadline = now; deadline_initialized = true }

unfoldable pub decrement_remaining_time_by : ℕ → SignalFsmEngine → SignalFsmEngine
decrement_remaining_time_by elapsed_ms f =
    if leb f.remaining_time_ms elapsed_ms
    then record f { remaining_time_ms = 0 }
    else record f { remaining_time_ms = f.remaining_time_ms - elapsed_ms }

-- The write of one sample, or the count of a lost one when the ring is full.
abbrev pub store_sample : ℕ → ℕ → SignalFsmEngine → SignalFsmEngine × ℕ
store_sample deadline_ns actual_wakeup_ns f =
    let latency_ns = actual_wakeup_ns - deadline_ns in
    let write_sequence = f.wakeup_write_sequence in
    if leb wakeup_sample_capacity (u64 (write_sequence + 2 ^ 64 - f.wakeup_read_sequence))
    then (
      record f { dropped_wakeup_sample_count = u64 (f.dropped_wakeup_sample_count + 1) },
      latency_ns,
    )
    else (
      record f {
        wakeup_samples = set f.wakeup_samples (write_sequence % wakeup_sample_capacity) (record {
          deadline_ns = deadline_ns;
          actual_wakeup_ns = actual_wakeup_ns;
          latency_ns = latency_ns;
        });
        wakeup_write_sequence = u64 (write_sequence + 1);
      },
      latency_ns,
    )

-- The state afterwards, and the latency that is reported.
unfoldable pub record_wakeup_sample :
    Timespec → Option Timespec → SignalFsmEngine → SignalFsmEngine × ℕ
record_wakeup_sample deadline none f =
    (record f { dropped_wakeup_sample_count = u64 (f.dropped_wakeup_sample_count + 1) }, 0)
record_wakeup_sample deadline (some actual) f =
    let deadline_ns = timespec_to_nanoseconds deadline in
    let actual_wakeup_ns = timespec_to_nanoseconds actual in
    if ltb actual_wakeup_ns deadline_ns then (f, 0) else store_sample deadline_ns actual_wakeup_ns f

abbrev pub tick_period_ns : ℕ
tick_period_ns = 1000000000

-- A 64-bit count of milliseconds, cut to what 32 bits hold.
abbrev pub capped : ℕ → ℕ
capped ms = if ltb u32_max ms then u32_max else ms

unfoldable pub elapsed_milliseconds_from_latency : ℕ → SignalFsmEngine → SignalFsmEngine × ℕ
elapsed_milliseconds_from_latency latency_ns f =
    let missed_intervals = latency_ns / tick_period_ns in
    let elapsed_ms = capped (u64 ((missed_intervals + 1) * timer_interval_ms)) in
    if ltb 0 missed_intervals
    then (
      record f {
        next_deadline =
            add_milliseconds f.next_deadline (capped (u64 (missed_intervals * timer_interval_ms)));
      },
      elapsed_ms,
    )
    else (f, elapsed_ms)

-- `decrementRemainingTimeBy(elapsedMillisecondsFromLatency(recordWakeupSample(deadline)))`
unfoldable pub complete_interval : Timespec → Option Timespec → SignalFsmEngine → SignalFsmEngine
complete_interval deadline clock f =
    let (sampled, latency_ns) = record_wakeup_sample deadline clock f in
    let (resynced, elapsed_ms) = elapsed_milliseconds_from_latency latency_ns sampled in
    decrement_remaining_time_by elapsed_ms resynced

unfoldable pub evaluate_emergency_plan : PlanData → SignalFsmEngine → EmergencyEvaluationResult
evaluate_emergency_plan emergency_plan f =
    if not f.has_active_plan
    then no_active_plan
    else if (emergency_plan.is_emergency_ns && emergency_plan.is_emergency_ew)
        || (not emergency_plan.is_emergency_ns && not emergency_plan.is_emergency_ew)
    then invalid_direction_flags
    else if leb emergency_upper_threshold_ms f.remaining_time_ms
    then too_early
    else if leb f.remaining_time_ms emergency_lower_threshold_ms
    then too_late
    else if phase_is (current_phase_id f) ns_green
    then if not emergency_plan.is_emergency_ns then wrong_direction else accepted
    else if phase_is (current_phase_id f) ew_green
    then if not emergency_plan.is_emergency_ew then wrong_direction else accepted
    else not_green_phase

unfoldable pub apply_emergency_plan : PlanData → SignalFsmEngine → SignalFsmEngine
apply_emergency_plan emergency_plan f =
    let phase_id = current_phase_id f in
    let after_ns =
      if phase_is phase_id ns_green && emergency_plan.is_emergency_ns
      then record f { remaining_time_ms = emergency_green_duration_ms }
      else f in
    if phase_is phase_id ew_green && emergency_plan.is_emergency_ew
    then record after_ns { remaining_time_ms = emergency_green_duration_ms }
    else after_ns

-- The group whose right of way the phase at hand belongs to.
abbrev pub group_of_phase : PhaseId → SignalGroup → SignalGroup
group_of_phase p before =
    if phase_is p ns_green then north_south else if phase_is p ew_green then east_west else before

-- A plan that was taken from the channel. The result says whether it was installed.
abbrev pub install_plan : PlanData → SignalFsmEngine → SignalFsmEngine × Bool
install_plan pending f =
    if pending.phase_count == 0 || ltb max_phases pending.phase_count
    then (f, false)
    else if not f.has_active_plan
    then (
      record f {
        current_plan = pending;
        current_phase_index = 0;
        remaining_time_ms = (phase_at pending 0).duration_ms;
        active_group =
            if phase_is
              (current_phase_id (record f {
                current_plan = pending;
                current_phase_index = 0;
                remaining_time_ms = (phase_at pending 0).duration_ms;
              }))
              ew_green
            then east_west
            else north_south;
        has_active_plan = true;
      },
      true,
    )
    else (
      record f {
        current_plan = pending;
        current_phase_index =
            if leb pending.phase_count f.current_phase_index then 0 else f.current_phase_index;
      },
      true,
    )

unfoldable pub load_pending_plan :
    SignalFsmEngine → SyncChannel → SignalFsmEngine × SyncChannel × Bool
load_pending_plan f ch =
    let (taken, ch') = consume_pending_plan ch in
    elim taken [
      | none ↦ (f, ch', false)
      | some pending ↦ let (g, installed) = install_plan pending f in (g, ch', installed)
    ]

-- The state of the machine in the next phase.
abbrev pub enter_next_phase : SignalFsmEngine → SignalFsmEngine
enter_next_phase f =
    let next = u8 (f.current_phase_index + 1) in
    let index = if leb f.current_plan.phase_count next then 0 else next in
    let moved = record f {
      current_phase_index = index;
      remaining_time_ms = (phase_at f.current_plan index).duration_ms;
    } in
    record moved { active_group = group_of_phase (current_phase_id moved) f.active_group }

unfoldable pub advance_phase : SignalFsmEngine → SyncChannel → SignalFsmEngine × SyncChannel
advance_phase f ch =
    if not f.has_active_plan || f.current_plan.phase_count == 0
    then (record f { has_active_plan = false; current_phase_index = 0; remaining_time_ms = 0 }, ch)
    else (enter_next_phase f, set_current_phase (current_phase_id (enter_next_phase f)) ch)
