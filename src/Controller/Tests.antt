-- ===== src/Controller/Tests.antt =====
-- Runs of the controller on concrete plans, messages and wake-ups.
use adaptive_traffic_light.Prelude.{
  ℕ, ◌<◌, ◌≡◌, ◌↔◌, refl, inl, inr, true, false, Option, none, some, List, [], ◌∷◌, arith,
  zero_time, Timespec, ◌^◌,
}
use adaptive_traffic_light.Ipc.Messages.{TimingPlan}
use adaptive_traffic_light.Controller.Config.{
  ns_green, north_south, east_west, empty_plan, emergency_lower_threshold_ms,
  emergency_upper_threshold_ms,
}
use adaptive_traffic_light.Controller.SyncChannel.{
  SyncChannel, new_channel, set_current_phase, publish_plan,
}
use adaptive_traffic_light.Controller.PlanReceiver.{validate_plan, translate_plan, receive_plan}
use adaptive_traffic_light.Controller.PlanReceiver.Plans.{IsAcceptable, validate_plan_iff}
use adaptive_traffic_light.Controller.Peers.{receives, act, act_all}
use adaptive_traffic_light.Controller.Wait.{
  Wake, woken, timed_out, error, Waited, wait_for_emergency_until,
}
use adaptive_traffic_light.Controller.Wait.Results.{IsWaited, wait_for_emergency_until-IsWaited}
use adaptive_traffic_light.Controller.Fsm.{
  SignalFsmEngine, accepted, reset, add_milliseconds, initialize_deadline,
  decrement_remaining_time_by, record_wakeup_sample, elapsed_milliseconds_from_latency,
  complete_interval, evaluate_emergency_plan, apply_emergency_plan, current_phase_id,
}
use adaptive_traffic_light.Controller.Fsm.Tick.{
  TickEnv, slept, handle_emergency, process_green_phase, start_tick, run_phase, change_phase,
  finish_tick, process_tick,
}
use adaptive_traffic_light.Controller.Fsm.Lamps.{remaining_for_signal_group}
use adaptive_traffic_light.Controller.Fsm.Invariant.{IsOnCycle}
use adaptive_traffic_light.Controller.Fsm.Emergency.{IsForGreen, evaluate_emergency_plan_iff}
use adaptive_traffic_light.Controller.Fsm.Display.{remaining_for_signal_group-shown_for}
use adaptive_traffic_light.Controller.Fsm.Safety.{IsRunning, IsTick, process_tick-IsTick}
use adaptive_traffic_light.Controller.Fsm.Progress.{IsDone, process_tick-IsDone}
use adaptive_traffic_light.Controller.Fsm.Trace.{
  Reach, starts, then, ticks, Reach-IsRunning, IsSafeChange, tick-IsSafeChange,
}

abbrev pub sample_plan : TimingPlan
sample_plan = record {
  plan_id = 7;
  generation_timestamp_ns = 5;
  perception_publish_timestamp_us = 3;
  green_north_south_ms = 40000;
  green_east_west_ms = 20000;
  yellow_ms = 3000;
  all_red_ms = 1000;
  cycle_length_ms = 68000;
  emergency_north_south = false;
  emergency_east_west = false;
}

abbrev pub emergency_plan : TimingPlan
emergency_plan = record sample_plan { plan_id = 8; emergency_north_south = true }

-- The fields of a machine before its constructor runs reset().
abbrev raw_machine : SignalFsmEngine
raw_machine = record {
  current_plan = empty_plan;
  remaining_time_ms = 0;
  current_phase_index = 0;
  active_group = north_south;
  has_active_plan = false;
  next_deadline = zero_time;
  deadline_initialized = false;
  initial_phase_logged = false;
  wakeup_samples = [];
  wakeup_write_sequence = 0;
  wakeup_read_sequence = 0;
  dropped_wakeup_sample_count = 0;
}

abbrev pub machine : SignalFsmEngine
machine = (reset raw_machine new_channel).0

abbrev channel : SyncChannel
channel = (reset raw_machine new_channel).1

abbrev at_time : ℕ → ℕ → Option Timespec
at_time s ns = some (record { tv_sec = s; tv_nsec = ns })

-- An emergency plan comes in during the wait, with 30 s left.
abbrev busy_tick : TickEnv
busy_tick = record {
  start_clock = at_time 10 0;
  before_wait = receives (at_time 10 5) sample_plan ∷ [];
  wakes =
      record { during = receives (at_time 10 9) emergency_plan ∷ []; code = woken }
      ∷ record { during = []; code = timed_out }
      ∷ [];
  sleeps = slept ∷ [];
  wakeup_clock = at_time 11 70000;
  before_load = [];
  before_advance = [];
}

abbrev after_tick : SignalFsmEngine × SyncChannel
after_tick = elim (process_tick busy_tick machine channel) [
  | none ↦ (machine, channel)
  | some r ↦ r
]

ticked : process_tick busy_tick machine channel ≡ some after_tick
unfolding process_tick start_tick run_phase change_phase finish_tick initialize_deadline reset
    set_current_phase act_all act receive_plan validate_plan translate_plan publish_plan
    process_green_phase wait_for_emergency_until handle_emergency evaluate_emergency_plan
    current_phase_id complete_interval record_wakeup_sample elapsed_milliseconds_from_latency
    decrement_remaining_time_by add_milliseconds
ticked = refl

-- 30 s less one interval: the emergency was too early.
tick_time : (after_tick.0).remaining_time_ms ≡ 29000
unfolding process_tick start_tick run_phase change_phase finish_tick initialize_deadline reset
    set_current_phase act_all act receive_plan validate_plan translate_plan publish_plan
    process_green_phase wait_for_emergency_until handle_emergency evaluate_emergency_plan
    current_phase_id complete_interval record_wakeup_sample elapsed_milliseconds_from_latency
    decrement_remaining_time_by add_milliseconds
tick_time = refl

machine-Reach : Reach machine channel
machine-Reach = starts raw_machine

pub machine-IsRunning : IsRunning machine channel
machine-IsRunning = Reach-IsRunning machine-Reach

tick-IsSafeChange_example : IsSafeChange north_south machine (after_tick.0)
tick-IsSafeChange_example = tick-IsSafeChange busy_tick north_south machine-Reach ticked

Reach-IsRunning_example : IsRunning (after_tick.0) (after_tick.1)
Reach-IsRunning_example = Reach-IsRunning (then machine-Reach (ticks busy_tick ticked))

process_tick-IsTick_example : IsTick machine channel after_tick
process_tick-IsTick_example =
    process_tick-IsTick busy_tick machine channel after_tick machine-IsRunning ticked

process_tick-IsDone_example : IsDone (process_tick busy_tick machine channel)
process_tick-IsDone_example = process_tick-IsDone busy_tick machine channel (inr (inl tt)) tt

-- A machine in its first phase, with 10 s left.
abbrev late_green : SignalFsmEngine
late_green = record machine { remaining_time_ms = 10000 }

evaluate_emergency_plan_iff_example :
    (evaluate_emergency_plan (translate_plan emergency_plan) late_green ≡ accepted) ↔ (
      (late_green.has_active_plan ≡ true)
      × IsForGreen (translate_plan emergency_plan) (current_phase_id late_green)
      × (emergency_lower_threshold_ms < late_green.remaining_time_ms)
      × (late_green.remaining_time_ms < emergency_upper_threshold_ms))
evaluate_emergency_plan_iff_example =
    evaluate_emergency_plan_iff (translate_plan emergency_plan) late_green

abbrev green_channel : SyncChannel
green_channel = act_all (receives (at_time 10 9) emergency_plan ∷ []) channel

-- The emergency arrives while the machine waits.
abbrev one_wake : List Wake
one_wake = record { during = receives (at_time 10 9) emergency_plan ∷ []; code = woken } ∷ []

abbrev waited : Waited
waited = elim (wait_for_emergency_until one_wake empty_plan channel) [
  | none ↦ record { result = error; out_plan = empty_plan; channel = channel; later = [] }
  | some w ↦ w
]

waited_lem : wait_for_emergency_until one_wake empty_plan channel ≡ some waited
unfolding wait_for_emergency_until act_all act receive_plan validate_plan translate_plan
    publish_plan reset set_current_phase
waited_lem = refl

wait_for_emergency_until-IsWaited_example : IsWaited channel one_wake waited
wait_for_emergency_until-IsWaited_example =
    wait_for_emergency_until-IsWaited one_wake empty_plan channel waited machine-IsRunning.sound
      waited_lem

abbrev after_wait : SignalFsmEngine × SyncChannel
after_wait = elim (run_phase busy_tick ns_green late_green channel) [
  | none ↦ (late_green, channel)
  | some r ↦ r
]

ran : run_phase busy_tick ns_green late_green channel ≡ some after_wait
unfolding run_phase reset set_current_phase act_all act receive_plan validate_plan translate_plan
    publish_plan process_green_phase wait_for_emergency_until handle_emergency
    evaluate_emergency_plan apply_emergency_plan current_phase_id complete_interval
    record_wakeup_sample elapsed_milliseconds_from_latency decrement_remaining_time_by
    add_milliseconds initialize_deadline
ran = refl

-- The last phase of the cycle, all-red behind the east-west green, used up.
abbrev end_of_cycle : SignalFsmEngine
end_of_cycle = record machine {
  current_phase_index = 5;
  active_group = east_west;
  remaining_time_ms = 0;
}

end_of_cycle-IsOnCycle : IsOnCycle end_of_cycle
unfolding reset
end_of_cycle-IsOnCycle = record {
  plan = machine-IsRunning.on_cycle.plan;
  active = refl;
  index = omega arith;
  group = refl;
}

-- At the end of the cycle the north-south group gets its green at once.
shown_example :
    (remaining_for_signal_group north_south end_of_cycle ≡ 0)
    × (remaining_for_signal_group north_south end_of_cycle < 2 ^ 20)
unfolding reset
shown_example =
    remaining_for_signal_group-shown_for end_of_cycle end_of_cycle-IsOnCycle north_south
      (omega arith)

abbrev deadline : Timespec
deadline = record { tv_sec = 11; tv_nsec = 0 }

validate_plan_iff_example : (validate_plan sample_plan ≡ true) ↔ IsAcceptable sample_plan
validate_plan_iff_example = validate_plan_iff sample_plan
