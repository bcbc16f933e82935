-- ===== src/Controller/Fsm/Tick.antt =====
-- signal_fsm_engine.cpp, processTick with processGreenPhase and processNonInterruptiblePhase:
-- one second of the state machine. What the environment does during the tick is a `TickEnv`.
use adaptive_traffic_light.Prelude.{
  ℕ, zero, suc, ◌+◌, true, not, if◌then◌else◌, ltb, ◌==◌, Option, none, some, List, [], ◌∷◌, length,
  Timespec,
}
use adaptive_traffic_light.Controller.Config.{
  PhaseId, all_red, north_south, east_west, phase_is, PlanData, SignalDisplay, empty_plan,
  timer_interval_ms,
}
use adaptive_traffic_light.Controller.SyncChannel.{SyncChannel, set_current_phase, is_green_phase}
use adaptive_traffic_light.Controller.Peers.{PeerAction, act_all}
use adaptive_traffic_light.Controller.Wait.{
  Wake, emergency_available, timeout, error, wait_for_emergency_until,
}
use adaptive_traffic_light.Controller.Fsm.{
  SignalFsmEngine, accepted, current_phase_id, initialize_deadline, add_milliseconds,
  complete_interval, evaluate_emergency_plan, apply_emergency_plan, load_pending_plan,
  advance_phase,
}
use adaptive_traffic_light.Controller.Fsm.Lamps.{remaining_for_signal_group}

-- What clock_nanosleep() returns: 0, EINTR, or another error.
pub data SleepCode : Type 0 where
  slept interrupted sleep_failed : SleepCode

-- `start_clock` and `wakeup_clock` are what clock_gettime() gives to initializeDeadline() and to
-- recordWakeupSample(); the lists of actions are what the other threads do to the channel between
-- two critical sections of the tick.
pub record TickEnv : Type 0 where
  pub start_clock : Option Timespec
  pub before_wait : List PeerAction
  pub wakes : List Wake
  pub sleeps : List SleepCode
  pub wakeup_clock : Option Timespec
  pub before_load : List PeerAction
  pub before_advance : List PeerAction

-- The branches of `case EMERGENCY_AVAILABLE`.
unfoldable pub handle_emergency : PlanData → SignalFsmEngine → SignalFsmEngine
handle_emergency plan f = elim (evaluate_emergency_plan plan f) [
  | accepted ↦ apply_emergency_plan plan f
  | _ ↦ f
]

-- The function calls itself after each emergency; `fuel` bounds these calls. `none`: the thread
-- still waits, or the fuel ran out.
unfoldable pub process_green_phase :
    ℕ
    → Timespec
    → Option Timespec
    → List Wake
    → SignalFsmEngine
    → SyncChannel
    → Option (SignalFsmEngine × SyncChannel)
process_green_phase zero deadline clock wakes f ch = none
process_green_phase (suc fuel) deadline clock wakes f ch =
    elim (wait_for_emergency_until wakes empty_plan ch) [
      | none ↦ none
      | some w ↦ elim w.result [
        | emergency_available ↦
            let g = handle_emergency w.out_plan f in
            let again = process_green_phase fuel deadline clock w.later g w.channel in
            if ltb 0 g.remaining_time_ms then again else some (g, w.channel)
        | timeout ↦ some (complete_interval deadline clock f, w.channel)
        | error ↦ some (f, w.channel)
      ]
    ]

-- `none`: the sleep is not over.
unfoldable pub process_non_interruptible_phase :
    Timespec → Option Timespec → List SleepCode → SignalFsmEngine → Option SignalFsmEngine
process_non_interruptible_phase deadline clock [] f = none
process_non_interruptible_phase deadline clock (slept ∷ later) f =
    some (complete_interval deadline clock f)
process_non_interruptible_phase deadline clock (interrupted ∷ later) f =
    process_non_interruptible_phase deadline clock later f
process_non_interruptible_phase deadline clock (sleep_failed ∷ later) f = some f

-- Up to the first call on the channel.
unfoldable pub start_tick : Option Timespec → SignalFsmEngine → SignalFsmEngine
start_tick clock f =
    let g = if not f.deadline_initialized then initialize_deadline clock f else f in
    record g {
      initial_phase_logged = true;
      next_deadline = add_milliseconds g.next_deadline timer_interval_ms;
    }

abbrev pub with_channel :
    SyncChannel → Option SignalFsmEngine → Option (SignalFsmEngine × SyncChannel)
with_channel ch none = none
with_channel ch (some f) = some (f, ch)

-- The part of the tick that waits. Every emergency that is taken out needs a wake to come in, but
-- for the first, so the fuel is enough (`Fsm.Progress`).
unfoldable pub run_phase :
    TickEnv → PhaseId → SignalFsmEngine → SyncChannel → Option (SignalFsmEngine × SyncChannel)
run_phase env processed f ch =
    if is_green_phase processed
    then process_green_phase (length env.wakes + 2) f.next_deadline env.wakeup_clock env.wakes f ch
    else with_channel ch
        (process_non_interruptible_phase f.next_deadline env.wakeup_clock env.sleeps f)

-- The change of phase, once the remaining time is used up.
unfoldable pub change_phase :
    TickEnv → PhaseId → SignalFsmEngine → SyncChannel → SignalFsmEngine × SyncChannel
change_phase env processed f ch =
    if phase_is processed all_red
    then (let (g, ch', installed) = load_pending_plan f (act_all env.before_load ch) in
        advance_phase g (act_all env.before_advance ch'))
    else advance_phase f (act_all env.before_advance ch)

unfoldable pub display_of : SignalFsmEngine → SignalDisplay
display_of f = record {
  phase_id = current_phase_id f;
  remaining_time_ms = f.remaining_time_ms;
  active_group = f.active_group;
  north_south_remaining_time_ms = remaining_for_signal_group north_south f;
  east_west_remaining_time_ms = remaining_for_signal_group east_west f;
}

unfoldable pub finish_tick :
    TickEnv → PhaseId → SignalFsmEngine × SyncChannel → SignalFsmEngine × SyncChannel
finish_tick env processed (f, ch) =
    if f.remaining_time_ms == 0 then change_phase env processed f ch else (f, ch)

-- The state after the tick; the value that processTick() returns is `display_of` that state.
unfoldable pub process_tick :
    TickEnv → SignalFsmEngine → SyncChannel → Option (SignalFsmEngine × SyncChannel)
process_tick env f ch =
    let started = start_tick env.start_clock f in
    let processed = current_phase_id started in
    elim (run_phase env processed started
      (act_all env.before_wait (set_current_phase processed ch))) [
        | none ↦ none
        | some after ↦ some (finish_tick env processed after)
      ]
