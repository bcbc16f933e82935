-- ===== src/Controller/Fsm/Progress.antt =====
-- signal_fsm_engine.cpp and plan_sync_channel.cpp: a tick ends. The waits use an absolute
-- deadline, so one of the calls on the condition variable reports ETIMEDOUT (or an error), and one
-- of the sleeps is not interrupted.
use adaptive_traffic_light.Prelude.{
  ℕ, zero, suc, ◌+◌, ◌<◌, ◌≡◌, refl, sym, subst, ◌∙◌, false, ◌⊎◌, inl, inr, Option, none, some,
  List, [], ◌∷◌, length, if◌then◌else◌, ltb, if-elim, option-elim, arith, Timespec,
}
use mathlib.Core.Option.{some-injective}
use adaptive_traffic_light.Controller.Config.{PhaseId, PlanData, empty_plan}
use adaptive_traffic_light.Controller.SyncChannel.{SyncChannel, set_current_phase, is_green_phase}
use adaptive_traffic_light.Controller.Peers.{act_all}
use adaptive_traffic_light.Controller.Wait.{
  Wake, WakeCode, woken, timed_out, failed, emergency_available, Waited, keeps_waiting, finish_wait,
  after_wake, wait_for_emergency_until,
}
use adaptive_traffic_light.Controller.Fsm.{SignalFsmEngine, current_phase_id}
use adaptive_traffic_light.Controller.Fsm.Green.{result-elim}
use adaptive_traffic_light.Controller.Fsm.Tick.{
  TickEnv, SleepCode, slept, interrupted, sleep_failed, handle_emergency, process_green_phase,
  process_non_interruptible_phase, with_channel, run_phase, start_tick, process_tick,
}

abbrev pub EndsWait : WakeCode → Type 0
EndsWait woken = ⊥
EndsWait timed_out = Unit {0}
EndsWait failed = Unit {0}

-- Some wake is by the deadline or an error.
abbrev pub Ends : List Wake → Type 0
Ends [] = ⊥
Ends (w ∷ later) = EndsWait w.code ⊎ Ends later

-- Some sleep is not interrupted.
abbrev pub EndsSleep : List SleepCode → Type 0
EndsSleep [] = ⊥
EndsSleep (slept ∷ later) = Unit {0}
EndsSleep (interrupted ∷ later) = EndsSleep later
EndsSleep (sleep_failed ∷ later) = Unit {0}

abbrev emergencies_in : SyncChannel → ℕ
emergencies_in ch = if ch.has_pending_emergency then 1 else 0

-- The wait is over, and if it took an emergency, the rest of the wakes is shorter by that much.
abbrev Returns : List Wake → SyncChannel → Option Waited → Type 0
Returns wakes ch r =
    (w : Waited) × (r ≡ some w)
    × (w.result ≡ emergency_available
        → Ends w.later
          × (length w.later + emergencies_in w.channel < length wakes + emergencies_in ch))

finish_wait-Returns :
    (wakes : List Wake) (out : PlanData) (ch : SyncChannel)
    → Ends wakes
    → keeps_waiting ch ≡ false
    → Returns wakes ch (some (finish_wait ch out wakes))
finish_wait-Returns wakes out ch ends k =
    if-elim (λ (w : Waited). Returns wakes ch (some w)) ch.shutdown_requested
      (λ _. (_, refl, λ e. cc)) (λ d. (_, refl, λ e. (ends, ground arith)))

after_wake-Returns :
    (code : WakeCode) (w : Wake) (later : List Wake) (out : PlanData) (ch ch' : SyncChannel)
    (again : Option Waited)
    → EndsWait code ⊎ Ends later
    → (Ends later → Returns later ch' again)
    → Returns (w ∷ later) ch (after_wake code ch' out later again)
after_wake-Returns woken w later out ch ch' again (inl e) ih = absurd e
after_wake-Returns woken w later out ch ch' again (inr e) ih =
    let (v, p, q) = ih e in (v, p, λ a. ((q a).0, ground (arith, (q a).1)))
after_wake-Returns timed_out w later out ch ch' again e ih = (_, refl, λ a. cc)
after_wake-Returns failed w later out ch ch' again e ih = (_, refl, λ a. cc)

wait_for_emergency_until-Returns :
    (wakes : List Wake) (out : PlanData) (ch : SyncChannel)
    → Ends wakes
    → Returns wakes ch (wait_for_emergency_until wakes out ch)
unfolding wait_for_emergency_until
wait_for_emergency_until-Returns [] out ch ends = absurd ends
wait_for_emergency_until-Returns (w ∷ later) out ch ends =
    if-elim (Returns (w ∷ later) ch) (keeps_waiting ch)
      (λ _.
        after_wake-Returns w.code w later out ch (act_all w.during ch) _ ends
          (wait_for_emergency_until-Returns later out (act_all w.during ch)))
      (finish_wait-Returns (w ∷ later) out ch ends)

abbrev pub IsDone {ℓ} : {A : Type ℓ} → Option A → Type ℓ
IsDone {A = A} o = (a : A) × (o ≡ some a)

process_green_phase-IsDone :
    (fuel : ℕ) (deadline : Timespec) (clock : Option Timespec) (wakes : List Wake)
    (f : SignalFsmEngine) (ch : SyncChannel)
    → Ends wakes
    → length wakes + emergencies_in ch < fuel
    → IsDone (process_green_phase fuel deadline clock wakes f ch)
unfolding process_green_phase
process_green_phase-IsDone zero deadline clock wakes f ch ends h = absurd (omega arith)
process_green_phase-IsDone (suc fuel) deadline clock wakes f ch ends h =
    let (w, ew, less) = wait_for_emergency_until-Returns wakes empty_plan ch ends in
    option-elim IsDone (wait_for_emergency_until wakes empty_plan ch) (λ en. absurd (cc))
      λ w' e'.
        result-elim IsDone w'.result
          (λ a.
            let (ends', less') =
              subst
                (λ v.
                  v.result ≡ emergency_available
                  → Ends v.later
                    × (length v.later + emergencies_in v.channel
                        < length wakes + emergencies_in ch))
                (some-injective w w' (sym ew ∙ e')) less a in
            if-elim IsDone (ltb 0 (handle_emergency w'.out_plan f).remaining_time_ms)
              (λ _.
                process_green_phase-IsDone fuel deadline clock w'.later
                  (handle_emergency w'.out_plan f) w'.channel ends' (omega (arith, less', h)))
              (λ _. (_, refl)))
          (λ _. (_, refl)) (λ _. (_, refl))

process_non_interruptible_phase-IsDone :
    (deadline : Timespec) (clock : Option Timespec) (sleeps : List SleepCode) (f : SignalFsmEngine)
    → EndsSleep sleeps
    → IsDone (process_non_interruptible_phase deadline clock sleeps f)
unfolding process_non_interruptible_phase
process_non_interruptible_phase-IsDone deadline clock [] f ends = absurd ends
process_non_interruptible_phase-IsDone deadline clock (slept ∷ later) f ends = (_, refl)
process_non_interruptible_phase-IsDone deadline clock (interrupted ∷ later) f ends =
    process_non_interruptible_phase-IsDone deadline clock later f ends
process_non_interruptible_phase-IsDone deadline clock (sleep_failed ∷ later) f ends = (_, refl)

with_channel-IsDone :
    (ch : SyncChannel) (o : Option SignalFsmEngine) → IsDone o → IsDone (with_channel ch o)
with_channel-IsDone ch none d = absurd (cc (d.1))
with_channel-IsDone ch (some f) d = (_, refl)

-- Every tick ends: if some wake comes by the deadline or an error, and some sleep is not
-- interrupted, processTick() returns, from every state and whatever the other threads do. So the
-- fuel of `run_phase` is enough.
pub process_tick-IsDone :
    (env : TickEnv) (f : SignalFsmEngine) (ch : SyncChannel)
    → Ends env.wakes
    → EndsSleep env.sleeps
    → IsDone (process_tick env f ch)
unfolding process_tick run_phase
process_tick-IsDone env f ch ends ends_sleep =
    let started = start_tick env.start_clock f in
    let processed = current_phase_id started in
    let entry = act_all env.before_wait (set_current_phase processed ch) in
    let (after, e) = ran started processed entry in
    option-elim IsDone (run_phase env processed started entry) (λ n. absurd (cc)) (λ a _. (_, refl))
  where
    ran :
        (g : SignalFsmEngine) (processed : PhaseId) (entry : SyncChannel)
        → IsDone (run_phase env processed g entry)
    ran g processed entry =
        if-elim IsDone (is_green_phase processed)
          (λ _. process_green_phase-IsDone _ _ _ env.wakes g entry ends (
            if-elim (λ n. length env.wakes + n < length env.wakes + 2) entry.has_pending_emergency
              (λ _. omega arith) (λ _. omega arith)))
          (λ _.
            with_channel-IsDone entry _
              (process_non_interruptible_phase-IsDone _ _ env.sleeps g ends_sleep))
