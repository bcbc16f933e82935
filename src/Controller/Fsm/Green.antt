-- ===== src/Controller/Fsm/Green.antt =====
-- signal_fsm_engine.cpp, processGreenPhase and processNonInterruptiblePhase: the waiting part of
-- a tick stays within its phase, and it ends.
use adaptive_traffic_light.Prelude.{
  ℕ, zero, suc, ◌+◌, ◌≤◌, ◌≡◌, refl, ◌∙◌, Option, none, some, List, [], ◌∷◌, length, max, ltb,
  if-elim, option-elim, some-elim, arith, Timespec,
}
use adaptive_traffic_light.Controller.Config.{PhaseId, empty_plan, emergency_green_duration_ms}
use adaptive_traffic_light.Controller.SyncChannel.{SyncChannel}
use adaptive_traffic_light.Controller.SyncChannel.Invariant.{IsSound}
use adaptive_traffic_light.Controller.Wait.{
  Wake, WaitResult, emergency_available, timeout, error, wait_for_emergency_until,
}
use adaptive_traffic_light.Controller.Wait.Results.{wait_for_emergency_until-IsWaited}
use adaptive_traffic_light.Controller.Fsm.{SignalFsmEngine}
use adaptive_traffic_light.Controller.Fsm.Invariant.{SamePhase, SamePhase-refl, SamePhase-trans}
use adaptive_traffic_light.Controller.Fsm.Countdown.{
  complete_interval-SamePhase, complete_interval-remaining,
}
use adaptive_traffic_light.Controller.Fsm.Emergency.{handle_emergency-SamePhase}
use adaptive_traffic_light.Controller.Fsm.Tick.{
  TickEnv, SleepCode, slept, interrupted, sleep_failed, handle_emergency, process_green_phase,
  process_non_interruptible_phase, with_channel, run_phase,
}

-- The wait is over, in the phase in which it began.
pub record IsWaitedOut (f : SignalFsmEngine) (ch : SyncChannel)
    (after : SignalFsmEngine × SyncChannel) : Type 0 where
  pub same : SamePhase f after.0
  pub within : after.0.remaining_time_ms ≤ max f.remaining_time_ms emergency_green_duration_ms
  pub sound : IsSound after.1
  pub announced : after.1.current_phase ≡ ch.current_phase

pub result-elim {ℓ κ} :
    {A : Type ℓ} (P : A → Type κ) (r : WaitResult) {x y z : A}
    → (r ≡ emergency_available → P x)
    → (r ≡ timeout → P y)
    → (r ≡ error → P z)
    → P (elim r [ emergency_available ↦ x | timeout ↦ y | error ↦ z ])
result-elim P emergency_available a t e = a refl
result-elim P timeout a t e = t refl
result-elim P error a t e = e refl

pub process_green_phase-IsWaitedOut :
    (fuel : ℕ) (deadline : Timespec) (clock : Option Timespec) (wakes : List Wake)
    (f : SignalFsmEngine) (ch : SyncChannel) (after : SignalFsmEngine × SyncChannel)
    → IsSound ch
    → process_green_phase fuel deadline clock wakes f ch ≡ some after
    → IsWaitedOut f ch after
unfolding process_green_phase
process_green_phase-IsWaitedOut zero deadline clock wakes f ch after s = λ e. cc
process_green_phase-IsWaitedOut (suc fuel) deadline clock wakes f ch after s =
    option-elim (λ r. r ≡ some after → IsWaitedOut f ch after)
      (wait_for_emergency_until wakes empty_plan ch) (λ _ e. cc)
      λ w ew.
        let v = wait_for_emergency_until-IsWaited wakes empty_plan ch w s ew in
        let h = handle_emergency-SamePhase w.out_plan f in
        let g = handle_emergency w.out_plan f in
        result-elim (λ r. r ≡ some after → IsWaitedOut f ch after) w.result
          (λ _.
            if-elim (λ r. r ≡ some after → IsWaitedOut f ch after) (ltb 0 g.remaining_time_ms)
              (λ _ e.
                let ih =
                  process_green_phase-IsWaitedOut fuel deadline clock w.later g w.channel after
                    v.sound e in
                record {
                  same = SamePhase-trans h.0 ih.same;
                  within = omega (arith, ih.within, h.1);
                  sound = ih.sound;
                  announced = ih.announced ∙ v.same_phase;
                })
              (λ _ e.
                some-elim (IsWaitedOut f ch) e
                  (record { same = h.0; within = h.1; sound = v.sound; announced = v.same_phase })))
          (λ _ e. some-elim (IsWaitedOut f ch) e (record {
            same = complete_interval-SamePhase deadline clock f;
            within = omega (arith, complete_interval-remaining deadline clock f);
            sound = v.sound;
            announced = v.same_phase;
          }))
          (λ _ e. some-elim (IsWaitedOut f ch) e (record {
            same = SamePhase-refl f;
            within = omega arith;
            sound = v.sound;
            announced = v.same_phase;
          }))

pub process_non_interruptible_phase-SamePhase :
    (deadline : Timespec) (clock : Option Timespec) (sleeps : List SleepCode)
    (f g : SignalFsmEngine)
    → process_non_interruptible_phase deadline clock sleeps f ≡ some g
    → SamePhase f g × (g.remaining_time_ms ≤ f.remaining_time_ms)
unfolding process_non_interruptible_phase
process_non_interruptible_phase-SamePhase deadline clock [] f g e = cc
process_non_interruptible_phase-SamePhase deadline clock (slept ∷ later) f g e =
    some-elim (λ g. SamePhase f g × (g.remaining_time_ms ≤ f.remaining_time_ms)) e
      (
        complete_interval-SamePhase deadline clock f,
        omega (arith, complete_interval-remaining deadline clock f),
      )
process_non_interruptible_phase-SamePhase deadline clock (interrupted ∷ later) f g e =
    process_non_interruptible_phase-SamePhase deadline clock later f g e
process_non_interruptible_phase-SamePhase deadline clock (sleep_failed ∷ later) f g e =
    some-elim (λ g. SamePhase f g × (g.remaining_time_ms ≤ f.remaining_time_ms)) e
      (SamePhase-refl f, omega arith)

with_channel-IsWaitedOut :
    (f : SignalFsmEngine) (ch : SyncChannel) (o : Option SignalFsmEngine)
    (after : SignalFsmEngine × SyncChannel)
    → IsSound ch
    → ((g : SignalFsmEngine)
        → o ≡ some g
        → SamePhase f g × (g.remaining_time_ms ≤ f.remaining_time_ms))
    → with_channel ch o ≡ some after
    → IsWaitedOut f ch after
with_channel-IsWaitedOut f ch none after s k e = cc
with_channel-IsWaitedOut f ch (some g) after s k e =
    some-elim (IsWaitedOut f ch) e (record {
      same = (k g refl).0;
      within = omega (arith, k g refl);
      sound = s;
      announced = refl;
    })

-- Whatever happens while a tick waits, the machine stays in the phase and plan in which the wait
-- began, the countdown does not pass the larger of its value and 20 s, and the channel stays sound.
pub run_phase-IsWaitedOut :
    (env : TickEnv) (processed : PhaseId) (f : SignalFsmEngine) (ch : SyncChannel)
    (after : SignalFsmEngine × SyncChannel)
    → IsSound ch
    → run_phase env processed f ch ≡ some after
    → IsWaitedOut f ch after
unfolding run_phase
run_phase-IsWaitedOut env processed f ch after s =
    if-elim (λ r. r ≡ some after → IsWaitedOut f ch after) _
      (λ _.
        process_green_phase-IsWaitedOut (length env.wakes + 2) f.next_deadline env.wakeup_clock
          env.wakes f ch after s)
      (λ _.
        with_channel-IsWaitedOut f ch
          (process_non_interruptible_phase f.next_deadline env.wakeup_clock env.sleeps f) after s
          (λ g.
            process_non_interruptible_phase-SamePhase f.next_deadline env.wakeup_clock env.sleeps f
              g))
