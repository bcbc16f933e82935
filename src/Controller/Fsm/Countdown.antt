-- ===== src/Controller/Fsm/Countdown.antt =====
-- signal_fsm_engine.cpp, decrementRemainingTimeBy, recordWakeupSample,
-- elapsedMillisecondsFromLatency and initializeDeadline: how a completed interval of the timer
-- changes the machine.
use adaptive_traffic_light.Prelude.{
  ℕ, ◌+◌, ◌-◌, ◌*◌, ◌/◌, ◌^◌, ◌<◌, ◌≡◌, refl, Option, none, some, arith, Timespec, IsNormal,
  instant, u64,
}
use adaptive_traffic_light.Controller.Config.{timer_interval_ms, nanoseconds_per_millisecond}
use adaptive_traffic_light.Controller.Fsm.{
  SignalFsmEngine, complete_interval, record_wakeup_sample, elapsed_milliseconds_from_latency,
  decrement_remaining_time_by, add_milliseconds, tick_period_ns, capped, timespec_to_nanoseconds,
}
use adaptive_traffic_light.Controller.Fsm.Invariant.{SamePhase, SamePhase-trans}

-- How late a wake-up was, in whole timer periods.
abbrev pub missed_intervals : Timespec → Option Timespec → ℕ
missed_intervals deadline none = 0
missed_intervals deadline (some actual) =
    (timespec_to_nanoseconds actual - timespec_to_nanoseconds deadline) / tick_period_ns

record_wakeup_sample-SamePhase :
    (deadline : Timespec) (clock : Option Timespec) (f : SignalFsmEngine)
    → let g = (record_wakeup_sample deadline clock f).0 in
      SamePhase f g
      × (g.remaining_time_ms ≡ f.remaining_time_ms)
      × (g.next_deadline ≡ f.next_deadline)
unfolding record_wakeup_sample
record_wakeup_sample-SamePhase deadline none f =
    (record { plan = refl; index = refl; group = refl; active = refl }, refl, refl)
record_wakeup_sample-SamePhase deadline (some actual) f = ground arith

record_wakeup_sample-latency :
    (deadline : Timespec) (clock : Option Timespec) (f : SignalFsmEngine)
    → (record_wakeup_sample deadline clock f).1 / tick_period_ns ≡ missed_intervals deadline clock
unfolding record_wakeup_sample
record_wakeup_sample-latency deadline none f = refl
record_wakeup_sample-latency deadline (some actual) f = ground arith

elapsed-SamePhase :
    (latency_ns : ℕ) (f : SignalFsmEngine)
    → let g = (elapsed_milliseconds_from_latency latency_ns f).0 in
      SamePhase f g × (g.remaining_time_ms ≡ f.remaining_time_ms)
unfolding elapsed_milliseconds_from_latency
elapsed-SamePhase latency_ns f = ground arith

decrement-SamePhase :
    (ms : ℕ) (f : SignalFsmEngine) → SamePhase f (decrement_remaining_time_by ms f)
unfolding decrement_remaining_time_by
decrement-SamePhase ms f = ground arith

-- The subtraction stops at zero.
pub decrement_remaining_time_by_lem :
    (ms : ℕ) (f : SignalFsmEngine)
    → (decrement_remaining_time_by ms f).remaining_time_ms ≡ f.remaining_time_ms - ms
unfolding decrement_remaining_time_by
decrement_remaining_time_by_lem ms f = ground arith

elapsed_lem :
    (latency_ns : ℕ) (f : SignalFsmEngine)
    → (elapsed_milliseconds_from_latency latency_ns f).1
      ≡ capped (u64 ((latency_ns / tick_period_ns + 1) * timer_interval_ms))
unfolding elapsed_milliseconds_from_latency
elapsed_lem latency_ns f = ground arith

pub complete_interval-SamePhase :
    (deadline : Timespec) (clock : Option Timespec) (f : SignalFsmEngine)
    → SamePhase f (complete_interval deadline clock f)
unfolding complete_interval
complete_interval-SamePhase deadline clock f =
    let r = record_wakeup_sample deadline clock f in
    let e = elapsed_milliseconds_from_latency r.1 r.0 in
    SamePhase-trans (record_wakeup_sample-SamePhase deadline clock f).0
      (SamePhase-trans (elapsed-SamePhase r.1 r.0).0 (decrement-SamePhase e.1 e.0))

-- A completed interval takes one timer interval off the countdown, and one more for each whole
-- period that the wake-up came late; the countdown stops at zero. The instants are at most 2^64
-- nanoseconds, so the 64-bit product cannot wrap.
pub complete_interval-remaining :
    (deadline : Timespec) (clock : Option Timespec) (f : SignalFsmEngine)
    → (complete_interval deadline clock f).remaining_time_ms
      ≡ f.remaining_time_ms - capped ((missed_intervals deadline clock + 1) * timer_interval_ms)
unfolding complete_interval
complete_interval-remaining deadline clock f =
    let r = record_wakeup_sample deadline clock f in
    let e = elapsed_milliseconds_from_latency r.1 r.0 in
    ground (
      arith,
      decrement_remaining_time_by_lem e.1 e.0,
      elapsed_lem r.1 r.0,
      elapsed-SamePhase r.1 r.0,
      record_wakeup_sample-SamePhase deadline clock f,
      record_wakeup_sample-latency deadline clock f,
      missed-lt deadline clock,
    )
  where
    missed-lt : (d : Timespec) (c : Option Timespec) → missed_intervals d c < 18446744074
    missed-lt d none = omega arith
    missed-lt d (some a) = omega arith

-- Adding milliseconds moves the instant by that much, and leaves the nanoseconds in range.
pub add_milliseconds_lem :
    (t : Timespec) (ms : ℕ)
    → IsNormal t
    → ms < 2 ^ 32
    → IsNormal (add_milliseconds t ms)
      × (instant (add_milliseconds t ms) ≡ instant t + ms * nanoseconds_per_millisecond)
unfolding add_milliseconds
add_milliseconds_lem t ms n b = omega arith
