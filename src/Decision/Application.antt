-- ===== src/Decision/Application.antt =====
-- traffic_timing_decision/src/timing_decision_application.cpp: start-up, the periodic loop with its
-- deadlines, and shutdown, as compiled without RT_THREAD_CHECKING. What the system and the clocks
-- return is an argument; the records of the report are left out.
pub mod Startup
pub mod Deadlines
pub mod Running
mod Tests
use adaptive_traffic_light.Prelude.{
  ℕ, zero, suc, ◌+◌, ◌-◌, ◌*◌, ◌/◌, ◌^◌, Bool, true, false, not, ◌||◌, if◌then◌else◌, ltb, ◌==◌,
  Option, none, some, List, [], ◌∷◌, Timespec, instant, u64,
}
use adaptive_traffic_light.Decision.Float.{FloatOps}
use adaptive_traffic_light.Decision.Clock.{
  add_milliseconds, advance_past_now, Nap, WaitEnd, released, canceled, wait_failed, wait_until,
  nanoseconds_per_millisecond, nanoseconds_per_second,
}
use adaptive_traffic_light.Decision.PeriodicService
use adaptive_traffic_light.Decision.PeriodicService.{PeriodicService, CycleEnv, run_decision_cycle}

-- `report_open`: the report logger has its recorders.
pub record TimingDecisionApplication (F : Type 0) : Type 0 where
  pub service : PeriodicService F
  pub report_open : Bool
  pub cycle_count : ℕ
  pub deadline_miss_count : ℕ
  pub memory_locked : Bool
  pub initialized : Bool

pub data ExitCode : Type 0 where
  exit_success exit_failure : ExitCode

abbrev pub period_milliseconds : ℕ
period_milliseconds = 2500

-- static_cast from std::int64_t: the sum is that of non-negative numbers.
abbrev pub timestamp_nanoseconds : Timespec → ℕ
timestamp_nanoseconds timestamp =
    u64 (timestamp.tv_sec * nanoseconds_per_second + timestamp.tv_nsec)

-- The difference wraps when the end lies before the start.
abbrev pub duration_nanoseconds : Timespec → Timespec → ℕ
duration_nanoseconds start end =
    u64 (timestamp_nanoseconds end + (2 ^ 64 - timestamp_nanoseconds start))

abbrev pub period_nanoseconds : ℕ → ℕ
period_nanoseconds milliseconds = u64 (milliseconds * nanoseconds_per_millisecond)

abbrev pub deadline_overrun_nanoseconds : ℕ → ℕ → ℕ
deadline_overrun_nanoseconds elapsed deadline =
    if ltb deadline elapsed then elapsed - deadline else 0

module _ {F : Type 0} where
  -- `locks`: mlockall() succeeds.
  abbrev pub lock_process_memory :
      Bool → TimingDecisionApplication F → TimingDecisionApplication F × Bool
  lock_process_memory locks a =
      if a.memory_locked
      then (a, true)
      else if not locks
      then (a, false)
      else (record a { memory_locked = true }, true)

  -- `unlocks`: munlockall() succeeds.
  unfoldable pub unlock_process_memory :
      Bool → TimingDecisionApplication F → TimingDecisionApplication F
  unlock_process_memory unlocks a =
      if not a.memory_locked
      then a
      else if not unlocks
      then a
      else record a { memory_locked = false }

  -- What stops the parts: the service, then the report.
  unfoldable pub stop_parts : TimingDecisionApplication F → TimingDecisionApplication F
  stop_parts a = record a {
    service = PeriodicService.shutdown a.service;
    report_open = false;
    initialized = false;
  }

  -- Behind the loop.
  abbrev pub shut_down : Bool → TimingDecisionApplication F → TimingDecisionApplication F
  shut_down unlocks a = unlock_process_memory unlocks (stop_parts a)

  -- The destructor.
  abbrev pub destroy : Bool → TimingDecisionApplication F → TimingDecisionApplication F
  destroy unlocks a = unlock_process_memory unlocks a

-- What Initialize() meets, in its order.
pub record InitEnv : Type 0 where
  pub pinned : Bool
  pub report_opens : Bool
  pub service_env : PeriodicService.StartEnv
  pub memory_locks : Bool

unfoldable pub initialize :
    {F : Type 0} → InitEnv → TimingDecisionApplication F → ExitCode × TimingDecisionApplication F
initialize env a =
    if not env.pinned
    then (exit_failure, a)
    else if not env.report_opens
    then (exit_failure, a)
    else (let (s, started) = PeriodicService.initialize env.service_env a.service in
        let b = record a { service = s; report_open = true; initialized = started } in
        if not started
        then (exit_failure, record b { report_open = false })
        else (let (c, locked) = lock_process_memory env.memory_locks b in
            if not locked
            then (exit_failure, stop_parts c)
            else (exit_success, record c { cycle_count = 0; deadline_miss_count = 0 })))

-- One round of the loop, in its order; `none` is a clock that cannot be read.
pub record Round (F : Type 0) : Type 0 where
  pub stop_requested : Bool
  pub wait_stopped : Bool
  pub naps : List Nap
  pub stop_after_wait : Bool
  pub execution_start : Option Timespec
  pub cycle : CycleEnv F
  pub execution_end : Option Timespec
  pub now : Option Timespec

-- How a round ends: at the next release, with the loop over, or still in the wait.
pub data Next : Type 0 where
  goes_on : Timespec → Next
  ends : ExitCode → Next
  sleeps : Next

-- The deadline is missed when the response time is longer than the period.
abbrev pub cycle_deadline_miss : Timespec → Timespec → Bool
cycle_deadline_miss release execution_end = not (
    deadline_overrun_nanoseconds (duration_nanoseconds release execution_end)
      (period_nanoseconds period_milliseconds)
    == 0)

module _ {F : Type 0} where
  unfoldable pub count_deadline :
      Timespec
      → Option Timespec
      → Option Timespec
      → TimingDecisionApplication F
      → TimingDecisionApplication F
  count_deadline release (some start) (some end) a =
      if cycle_deadline_miss release end
      then record a { deadline_miss_count = u64 (a.deadline_miss_count + 1) }
      else a
  count_deadline release _ _ a = a

-- The rounds of advancePastNow() that are enough: the milliseconds of lateness, and two more.
abbrev pub rounds_to_skip : Timespec → Timespec → ℕ
rounds_to_skip release now =
    suc (suc ((instant now - instant release) / nanoseconds_per_millisecond))

-- The release behind a cycle: one period on, and past the clock where it can be read.
unfoldable pub next_release : Timespec → Option Timespec → Timespec
next_release release now =
    let following = add_milliseconds release period_milliseconds in
    elim now [
      | none ↦ following
      | some t ↦
          elim (advance_past_now (rounds_to_skip following t) 0 following period_milliseconds t) [
            | none ↦ following
            | some (r, skipped) ↦ r
          ]
    ]

module _ (ops : FloatOps) where
  open ops use {F}

  -- A round from the wake-up on.
  unfoldable pub work :
      Round F → Timespec → TimingDecisionApplication F → Next × TimingDecisionApplication F
  work r release a =
      let c = run_decision_cycle ops r.cycle a.service in
      let b =
        count_deadline release r.execution_start r.execution_end
          (record a { service = c.service }) in
      if not c.successful then (ends exit_failure, b) else (
        goes_on (next_release release r.now),
        record b { cycle_count = u64 (b.cycle_count + 1) },
      )

  -- What the loop does with the result of waitUntil(); `none`: it has not returned.
  unfoldable pub awoken :
      Option WaitEnd
      → Round F
      → Timespec
      → TimingDecisionApplication F
      → Next × TimingDecisionApplication F
  awoken none r release a = (sleeps, a)
  awoken (some canceled) r release a = (ends exit_success, a)
  awoken (some released) r release a =
      if r.stop_after_wait then (ends exit_success, a) else work r release a
  awoken (some wait_failed) r release a =
      if r.stop_after_wait then (ends exit_success, a) else (ends exit_failure, a)

  unfoldable pub round :
      Round F → Timespec → TimingDecisionApplication F → Next × TimingDecisionApplication F
  round r release a =
      if r.stop_requested
      then (ends exit_success, a)
      else awoken (wait_until r.wait_stopped r.naps) r release a

  -- The loop on the rounds that there are; without a further round a stop is requested. `none`: the
  -- thread still sleeps.
  unfoldable pub run_loop :
      Bool
      → List (Round F)
      → Timespec
      → TimingDecisionApplication F
      → Option ExitCode × TimingDecisionApplication F
  run_loop unlocks [] release a = (some exit_success, shut_down unlocks a)
  run_loop unlocks (r ∷ rs) release a =
      let (next, b) = round r release a in
      elim next [
        | goes_on later ↦ run_loop unlocks rs later b
        | ends code ↦ (some code, shut_down unlocks b)
        | sleeps ↦ (none, b)
      ]

  -- `now`: the clock when Run() begins.
  unfoldable pub run :
      Bool
      → Option Timespec
      → List (Round F)
      → TimingDecisionApplication F
      → Option ExitCode × TimingDecisionApplication F
  run unlocks now rs a = if not a.initialized then (some exit_failure, a) else elim now [
    | none ↦ (some exit_failure, shut_down unlocks a)
    | some t ↦ run_loop unlocks rs (add_milliseconds t period_milliseconds) a
  ]
