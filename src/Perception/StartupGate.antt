-- ===== src/Perception/StartupGate.antt =====
-- traffic_perception/include/traffic_perception/core/startup_gate.h: the stream workers and the
-- pipeline wait until all of them are ready, and start at one time. A step is what a thread does
-- between two releases of the mutex: an entry of a call, a return of pthread_cond_wait(), or a
-- failure of it. A return needs no broadcast, so that spurious ones are covered too.
pub mod Invariant
pub mod Together
use adaptive_traffic_light.Prelude.{
  ℕ, zero, suc, ◌+◌, Bool, true, false, not, ◌&&◌, if◌then◌else◌, ltb, List, [], ◌∷◌, length,
  get_or, set, replicate,
}

pub record StartupGate : Type 0 where
  pub ready_count : ℕ
  pub released : Bool
  pub cancelled : Bool
  pub start_time : ℕ

abbrev pub new_gate : StartupGate
new_gate = record { ready_count = 0; released = false; cancelled = false; start_time = 0 }

-- Where a worker is: it has not called arriveAndWait(), it waits in it, or it has returned true with
-- a start time, or false. `failed`: it cancelled the gate or could not lock the mutex instead.
pub data Worker : Type 0 where
  outside : Worker
  waiting : Worker
  started : ℕ → Worker
  refused : Worker
  failed : Worker

-- The same of the caller of releaseWhenReady().
pub data Caller : Type 0 where
  not_called : Caller
  watching : Caller
  done_true : Caller
  done_false : Caller

-- The end of arriveAndWait().
abbrev pub leave : StartupGate → Worker
leave g = if g.released && not g.cancelled then started g.start_time else refused

-- The test of its loop.
abbrev pub wait_or_leave : StartupGate → Worker
wait_or_leave g = if not g.released && not g.cancelled then waiting else leave g

abbrev pub cancel : StartupGate → StartupGate
cancel g = record g { cancelled = true }

-- The body of releaseWhenReady() from the test of its loop on.
abbrev pub watch_or_release : ℕ → ℕ → ℕ → StartupGate → StartupGate × Caller
watch_or_release expected_ready_count now lead_time g =
    if ltb g.ready_count expected_ready_count && not g.cancelled
    then (g, watching)
    else if g.cancelled
    then (g, done_false)
    else (record g { start_time = now + lead_time; released = true }, done_true)

pub record Starting : Type 0 where
  pub gate : StartupGate
  pub workers : List Worker
  pub caller : Caller

-- What happens next: to the worker of that number, or to the caller at a time of the clock.
pub data Event : Type 0 where
  arrives : ℕ → Event
  wakes : ℕ → Event
  wait_fails : ℕ → Event
  cancels : ℕ → Event
  lock_fails : ℕ → Event
  calls : ℕ → Event
  caller_wakes : ℕ → Event
  caller_wait_fails : Event
  caller_lock_fails : Event

abbrev pub worker_at : Starting → ℕ → Worker
worker_at s i = get_or s.workers i failed

abbrev pub with_worker : ℕ → Worker → Starting → Starting
with_worker i w s = record s { workers = set s.workers i w }

-- releaseWhenReady() is called for as many workers as there are.
abbrev pub caller_goes_on : ℕ → ℕ → Starting → Starting
caller_goes_on lead now s =
    let (g, c) = watch_or_release (length s.workers) now lead s.gate in
    record s { gate = g; caller = c }

-- An event that does not fit where the thread is changes nothing. `lead` is the lead time.
unfoldable pub happens : ℕ → Event → Starting → Starting
happens lead (arrives i) s = elim (worker_at s i) [
  | outside ↦
      let g = record s.gate { ready_count = s.gate.ready_count + 1 } in
      record (with_worker i (wait_or_leave g) s) { gate = g }
  | _ ↦ s
]
happens lead (wakes i) s = elim (worker_at s i) [
  | waiting ↦ with_worker i (wait_or_leave s.gate) s
  | _ ↦ s
]
happens lead (wait_fails i) s = elim (worker_at s i) [
  | waiting ↦ record (with_worker i refused s) { gate = cancel s.gate }
  | _ ↦ s
]
happens lead (cancels i) s = elim (worker_at s i) [
  | outside ↦ record (with_worker i failed s) { gate = cancel s.gate }
  | _ ↦ s
]
happens lead (lock_fails i) s = elim (worker_at s i) [ outside ↦ with_worker i failed s | _ ↦ s ]
happens lead (calls now) s = elim s.caller [ not_called ↦ caller_goes_on lead now s | _ ↦ s ]
happens lead (caller_wakes now) s = elim s.caller [ watching ↦ caller_goes_on lead now s | _ ↦ s ]
happens lead caller_wait_fails s = elim s.caller [
  | watching ↦ record s { gate = cancel s.gate; caller = done_false }
  | _ ↦ s
]
happens lead caller_lock_fails s = elim s.caller [
  | not_called ↦ record s { caller = done_false }
  | _ ↦ s
]

abbrev pub happen_all : ℕ → List Event → Starting → Starting
happen_all lead [] s = s
happen_all lead (e ∷ es) s = happen_all lead es (happens lead e s)

-- n workers, none of which has come to the gate.
abbrev pub before_start : ℕ → Starting
before_start n = record { gate = new_gate; workers = replicate n outside; caller = not_called }
