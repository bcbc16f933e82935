-- ===== src/Decision/Clock.antt =====
-- traffic_timing_decision/src/common.cpp: the periodic releases of the decision process.
pub mod Releases
use adaptive_traffic_light.Prelude.{
  ℕ, zero, suc, ◌+◌, ◌-◌, ◌*◌, ◌/◌, ◌%◌, Bool, true, false, ◌||◌, ◌&&◌, not, if◌then◌else◌, ltb,
  leb, ◌==◌, Option, none, some, List, [], ◌∷◌, Timespec, u32, u64,
}

abbrev pub nanoseconds_per_millisecond : ℕ
nanoseconds_per_millisecond = 1000000

abbrev pub nanoseconds_per_second : ℕ
nanoseconds_per_second = 1000000000

abbrev pub is_after : Timespec → Timespec → Bool
is_after left right =
    ltb right.tv_sec left.tv_sec || (left.tv_sec == right.tv_sec && ltb right.tv_nsec left.tv_nsec)

-- `none`: clock_gettime() fails.
abbrev pub monotonic_nanoseconds : Option Timespec → ℕ
monotonic_nanoseconds none = 0
monotonic_nanoseconds (some now) = u64 (now.tv_sec * nanoseconds_per_second + now.tv_nsec)

unfoldable pub add_milliseconds : Timespec → ℕ → Timespec
add_milliseconds value milliseconds =
    let additional = u64 (milliseconds * nanoseconds_per_millisecond) in
    let sec = value.tv_sec + additional / nanoseconds_per_second in
    let nsec = value.tv_nsec + additional % nanoseconds_per_second in
    if leb nanoseconds_per_second nsec
    then record { tv_sec = sec + 1; tv_nsec = nsec - nanoseconds_per_second }
    else record { tv_sec = sec; tv_nsec = nsec }

-- The loop, with the number of releases skipped so far; `none`: the fuel ran out.
unfoldable pub advance_past_now : ℕ → ℕ → Timespec → ℕ → Timespec → Option (Timespec × ℕ)
advance_past_now zero skipped release period_ms now = none
advance_past_now (suc fuel) skipped release period_ms now =
    let rest =
      advance_past_now fuel (u32 (skipped + 1)) (add_milliseconds release period_ms) period_ms
        now in
    if not (is_after release now) then rest else some (release, skipped)

-- What clock_nanosleep() returns: 0, EINTR, or another error.
pub data ReleaseCode : Type 0 where
  release_reached release_interrupted release_failed : ReleaseCode

-- One call of it, and the two loads of the stop flag behind it.
pub record Nap : Type 0 where
  pub code : ReleaseCode
  pub stop_in_loop : Bool
  pub stop_at_end : Bool

pub data WaitEnd : Type 0 where
  released canceled wait_failed : WaitEnd

abbrev pub end_of_wait : Nap → WaitEnd
end_of_wait nap =
    if nap.stop_at_end
    then canceled
    else elim nap.code [ release_reached ↦ released | _ ↦ wait_failed ]

-- The loop of waitUntil(); `none`: the thread still sleeps.
unfoldable pub sleep_loop : List Nap → Option WaitEnd
sleep_loop [] = none
sleep_loop (nap ∷ later) = elim nap.code [
  | release_interrupted ↦
      let rest = sleep_loop later in if not nap.stop_in_loop then rest else some (end_of_wait nap)
  | _ ↦ some (end_of_wait nap)
]

unfoldable pub wait_until : Bool → List Nap → Option WaitEnd
wait_until stop_requested naps = if stop_requested then some canceled else sleep_loop naps
