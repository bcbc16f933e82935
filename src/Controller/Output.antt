-- ===== src/Controller/Output.antt =====
-- traffic_signal_controller/src/analytics_service/output_simulator.cpp: the thread that shows the
-- lamps. The state machine hands a display over in one 64-bit word. The console output and the
-- counts that only go to the log are left out; what the system calls return is an argument.
pub mod Mailbox
pub mod Shown
pub mod Handshake
pub mod Tests
use adaptive_traffic_light.Prelude.{
  ℕ, ◌+◌, ◌-◌, ◌*◌, ◌/◌, ◌^◌, Bool, true, false, ◌||◌, ◌&&◌, not, if◌then◌else◌, ltb, ◌==◌, Option,
  none, some, Timespec, u64, bit_and, bit_or,
}
use adaptive_traffic_light.Ipc.SignalMessage.{
  SignalLamp, lamp_yellow, lamp_green, phase_north_south_green, phase_yellow, phase_all_red,
  phase_east_west_green, SignalStateMessage, empty_signal_state,
}
use adaptive_traffic_light.Controller.Config.{
  PhaseId, ns_green, yellow, all_red, ew_green, SignalGroup, north_south, east_west, phase_code,
  group_code, phase_is, group_is, SignalDisplay, nanoseconds_per_second,
}

pub record OutputSimulator : Type 0 where
  pub running : Bool
  pub mailbox : ℕ
  pub notification_pending : Bool
  pub notification_failure_count : ℕ
  pub started : Bool
  pub signal_state_sequence : ℕ
  pub signal_state_publish_failure_count : ℕ
  pub signal_state_publisher_open : Bool
  pub next_sequence : ℕ

abbrev pub countdown_mask : ℕ
countdown_mask = 2 ^ 20 - 1

abbrev pub phase_mask : ℕ
phase_mask = 2 ^ 2 - 1

abbrev pub group_mask : ℕ
group_mask = 2 ^ 1 - 1

abbrev pub sequence_mask : ℕ
sequence_mask = 2 ^ 21 - 1

abbrev pub east_west_countdown_shift : ℕ
east_west_countdown_shift = 20

abbrev pub phase_shift : ℕ
phase_shift = 40

abbrev pub group_shift : ℕ
group_shift = 42

abbrev pub sequence_shift : ℕ
sequence_shift = 43

-- Sequence zero stands for an empty mailbox.
unfoldable pub following_sequence : ℕ → ℕ
following_sequence n =
    let sequence = bit_and (u64 (n + 1)) sequence_mask in if sequence == 0 then 1 else sequence

-- The word that submit() stores.
unfoldable pub pack : ℕ → SignalDisplay → ℕ
pack sequence d =
    bit_or
      (bit_or
        (bit_or
          (bit_or (u64 (sequence * 2 ^ sequence_shift))
            (u64 (bit_and (group_code d.active_group) group_mask * 2 ^ group_shift)))
          (u64 (bit_and (phase_code d.phase_id) phase_mask * 2 ^ phase_shift)))
        (u64
          (bit_and d.east_west_remaining_time_ms countdown_mask * 2 ^ east_west_countdown_shift)))
      (bit_and d.north_south_remaining_time_ms countdown_mask)

abbrev pub sequence_of : ℕ → ℕ
sequence_of packed = bit_and (packed / 2 ^ sequence_shift) sequence_mask

-- The two casts to the enumerations; the masks leave no other values.
abbrev pub phase_of_code : ℕ → PhaseId
phase_of_code n =
    if n == 0 then ns_green else if n == 1 then yellow else if n == 2 then all_red else ew_green

abbrev pub group_of_code : ℕ → SignalGroup
group_of_code n = if n == 0 then north_south else east_west

abbrev pub shown_time : PhaseId → SignalGroup → ℕ → ℕ → ℕ
shown_time p g ns ew =
    if phase_is p all_red
    then (if ltb ns ew then ns else ew)
    else if group_is g north_south
    then ns
    else ew

-- The display that run() reads out of the word.
unfoldable pub unpack : ℕ → SignalDisplay
unpack packed =
    let p = phase_of_code (bit_and (packed / 2 ^ phase_shift) phase_mask) in
    let g = group_of_code (bit_and (packed / 2 ^ group_shift) group_mask) in
    let ns = bit_and packed countdown_mask in
    let ew = bit_and (packed / 2 ^ east_west_countdown_shift) countdown_mask in
    record {
      phase_id = p;
      remaining_time_ms = shown_time p g ns ew;
      active_group = g;
      north_south_remaining_time_ms = ns;
      east_west_remaining_time_ms = ew;
    }

-- `post_ok`: sem_post() succeeds. The machine afterwards, and whether the semaphore was posted.
unfoldable pub submit : Bool → SignalDisplay → OutputSimulator → OutputSimulator × Bool
submit post_ok d o =
    let sequence = following_sequence o.next_sequence in
    let o' = record o {
      next_sequence = sequence;
      mailbox = pack sequence d;
      notification_pending = true;
    } in
    if o.notification_pending
    then (o', false)
    else if not post_ok
    then (
      record o' {
        notification_pending = false;
        notification_failure_count = u64 (o.notification_failure_count + 1);
      },
      false,
    )
    else (o', true)

-- The lamps and the phase of the message.
abbrev pub with_lamps : PhaseId → SignalGroup → SignalStateMessage → SignalStateMessage
with_lamps ns_green g m = record m {
  north_south_lamp = lamp_green;
  phase = phase_north_south_green;
}
with_lamps ew_green g m = record m { east_west_lamp = lamp_green; phase = phase_east_west_green }
with_lamps yellow g m =
    if group_is g north_south
    then record m { phase = phase_yellow; north_south_lamp = lamp_yellow }
    else record m { phase = phase_yellow; east_west_lamp = lamp_yellow }
with_lamps all_red g m = record m { phase = phase_all_red }

abbrev pub next_state_sequence : ℕ → ℕ
next_state_sequence n = if u64 (n + 1) == 0 then u64 (u64 (n + 1) + 1) else u64 (n + 1)

abbrev pub state_of : ℕ → SignalDisplay → SignalStateMessage
state_of sequence d = with_lamps d.phase_id d.active_group (record empty_signal_state {
  sequence_number = sequence;
  north_south_remaining_time_ms = d.north_south_remaining_time_ms;
  east_west_remaining_time_ms = d.east_west_remaining_time_ms;
})

abbrev pub count_failure : OutputSimulator → OutputSimulator
count_failure o = record o {
  signal_state_publish_failure_count = u64 (o.signal_state_publish_failure_count + 1);
}

-- `clock` is what clock_gettime() gives, `sent_ok` whether the queue's publish() succeeds or
-- defers. The machine afterwards, and the message handed to the queue.
unfoldable pub publish :
    Option Timespec
    → Bool
    → SignalDisplay
    → OutputSimulator
    → OutputSimulator × Option SignalStateMessage
publish clock sent_ok d o =
    let sequence = next_state_sequence o.signal_state_sequence in
    let o' = record o { signal_state_sequence = sequence } in
    elim clock [
      | none ↦ (count_failure o', none)
      | some t ↦
          let m = record (state_of sequence d) {
            publish_timestamp_ns = u64 (t.tv_sec * nanoseconds_per_second + t.tv_nsec);
          } in
          if not o.signal_state_publisher_open
          then (o', none)
          else if sent_ok
          then (o', some m)
          else (count_failure o', some m)
    ]

-- One round of run(), after a wait that succeeded: the last sequence shown, the machine, and the
-- display that was shown with its message, if any. `running` is false once the thread is told to
-- stop.
unfoldable pub run_round :
    Option Timespec
    → Bool
    → ℕ
    → OutputSimulator
    → ℕ × OutputSimulator × Option (SignalDisplay × Option SignalStateMessage)
run_round clock sent_ok last_sequence o =
    if not o.running
    then (last_sequence, o, none)
    else let o' = record o { notification_pending = false } in
      let sequence = sequence_of o.mailbox in
      if sequence == 0 || sequence == last_sequence
      then (last_sequence, o', none)
      else let (o'', sent) = publish clock sent_ok (unpack o.mailbox) o' in
        (sequence, o'', some (unpack o.mailbox, sent))

abbrev pub request_stop : OutputSimulator → OutputSimulator
request_stop o = record o { running = false }

-- `open_ok`: the queue of the signal states opens.
unfoldable pub start : Bool → OutputSimulator → OutputSimulator
start open_ok o = if o.running then o else record o {
  running = true;
  notification_pending = false;
  signal_state_sequence = 0;
  signal_state_publish_failure_count = 0;
  started = true;
  signal_state_publisher_open = open_ok;
}

-- start() that is left by an exception when it opens the queue: the flags are set by then.
unfoldable pub start_and_throw : OutputSimulator → OutputSimulator
start_and_throw o = record o {
  running = true;
  notification_pending = false;
  signal_state_sequence = 0;
  signal_state_publish_failure_count = 0;
  started = true;
}

unfoldable pub stop : OutputSimulator → OutputSimulator
stop o =
    let o' = request_stop o in
    if not o.started then o' else record o' {
      started = false;
      signal_state_publisher_open = false;
      notification_failure_count = 0;
    }
