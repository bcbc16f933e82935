-- ===== src/Controller/Output/Tests.antt =====
-- A display on its way through the mailbox.
use adaptive_traffic_light.Prelude.{
  inl, ◌≡◌, ◌≢◌, ◌<◌, ◌^◌, refl, ◌⊎◌, true, false, some, arith, Timespec,
}
use adaptive_traffic_light.Ipc.SignalMessage.{
  SignalStateMessage, lamp_red, has_valid_signal_state_envelope,
}
use adaptive_traffic_light.Controller.Config.{ns_green, north_south, east_west, SignalDisplay}
use adaptive_traffic_light.Controller.Fsm.Display.{lamp}
use adaptive_traffic_light.Controller.Fsm.Tick.{display_of}
use adaptive_traffic_light.Controller.Output.{
  OutputSimulator, following_sequence, pack, sequence_of, unpack, state_of, publish,
}
use adaptive_traffic_light.Controller.Output.Mailbox.{Fits, unpack-pack, following_sequence_lem}
use adaptive_traffic_light.Controller.Output.Handshake.{
  Handshake, outside, claimed, waiting, awake, loaded, store_mailbox, exchange_pending,
  post_notification, take_notification, load_mailbox, posts, takes, loads, Reached, begins, moves,
  stores, exchanges,
}
use adaptive_traffic_light.Controller.Output.Handshake.Wakeups.{pending_is_notified}
use adaptive_traffic_light.Controller.Output.Shown.{
  lamp_on_wire, state_of-display_of, publish-IsValid,
}
use adaptive_traffic_light.Controller.Tests.{machine, machine-IsRunning}

abbrev display : SignalDisplay
display = record {
  phase_id = ns_green;
  remaining_time_ms = 30000;
  active_group = north_south;
  north_south_remaining_time_ms = 30000;
  east_west_remaining_time_ms = 34000;
}

display-Fits : Fits display
display-Fits = record { ns_fits = omega arith; ew_fits = omega arith; shown = refl }

abbrev pub simulator : OutputSimulator
simulator = record {
  running = true;
  mailbox = 0;
  notification_pending = false;
  notification_failure_count = 0;
  started = true;
  signal_state_sequence = 0;
  signal_state_publish_failure_count = 0;
  signal_state_publisher_open = true;
  next_sequence = 2097151;
}

abbrev noon : Timespec
noon = record { tv_sec = 12; tv_nsec = 5 }

unpack-pack_example : (sequence_of (pack 9 display) ≡ 9) × (unpack (pack 9 display) ≡ display)
unpack-pack_example = unpack-pack 9 display (omega arith) display-Fits

following_sequence_lem_example :
    (following_sequence 2097151 ≢ 0)
    × (following_sequence 2097151 < 2 ^ 21)
    × (following_sequence 2097151 ≢ 2097151)
following_sequence_lem_example = following_sequence_lem 2097151 (omega arith)

-- The sequence number starts again after 2^21 - 1.
wrapped : 7 ≢ following_sequence 2097151
unfolding following_sequence
wrapped = λ e. omega (arith, e)

state_of-display_of_example :
    let m = state_of 1 (display_of machine) in
    (m.north_south_lamp ≡ lamp_on_wire (lamp north_south machine))
    × (m.east_west_lamp ≡ lamp_on_wire (lamp east_west machine))
    × ((m.north_south_lamp ≡ lamp_red) ⊎ (m.east_west_lamp ≡ lamp_red))
state_of-display_of_example = state_of-display_of 1 machine-IsRunning

abbrev sent_state : SignalStateMessage
sent_state = record (state_of 1 display) { publish_timestamp_ns = 12000000005 }

published : (publish (some noon) true display simulator).1 ≡ some sent_state
unfolding publish
published = refl

publish-IsValid_example : has_valid_signal_state_envelope sent_state ≡ true
publish-IsValid_example =
    publish-IsValid noon true display simulator sent_state (omega arith) published

-- submit() has posted, and run() has loaded the word before its store to the flag takes effect.
abbrev quiet_handshake : Handshake
quiet_handshake = record {
  mailbox = 0;
  notification_pending = false;
  semaphore = 0;
  shown = 0;
  submit_at = outside;
  run_at = waiting;
  post_failed = false;
}

abbrev early_load : Handshake
early_load = load_mailbox (
    take_notification (post_notification true (exchange_pending (store_mailbox 5 quiet_handshake))))

early_load-Reached : Reached early_load
unfolding store_mailbox exchange_pending post_notification take_notification
early_load-Reached =
    moves
      (moves (moves (moves (moves begins (stores 5 refl)) (exchanges refl)) (posts true refl))
        (takes refl (omega arith)))
      (loads (inl refl))

pending_is_notified_example :
    (0 < early_load.semaphore)
    ⊎ (early_load.submit_at ≡ claimed)
    ⊎ (early_load.run_at ≡ awake)
    ⊎ (early_load.run_at ≡ loaded)
unfolding store_mailbox exchange_pending post_notification take_notification load_mailbox
pending_is_notified_example = pending_is_notified early_load-Reached refl
