-- ===== src/Controller/MqWorker/Tests.antt =====
-- Runs of the receive loop on concrete messages.
use adaptive_traffic_light.Prelude.{ℕ, ◌≡◌, refl, true, false, none, some, List, [], ◌∷◌, arith}
use adaptive_traffic_light.Ipc.PlanMessage.{TimingPlanMessage, has_valid_timing_plan_envelope}
use adaptive_traffic_light.Controller.SyncChannel.{new_channel}
use adaptive_traffic_light.Controller.MqWorker.{
  MqTimingPlanReceiverWorker, is_newer_transport_message, Round, stop_seen, received,
  receive_failed, drained, receive_loop, receive_and_process_newest,
}
use adaptive_traffic_light.Ipc.Errno.{enoent, etimedout}
use adaptive_traffic_light.Controller.SyncChannel.Invariant.{IsSound, new_channel-IsSound}
use adaptive_traffic_light.Controller.MqWorker.{OpenEnv, open_and_validate, Processed}
use adaptive_traffic_light.Controller.MqWorker.Run.{Pass, run, run-IsSound}
use adaptive_traffic_light.Controller.MqWorker.Transport.{rounds_of, no_replay}

abbrev pub message : TimingPlanMessage
message = record {
  magic = 0x54504c31;
  version = 1;
  message_size = 72;
  publisher_instance_id = 77;
  sequence_number = 5;
  plan_id = 9;
  generation_timestamp_ns = 100;
  perception_publish_timestamp_us = 90;
  green_north_south_ms = 30000;
  green_east_west_ms = 20000;
  yellow_ms = 3000;
  all_red_ms = 1000;
  cycle_length_ms = 58000;
  emergency_north_south = 0;
  emergency_east_west = 0;
  reserved0 = 0;
  reserved1 = 0;
}

abbrev pub worker : MqTimingPlanReceiverWorker
worker = record {
  is_open = true;
  has_transport_position = false;
  publisher_instance_id = 0;
  last_sequence_number = 0;
}

abbrev worker_at : ℕ → MqTimingPlanReceiverWorker
worker_at n = record worker {
  has_transport_position = true;
  publisher_instance_id = 77;
  last_sequence_number = n;
}

abbrev next_message : TimingPlanMessage
next_message = record message { sequence_number = 6 }

abbrev burst : List Round
burst = received 72 message ∷ received 72 next_message ∷ received 71 message ∷ stop_seen ∷ []

burst_lem : receive_loop burst worker none ≡ some (worker_at 6, drained (some next_message))
unfolding receive_loop is_newer_transport_message has_valid_timing_plan_envelope
burst_lem = refl

-- In the next run the publisher's message 7 comes first, then message 5 again.
no_replay_example :
    receive_and_process_newest
      (rounds_of
        ((72, record message { sequence_number = 7 }) ∷ [])
        (received 72 message ∷ receive_failed etimedout ∷ []))
      none
      (worker_at 6)
      new_channel
    ≡ receive_and_process_newest
        (rounds_of
          ((72, record message { sequence_number = 7 }) ∷ [])
          (receive_failed etimedout ∷ []))
        none
        (worker_at 6)
        new_channel
no_replay_example =
    no_replay burst (receive_failed etimedout ∷ [])
      ((72, record message { sequence_number = 7 }) ∷ []) worker (worker_at 6) next_message message
      72 none new_channel burst_lem (ground arith) refl (omega arith)

abbrev good_queue : OpenEnv
good_queue = record {
  open_error = none;
  getattr_error = none;
  attributes = record { mq_maxmsg = 8; mq_msgsize = 72 };
}

-- The queue is missing at first, then it gives two messages, then the thread is told to stop.
abbrev passes : List Pass
passes =
    record {
      running = true;
      open_env = record good_queue { open_error = some enoent };
      rounds = [];
      clock = none;
    }
    ∷ record { running = true; open_env = good_queue; rounds = burst; clock = none }
    ∷ record { running = false; open_env = good_queue; rounds = []; clock = none }
    ∷ []

abbrev closed_worker : MqTimingPlanReceiverWorker
closed_worker = record worker { is_open = false }

abbrev after_run : Processed
after_run = elim (run passes closed_worker new_channel) [
  | none ↦ record { worker = worker; channel = new_channel; success = false }
  | some p ↦ p
]

ran : run passes closed_worker new_channel ≡ some after_run
unfolding run open_and_validate receive_and_process_newest receive_loop is_newer_transport_message
    has_valid_timing_plan_envelope
ran = refl

run-IsSound_example : (after_run.worker.is_open ≡ false) × IsSound after_run.channel
run-IsSound_example = run-IsSound passes closed_worker new_channel after_run new_channel-IsSound ran
