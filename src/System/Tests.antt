-- ===== src/System/Tests.antt =====
-- A plan on its way from the decision process into the controller.
use adaptive_traffic_light.Prelude.{
  ◌≡◌, ◌↔◌, refl, inl, inr, List, ◌||◌, ◌&&◌, true, false, none, some, [], ◌∷◌, arith,
}
use adaptive_traffic_light.Controller.SyncChannel.{new_channel}
use adaptive_traffic_light.Controller.PlanReceiver.{validate_plan, receive_plan}
use adaptive_traffic_light.Controller.MqWorker.{
  Round, received, receive_failed, receive_and_process_newest, is_newer_transport_message,
}
use adaptive_traffic_light.Controller.MqWorker.Transport.{
  IsQuiet, old_news, empty, accept_all, rounds_of,
}
use adaptive_traffic_light.Ipc.Errno.{etimedout}
use adaptive_traffic_light.Ipc.PlanMessage.{has_valid_timing_plan_envelope}
use adaptive_traffic_light.Controller.MqWorker.Tests.{worker}
use adaptive_traffic_light.Decision.Engine.{new_engine, process_traffic_metrics}
use adaptive_traffic_light.Decision.Engine.Invariant.{process_all}
use adaptive_traffic_light.Decision.Publisher.{message_of}
use adaptive_traffic_light.Decision.Tests.{fixed_point, alarmed, history, plan}
use adaptive_traffic_light.System.Delivery.{delivered-received}
use adaptive_traffic_light.System.Acceptance.{validate_plan-process_traffic_metrics}

-- Message 5 of a publisher comes behind its message 4 and before a second copy of itself; then the
-- queue is empty.
abbrev copy_and_end : List Round
copy_and_end = received 72 (message_of 77 5 plan) ∷ receive_failed etimedout ∷ []

copy_and_end-IsQuiet :
    IsQuiet
      (record worker {
        has_transport_position = true;
        publisher_instance_id = 77;
        last_sequence_number = 5;
      })
      copy_and_end
unfolding message_of
copy_and_end-IsQuiet =
    old_news 72 _ _ (λ n. absurd (ground (arith, n))) (empty etimedout [] (inl refl))

position_four :
    (accept_all ((72, message_of 77 4 plan) ∷ []) worker none).0.last_sequence_number ≡ 4
unfolding message_of is_newer_transport_message has_valid_timing_plan_envelope
position_four = refl

delivered-received_example :
    receive_and_process_newest
      (rounds_of
        ((72, message_of 77 4 plan) ∷ [])
        (received 72 (message_of 77 5 plan) ∷ copy_and_end))
      none
      worker
      new_channel
    ≡ some (record {
      worker = record (accept_all ((72, message_of 77 4 plan) ∷ []) worker none).0 {
        has_transport_position = true;
        publisher_instance_id = 77;
        last_sequence_number = 5;
      };
      channel = (receive_plan none plan new_channel).0;
      success = true;
    })
unfolding has_valid_timing_plan_envelope message_of is_newer_transport_message
delivered-received_example =
    delivered-received ((72, message_of 77 4 plan) ∷ []) copy_and_end 77 5 plan none worker
      new_channel (omega arith) (omega arith) (inr (inr (omega (arith, position_four))))
      copy_and_end-IsQuiet

validate_plan-process_traffic_metrics_example :
    let e =
      process_traffic_metrics fixed_point 400 alarmed
        (process_all fixed_point history (new_engine fixed_point)) in
    (validate_plan e.previous_plan ≡ true) ↔ (
      ((alarmed.emergency_north || alarmed.emergency_south)
        && (alarmed.emergency_east || alarmed.emergency_west))
      ≡ false)
validate_plan-process_traffic_metrics_example =
    validate_plan-process_traffic_metrics fixed_point history 400 alarmed (omega arith)
