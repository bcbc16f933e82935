-- ===== src/System/Delivery.antt =====
-- timing_plan_publisher.cpp and mq_timing_plan_receiver_worker.cpp together: a plan that the queue
-- took reaches the controller's mailbox.
use adaptive_traffic_light.Prelude.{
  ℕ, ◌<◌, ◌≡◌, ◌≢◌, refl, ap, ◌∙◌, Bool, true, false, ◌⊎◌, inl, inr, Option, none, some, List, [],
  ◌∷◌, if◌then◌else◌, ◌==◌, arith, Timespec,
}
use adaptive_traffic_light.Ipc.Messages.{TimingPlan}
use adaptive_traffic_light.Ipc.PlanMessage.{TimingPlanMessage, timing_plan_queue_message_size}
use adaptive_traffic_light.Controller.SyncChannel.{SyncChannel}
use adaptive_traffic_light.Controller.PlanReceiver.{receive_plan}
use adaptive_traffic_light.Controller.MqWorker.{
  MqTimingPlanReceiverWorker, decode_plan, Round, received, receive_loop,
  receive_and_process_newest, Processed,
}
use adaptive_traffic_light.Controller.MqWorker.Transport.{
  accept_message_lem, Arrivals, accept_all, rounds_of, finish, receive_loop-rounds_of, IsQuiet,
  IsQuiet-drained,
}
use adaptive_traffic_light.Decision.Publisher.{message_of}
use adaptive_traffic_light.Decision.Publisher.Sending.{message_of-IsValid}

flag_round_trip : (b : Bool) → ((if b then 1 else 0) == 1) ≡ b
flag_round_trip b = ground arith

-- The worker decodes what the publisher encoded, whoever sent it and under whatever number.
pub decode_plan-message_of :
    (instance_number sequence : ℕ) (plan : TimingPlan)
    → decode_plan (message_of instance_number sequence plan) ≡ plan
unfolding decode_plan message_of
decode_plan-message_of instance_number sequence plan =
    rw (flag_round_trip plan.emergency_north_south, flag_round_trip plan.emergency_east_west) refl

-- A message of an identified publisher that is ahead of the worker's transport position, or that
-- comes from another publisher than the last one, when it is its turn in a run of the receive loop:
-- behind any messages, and if nothing that is newer follows before the run ends without an error. It
-- is decoded to the plan it was made from, and that plan is what ReceivePlan() gets.
pub delivered-received :
    (before : Arrivals) (later : List Round) (instance_number sequence : ℕ) (plan : TimingPlan)
    (clock : Option Timespec) (w : MqTimingPlanReceiverWorker) (ch : SyncChannel)
    → let v = (accept_all before w none).0 in
      let t = record v {
        has_transport_position = true;
        publisher_instance_id = instance_number;
        last_sequence_number = sequence;
      } in
      instance_number ≢ 0
      → sequence ≢ 0
      → (v.has_transport_position ≡ false)
        ⊎ (instance_number ≢ v.publisher_instance_id)
        ⊎ (v.last_sequence_number < sequence)
      → IsQuiet t later
      → receive_and_process_newest
          (rounds_of before (
            received timing_plan_queue_message_size (message_of instance_number sequence plan)
            ∷ later))
          clock
          w
          ch
        ≡ some (record { worker = t; channel = (receive_plan clock plan ch).0; success = true })
unfolding receive_and_process_newest message_of
delivered-received before later i s plan clock w ch hi hs fresh quiet =
    let v = accept_all before w none in
    elim (accept_message_lem timing_plan_queue_message_size (message_of i s plan) v.0 v.1) [
      | inl h ↦
          ap (finish clock ch) (
            receive_loop-rounds_of before
              (received timing_plan_queue_message_size (message_of i s plan) ∷ later) w none
            ∙ receive_loop-rounds_of ((timing_plan_queue_message_size, message_of i s plan) ∷ [])
                later v.0 v.1
            ∙ ap
                (λ (x : MqTimingPlanReceiverWorker × Option TimingPlanMessage).
                  receive_loop later x.0 x.1)
                h.1
            ∙ IsQuiet-drained _ later (some (message_of i s plan)) quiet)
          ∙ ap (processed v.0) (decode_plan-message_of i s plan)
      | inr h ↦ absurd (h.0 (refl, message_of-IsValid i s plan hi hs, fresh))
    ]
  where
    processed : MqTimingPlanReceiverWorker → TimingPlan → Option Processed
    processed v p = some (record {
      worker = record v {
        has_transport_position = true;
        publisher_instance_id = i;
        last_sequence_number = s;
      };
      channel = (receive_plan clock p ch).0;
      success = true;
    })
