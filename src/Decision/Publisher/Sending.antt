-- ===== src/Decision/Publisher/Sending.antt =====
-- timing_plan_publisher.cpp: the newest plan wins, and every message that leaves has its own
-- sequence number.
use mathlib.Core.Option.{some-injective}
use adaptive_traffic_light.Prelude.{
  ℕ, ◌+◌, ◌≤◌, ◌≡◌, ◌≢◌, refl, sym, true, false, not, ◌⊎◌, none, some, if-elim, option-elim, arith,
  u64_max,
}
use adaptive_traffic_light.Ipc.Errno.{Errno, eagain, eintr, is_eagain, is_eintr}
use adaptive_traffic_light.Ipc.Messages.{TimingPlan}
use adaptive_traffic_light.Ipc.PlanMessage.{TimingPlanMessage, has_valid_timing_plan_envelope}
use adaptive_traffic_light.Decision.Publisher.{
  TimingPlanPublisher, SendEnv, Sent, OpenEnv, initialize, validate_queue_contract,
  next_sequence_number, message_of, make_message, try_send_pending, publish_timing_plan,
  retry_pending_timing_plan, send_candidate,
}

-- The two optional values are in step, and the message is the plan's, with the last number drawn.
pub record IsConsistent (p : TimingPlanPublisher) : Type 0 where
  pub no_plan : p.pending_latest ≡ none → p.pending_latest_plan ≡ none
  pub of_plan :
      (m : TimingPlanMessage)
      → p.pending_latest ≡ some m
      → (plan : TimingPlan) × (p.pending_latest_plan ≡ some plan)
        × (m ≡ message_of p.publisher_instance_id p.sequence_number plan)

-- A new sequence number is never 0, and it is larger than the last one unless the 64-bit counter
-- starts again.
pub next_sequence_number_lem :
    (n : ℕ)
    → n ≤ u64_max
    → (next_sequence_number n ≢ 0)
      × (next_sequence_number n ≤ u64_max)
      × ((next_sequence_number n ≡ n + 1) ⊎ (n ≡ u64_max))
unfolding next_sequence_number
next_sequence_number_lem n h = ground arith

-- A message of an identified publisher with a drawn number has a valid envelope.
pub message_of-IsValid :
    (instance_number sequence : ℕ) (plan : TimingPlan)
    → instance_number ≢ 0
    → sequence ≢ 0
    → has_valid_timing_plan_envelope (message_of instance_number sequence plan) ≡ true
unfolding has_valid_timing_plan_envelope message_of
message_of-IsValid instance_number sequence plan h k = ground arith

-- initialize(), when it opens the queue, gives the publisher an identity that is not 0, starts the
-- numbers again and drops what was pending.
pub initialize-fresh :
    (env : OpenEnv) (p : TimingPlanPublisher)
    → p.is_open ≡ false
    → (initialize env p).1 ≡ true
    → let q = (initialize env p).0 in
      (q.is_open ≡ true)
      × (q.publisher_instance_id ≢ 0)
      × (q.sequence_number ≡ 0)
      × (q.pending_latest ≡ none)
      × (q.pending_latest_plan ≡ none)
unfolding initialize validate_queue_contract
initialize-fresh env p h k = ground arith

-- The outcomes of publishTimingPlan(): sent, put off, or failed.
abbrev pub IsPublished : SendEnv → TimingPlan → TimingPlanPublisher → Type 0
IsPublished env plan p =
    let r = publish_timing_plan env plan p in
    let m = message_of p.publisher_instance_id (next_sequence_number p.sequence_number) plan in
    ((p.is_open ≡ true)
      × (env.send_error ≡ none)
      × (r.success ≡ true)
      × (r.delivered ≡ some m)
      × (r.publisher.pending_latest ≡ none)
      × (r.publisher.last_published_plan ≡ plan))
    ⊎ ((r.success ≡ true)
        × ((env.send_error ≡ some eagain) ⊎ (env.send_error ≡ some eintr))
        × (r.delivered ≡ none)
        × (r.publisher.pending_latest ≡ some m)
        × (r.publisher.last_published_plan ≡ p.last_published_plan))
    ⊎ ((r.success ≡ false)
        × ((p.is_open ≡ false)
            ⊎ ((e : Errno) × (env.send_error ≡ some e)
                × (is_eagain e ≡ false)
                × (is_eintr e ≡ false)))
        × (r.delivered ≡ none)
        × (r.publisher.pending_latest ≡ some m)
        × (r.publisher.last_published_plan ≡ p.last_published_plan))

-- publishTimingPlan() on every branch: the plan replaces whatever was pending, under the next
-- sequence number. If the queue takes it, it is delivered and recorded as the last published plan
-- and nothing stays pending. If the queue is full or the call is interrupted, the result is still
-- a success and the plan stays pending; any other error, and a closed queue, is a failure with the
-- plan pending.
pub publish_timing_plan_lem :
    (env : SendEnv) (plan : TimingPlan) (p : TimingPlanPublisher) → IsPublished env plan p
unfolding publish_timing_plan make_message try_send_pending
publish_timing_plan_lem env plan p = ground arith

-- A retry sends the message that publishTimingPlan() left pending, with the number that it had.
pub retry_after_deferral :
    (env later : SendEnv) (plan : TimingPlan) (p : TimingPlanPublisher) (e : Errno)
    → p.is_open ≡ true
    → env.send_error ≡ some e
    → later.send_error ≡ none
    → let r = retry_pending_timing_plan later (publish_timing_plan env plan p).publisher in
      (r.delivered
        ≡ some (message_of p.publisher_instance_id (next_sequence_number p.sequence_number) plan))
      × (r.publisher.last_published_plan ≡ plan)
      × (r.publisher.pending_latest ≡ none)
unfolding publish_timing_plan make_message try_send_pending retry_pending_timing_plan
retry_after_deferral env later plan p e h k l = ground arith

send-IsConsistent :
    (env : SendEnv) (m : TimingPlanMessage) (p : TimingPlanPublisher)
    → IsConsistent p
    → IsConsistent (send_candidate env m p).publisher
send-IsConsistent env m p c =
    option-elim (λ (r : Sent). IsConsistent r.publisher) env.send_error
      (λ _. record { no_plan = λ _. refl; of_plan = λ m' e. absurd (cc) })
      (λ e _. record { no_plan = c.no_plan; of_plan = c.of_plan })

-- trySendPending() keeps the pending message and the pending plan in step.
pub try_send_pending-IsConsistent :
    (env : SendEnv) (p : TimingPlanPublisher)
    → IsConsistent p
    → IsConsistent (try_send_pending env p).publisher
unfolding try_send_pending
try_send_pending-IsConsistent env p c =
    option-elim (λ (r : Sent). IsConsistent r.publisher) p.pending_latest (λ _. c)
      (λ m _.
        if-elim (λ (r : Sent). IsConsistent r.publisher) (not p.is_open)
          (λ _. record { no_plan = c.no_plan; of_plan = c.of_plan })
          (λ _. send-IsConsistent env m p c))

-- Whatever was pending before, after publishTimingPlan() the pending message, if there is one, is
-- the pending plan under the number that was drawn last.
pub publish_timing_plan-IsConsistent :
    (env : SendEnv) (plan : TimingPlan) (p : TimingPlanPublisher)
    → IsConsistent (publish_timing_plan env plan p).publisher
unfolding publish_timing_plan make_message
publish_timing_plan-IsConsistent env plan p = try_send_pending-IsConsistent env _ (record {
  no_plan = λ e. absurd (cc);
  of_plan = λ m e. (plan, refl, sym (some-injective _ m e));
})
