-- ===== src/Decision/PeriodicService/Cycle.antt =====
-- periodic_service.cpp, runDecisionCycle: what a cycle does to the misses, the engine and the
-- queue.
use adaptive_traffic_light.Prelude.{
  ◌+◌, ◌^◌, ◌≤◌, ◌<◌, ◌≡◌, ◌≢◌, refl, Bool, none, some, ◌∙◌, true, false, ◌⊎◌, inl, inr, not,
  if-elim, List, [], ◌∷◌, length, u32, arith, not-eq_false,
}
use adaptive_traffic_light.Ipc.Errno.{Errno, eagain, eintr}
use adaptive_traffic_light.Ipc.PlanMessage.{TimingPlanMessage}
use adaptive_traffic_light.Ipc.QueueStatus.{is_success}
use adaptive_traffic_light.Decision.Float.{FloatOps}
use adaptive_traffic_light.Decision.Engine.{DecisionEngine, process_traffic_metrics}
use adaptive_traffic_light.Decision.Receiver.{
  TrafficDataReceiver, validate_snapshot, request_snapshot,
}
use adaptive_traffic_light.Decision.Publisher.{
  SendEnv, publish_timing_plan, retry_pending_timing_plan, make_message, try_send_pending,
  message_of, next_sequence_number,
}
use adaptive_traffic_light.Decision.PeriodicService.{
  PeriodicService, CycleEnv, Cycled, miss_cycle, decide_cycle, run_decision_cycle,
  maximum_consecutive_snapshot_misses,
}

module _ (ops : FloatOps) where
  open ops use {F}

  -- The queue gives a snapshot, and it is accepted.
  abbrev pub HasInput : CycleEnv F → PeriodicService F → Type 0
  HasInput env p =
      (is_success env.status ≡ true)
      × ((validate_snapshot ops env.validated_ns env.snapshot
            (request_snapshot ops env.status p.traffic_receiver).0).1
          ≡ true)

  abbrev pub decided : CycleEnv F → PeriodicService F → DecisionEngine F
  decided env p = process_traffic_metrics ops env.decided_ns env.snapshot p.decision_engine

  -- What mq_send() of one message comes to: it goes out; it waits, because the queue is full or the
  -- call was interrupted; or it waits and the cycle fails.
  abbrev pub IsAnswered : SendEnv → Bool → TimingPlanMessage → Cycled F → Type 0
  IsAnswered env is_open m c =
      ((is_open ≡ true)
        × (env.send_error ≡ none)
        × (c.delivered ≡ some m)
        × (c.service.timing_publisher.pending_latest ≡ none)
        × (c.successful ≡ true))
      ⊎ ((is_open ≡ true)
          × ((env.send_error ≡ some eagain) ⊎ (env.send_error ≡ some eintr))
          × (c.delivered ≡ none)
          × (c.service.timing_publisher.pending_latest ≡ some m)
          × (c.successful ≡ true))
      ⊎ (((is_open ≡ false)
            ⊎ ((e : Errno) × (env.send_error ≡ some e) × (e ≢ eagain) × (e ≢ eintr)))
          × (c.delivered ≡ none)
          × (c.service.timing_publisher.pending_latest ≡ some m)
          × (c.successful ≡ false))

  -- The message that a cycle makes of a new plan: under the next number, with the times at which
  -- the snapshot was received and published.
  abbrev pub new_message : CycleEnv F → PeriodicService F → TimingPlanMessage
  new_message env p =
      message_of p.timing_publisher.publisher_instance_id
        (next_sequence_number p.timing_publisher.sequence_number)
        (record (decided env p).previous_plan {
          generation_timestamp_ns = env.rx_ns;
          perception_publish_timestamp_us = env.snapshot.timestamp_us;
        })

  -- A cycle of a running service, with and without a new snapshot.
  pub record IsDecided (env : CycleEnv F) (p : PeriodicService F) (c : Cycled F) : Type 0 where
    pub input : HasInput env p
    pub alive : c.service.running ≡ p.running
    pub misses : c.service.consecutive_snapshot_misses ≡ 0
    pub engine : c.service.decision_engine ≡ decided env p
    pub answered : IsAnswered env.send p.timing_publisher.is_open (new_message env p) c

  pub record IsMissed (env : CycleEnv F) (p : PeriodicService F) (c : Cycled F) : Type 0 where
    pub no_input : HasInput env p → ⊥
    pub alive : c.service.running ≡ p.running
    pub misses : c.service.consecutive_snapshot_misses ≡ u32 (p.consecutive_snapshot_misses + 1)
    pub engine : c.service.decision_engine ≡ p.decision_engine
    pub idle :
        p.timing_publisher.pending_latest ≡ none
        → (c.delivered ≡ none)
          × (u32 (p.consecutive_snapshot_misses + 1) < 24 → c.successful ≡ true)
    pub resent :
        (m : TimingPlanMessage)
        → p.timing_publisher.pending_latest ≡ some m
        → u32 (p.consecutive_snapshot_misses + 1) < 24
        → IsAnswered env.send p.timing_publisher.is_open m c
    pub timeout :
        maximum_consecutive_snapshot_misses ≤ u32 (p.consecutive_snapshot_misses + 1)
        → c.successful ≡ false

  abbrev Outcome : CycleEnv F → PeriodicService F → Cycled F → Type 0
  Outcome env p c = IsDecided env p c ⊎ IsMissed env p c

  -- A plan that is published in a cycle without a miss.
  published-IsAnswered :
      (env : CycleEnv F) (p : PeriodicService F) (r : TrafficDataReceiver F)
      → IsAnswered env.send p.timing_publisher.is_open
          (new_message env p)
          (decide_cycle ops env (record p { traffic_receiver = r }))
  unfolding publish_timing_plan make_message try_send_pending
  published-IsAnswered env p r = ground arith

  missed :
      (env : CycleEnv F) (p : PeriodicService F) (r : TrafficDataReceiver F)
      → (HasInput env p → ⊥)
      → IsMissed env p (miss_cycle env.send (record p { traffic_receiver = r }))
  unfolding retry_pending_timing_plan try_send_pending
  missed env p r none_came = record {
    no_input = none_came;
    alive = refl;
    misses = refl;
    engine = refl;
    idle = λ h. ground (arith, h);
    resent = λ m h l. ground (arith, h, l);
    timeout = λ h. ground arith;
  }

  -- runDecisionCycle() on a running service whose health monitor let the cycle start. Either the
  -- queue gave a snapshot that is accepted: then the misses are zero and the engine's plan, stamped
  -- with the snapshot's times, is a message under the next number; it goes out if mq_send() takes it,
  -- stays pending with a successful cycle if the queue is full or the call is interrupted, and stays
  -- pending with a failed cycle on any other error or on a closed queue. Or there was none: then the
  -- engine stays as it is, one more miss is counted, from the 24th miss on the cycle fails, and
  -- before that the pending message, if there is one, is sent with these same three outcomes, and
  -- with none pending the cycle succeeds and nothing goes out.
  pub run_decision_cycle-cases :
      (env : CycleEnv F) (p : PeriodicService F)
      → p.running ≡ true
      → env.health_started ≡ true
      → IsDecided env p (run_decision_cycle ops env p)
        ⊎ IsMissed env p (run_decision_cycle ops env p)
  unfolding run_decision_cycle
  run_decision_cycle-cases env p h k =
      let q = request_snapshot ops env.status p.traffic_receiver in
      let v = validate_snapshot ops env.validated_ns env.snapshot q.0 in
      if-elim (Outcome env p) (not p.running) (λ e. absurd (ground arith))
        (λ _.
          if-elim (Outcome env p) (not env.health_started) (λ e. absurd (ground arith))
            (λ _.
              if-elim (Outcome env p) (not q.1)
                (λ e. inr (missed env p q.0 (λ i. absurd (ground arith))))
                (λ got.
                  if-elim (Outcome env p) (not v.1)
                    (λ e. inr (missed env p v.0 (λ i. absurd (ground arith))))
                    (λ e. inl (record {
                      input = (not-eq_false _ got, not-eq_false _ e);
                      alive = refl;
                      misses = refl;
                      engine = refl;
                      answered = published-IsAnswered env p v.0;
                    })))))

  -- A cycle for which the queue gives nothing.
  abbrev pub IsSilent : CycleEnv F → Type 0
  IsSilent env = (env.health_started ≡ true) × (is_success env.status ≡ false)

  abbrev pub AllSilent : List (CycleEnv F) → Type 0
  AllSilent [] = Unit {0}
  AllSilent (env ∷ later) = IsSilent env × AllSilent later

  unfoldable pub run_cycles : List (CycleEnv F) → PeriodicService F → PeriodicService F
  run_cycles [] p = p
  run_cycles (env ∷ later) p = run_cycles later (run_decision_cycle ops env p).service

  silent-IsMissed :
      (env : CycleEnv F) (p : PeriodicService F)
      → p.running ≡ true
      → IsSilent env
      → IsMissed env p (run_decision_cycle ops env p)
  silent-IsMissed env p h s = elim (run_decision_cycle-cases env p h s.0) [
    | inl d ↦ absurd (ground (arith, d.input, s))
    | inr m ↦ m
  ]

  run_cycles-misses :
      (envs : List (CycleEnv F)) (p : PeriodicService F)
      → p.running ≡ true
      → AllSilent envs
      → p.consecutive_snapshot_misses + length envs < 2 ^ 32
      → ((run_cycles envs p).running ≡ true)
        × ((run_cycles envs p).consecutive_snapshot_misses
            ≡ p.consecutive_snapshot_misses + length envs)
  unfolding run_cycles
  run_cycles-misses [] p h s b = (h, omega arith)
  run_cycles-misses (env ∷ later) p h s b =
      let m = silent-IsMissed env p h s.0 in
      let rest =
        run_cycles-misses later (run_decision_cycle ops env p).service (m.alive ∙ h) s.1
          (omega (arith, m.misses, b)) in
      (rest.0, omega (arith, rest.1, m.misses, b))

  -- After cycles for which the queue gives nothing, each of them counted (fewer than 2^32), the
  -- next one fails if with it 24 have been missed in a row.
  pub run_cycles-timeout :
      (envs : List (CycleEnv F)) (env : CycleEnv F) (p : PeriodicService F)
      → p.running ≡ true
      → AllSilent envs
      → IsSilent env
      → p.consecutive_snapshot_misses + length envs + 1 < 2 ^ 32
      → 24 ≤ p.consecutive_snapshot_misses + length envs + 1
      → (run_decision_cycle ops env (run_cycles envs p)).successful ≡ false
  run_cycles-timeout envs env p h s t b m =
      let r = run_cycles-misses envs p h s (omega arith) in
      (silent-IsMissed env (run_cycles envs p) r.0 t).timeout (omega (arith, r.1, b, m))
