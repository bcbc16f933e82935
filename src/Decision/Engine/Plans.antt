-- ===== src/Decision/Engine/Plans.antt =====
-- decision_engine.cpp, processTrafficMetrics: the identity and the emergency flags of the plans,
-- and what an emergency does to the greens.
use adaptive_traffic_light.Prelude.{
  ℕ, ◌+◌, ◌^◌, ◌<◌, ◌≡◌, ap, ◌∙◌, true, ◌||◌, List, [], ◌∷◌, arith, u64, length,
}
use adaptive_traffic_light.Ipc.Messages.{TimingPlan, TrafficSnapshot}
use adaptive_traffic_light.Decision.Float.{FloatOps}
use adaptive_traffic_light.Decision.Constraints.{clamped, apply_timing_constraints}
use adaptive_traffic_light.Decision.Constraints.Limits.{
  IsWithinLimits, apply_timing_constraints-IsConstrained,
}
use adaptive_traffic_light.Decision.Engine.{
  DecisionEngine, new_engine, detect_emergency, set_emergency_flags, generate_draft_timing_plan,
  draft_plan, process_traffic_metrics,
}
use adaptive_traffic_light.Decision.Engine.Invariant.{IsSteady, process_all}

clamped-kept :
    (p : TimingPlan)
    → IsWithinLimits p
    → ((clamped p).green_north_south_ms ≡ p.green_north_south_ms)
      × ((clamped p).green_east_west_ms ≡ p.green_east_west_ms)
clamped-kept p v = ground arith

steady-kept :
    (p : TimingPlan)
    → IsWithinLimits p
    → let q = apply_timing_constraints p in
      (q.green_north_south_ms ≡ p.green_north_south_ms)
      × (q.green_east_west_ms ≡ p.green_east_west_ms)
steady-kept p v =
    let k = clamped-kept p v in
    let e = (apply_timing_constraints-IsConstrained p).kept (omega (arith, k, v)) in
    (
      ap (λ (q : TimingPlan). q.green_north_south_ms) e ∙ k.0,
      ap (λ (q : TimingPlan). q.green_east_west_ms) e ∙ k.1,
    )

module _ (ops : FloatOps) where
  open ops use {F}

  -- What every processed snapshot gives, beside the greens.
  pub record IsMarked (now_ns : ℕ) (s : TrafficSnapshot F) (e e' : DecisionEngine F) : Type 0 where
    pub plan_id : e'.previous_plan.plan_id ≡ e.next_plan_id
    pub next_plan_id : e'.next_plan_id ≡ u64 (e.next_plan_id + 1)
    pub generation : e'.previous_plan.generation_timestamp_ns ≡ now_ns
    pub flag_ns : e'.previous_plan.emergency_north_south ≡ (s.emergency_north || s.emergency_south)
    pub flag_ew : e'.previous_plan.emergency_east_west ≡ (s.emergency_east || s.emergency_west)

  draft_lem :
      (now_ns : ℕ) (s : TrafficSnapshot F) (e : DecisionEngine F)
      → let (e', p) = draft_plan ops now_ns s e in
        (p.plan_id ≡ e.next_plan_id)
        × (e'.next_plan_id ≡ u64 (e.next_plan_id + 1))
        × (p.generation_timestamp_ns ≡ now_ns)
        × (p.emergency_north_south ≡ (s.emergency_north || s.emergency_south))
        × (p.emergency_east_west ≡ (s.emergency_east || s.emergency_west))
  unfolding draft_plan set_emergency_flags generate_draft_timing_plan
  draft_lem now_ns s e = ground arith

  -- processTrafficMetrics() gives each plan the next identifier and the time of its making, and
  -- raises the emergency flag of an axis exactly when one of its two directions reports an
  -- emergency.
  pub process_traffic_metrics-IsMarked :
      (now_ns : ℕ) (s : TrafficSnapshot F) (e : DecisionEngine F)
      → IsMarked now_ns s e (process_traffic_metrics ops now_ns s e)
  unfolding process_traffic_metrics
  process_traffic_metrics-IsMarked now_ns s e =
      let d = draft_lem now_ns s e in
      let c = apply_timing_constraints-IsConstrained (draft_plan ops now_ns s e).1 in
      record {
        plan_id = c.plan_id ∙ d.0;
        next_plan_id = d.1;
        generation = c.generation ∙ d.2;
        flag_ns = c.emergency_ns ∙ d.3;
        flag_ew = c.emergency_ew ∙ d.4;
      }

  -- While an emergency lasts, the greens of the last plan are kept.
  pub emergency_keeps_greens :
      (now_ns : ℕ) (s : TrafficSnapshot F) (e : DecisionEngine F)
      → IsSteady e
      → detect_emergency ops s ≡ true
      → let p = (process_traffic_metrics ops now_ns s e).previous_plan in
        (p.green_north_south_ms ≡ e.previous_plan.green_north_south_ms)
        × (p.green_east_west_ms ≡ e.previous_plan.green_east_west_ms)
  unfolding process_traffic_metrics draft_plan set_emergency_flags
  emergency_keeps_greens now_ns s e v h = rw h (
      steady-kept _ (record {
        green_ns_min = v.limits.green_ns_min;
        green_ns_max = v.limits.green_ns_max;
        green_ew_min = v.limits.green_ew_min;
        green_ew_max = v.limits.green_ew_max;
        yellow_time = v.limits.yellow_time;
        all_red_time = v.limits.all_red_time;
        cycle_sum = v.limits.cycle_sum;
        cycle_max = v.limits.cycle_max;
      }))

  process_all-next_plan_id :
      (inputs : List (ℕ × TrafficSnapshot F)) (e : DecisionEngine F)
      → e.next_plan_id + length inputs < 2 ^ 64
      → (process_all ops inputs e).next_plan_id ≡ e.next_plan_id + length inputs
  unfolding process_all
  process_all-next_plan_id [] e h = omega arith
  process_all-next_plan_id ((now_ns, s) ∷ later) e h =
      let m = process_traffic_metrics-IsMarked now_ns s e in
      omega (
        arith,
        m.next_plan_id,
        process_all-next_plan_id later (process_traffic_metrics ops now_ns s e)
            (omega (arith, m.next_plan_id)),
      )

  -- The plans of one run are numbered 1, 2, 3, … in the order of the snapshots, as long as the
  -- 64-bit counter does not wrap.
  pub plan_id-process_all :
      (inputs : List (ℕ × TrafficSnapshot F)) (now_ns : ℕ) (s : TrafficSnapshot F)
      → length inputs + 1 < 2 ^ 64
      → let e = process_traffic_metrics ops now_ns s (process_all ops inputs (new_engine ops)) in
        e.previous_plan.plan_id ≡ length inputs + 1
  unfolding new_engine
  plan_id-process_all inputs now_ns s h = omega (
    arith,
    (process_traffic_metrics-IsMarked now_ns s (process_all ops inputs (new_engine ops))).plan_id,
    process_all-next_plan_id inputs (new_engine ops) (omega arith),
  )
