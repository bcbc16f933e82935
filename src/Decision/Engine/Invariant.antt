-- ===== src/Decision/Engine/Invariant.antt =====
-- decision_engine.cpp: what holds of the engine after any sequence of snapshots.
use adaptive_traffic_light.Prelude.{ℕ, ◌+◌, ◌≤◌, ◌≡◌, ap, List, [], ◌∷◌, if-elim, arith}
use native.Mathlib.Decide.{dec_le}
use adaptive_traffic_light.Ipc.Messages.{TimingPlan, TrafficSnapshot}
use adaptive_traffic_light.Decision.Float.{FloatOps}
use adaptive_traffic_light.Decision.Constraints.{clamped, apply_timing_constraints}
use adaptive_traffic_light.Decision.Constraints.Limits.{
  IsWithinLimits, apply_timing_constraints-IsConstrained,
}
use adaptive_traffic_light.Decision.Engine.{
  DecisionEngine, target_green_time_ms, calculate_demand_score, new_engine, detect_emergency,
  set_emergency_flags, assign_green_time, generate_draft_timing_plan, draft_plan,
  process_traffic_metrics,
}
use adaptive_traffic_light.Decision.Engine.Steps.{target_green_time_ms_bounds, step_toward_bounds}

-- The engine's last plan keeps the limits, and its greens stay between 20 s and 50 s.
pub record IsSteady {F : Type 0} (e : DecisionEngine F) : Type 0 where
  pub limits : IsWithinLimits e.previous_plan
  pub ns_low : 20000 ≤ e.previous_plan.green_north_south_ms
  pub ns_high : e.previous_plan.green_north_south_ms ≤ 50000
  pub ew_low : 20000 ≤ e.previous_plan.green_east_west_ms
  pub ew_high : e.previous_plan.green_east_west_ms ≤ 50000

abbrev InBand : TimingPlan → Type 0
InBand p =
    (20000 ≤ p.green_north_south_ms)
    × (p.green_north_south_ms ≤ 50000)
    × (20000 ≤ p.green_east_west_ms)
    × (p.green_east_west_ms ≤ 50000)

clamped-InBand :
    (p : TimingPlan)
    → InBand p
    → ((clamped p).green_north_south_ms ≡ p.green_north_south_ms)
      × ((clamped p).green_east_west_ms ≡ p.green_east_west_ms)
clamped-InBand p b = ground arith

-- The constraints keep the greens in the band: where both shrink, they fill 92 s.
pub constrained-InBand : (p : TimingPlan) → InBand p → InBand (apply_timing_constraints p)
constrained-InBand p b =
    let c = apply_timing_constraints-IsConstrained p in
    let k = clamped-InBand p b in
    elim (dec_le (p.green_north_south_ms + p.green_east_west_ms) 92000) [
      | yes h ↦ omega (
        arith,
        ap (λ (q : TimingPlan). q.green_north_south_ms) (c.kept (omega arith)),
        ap (λ (q : TimingPlan). q.green_east_west_ms) (c.kept (omega arith)),
      )
      | no h ↦ omega (arith, c.filled (omega arith))
    ]

module _ (ops : FloatOps) where
  open ops use {F}

  draft_plan-InBand :
      (now_ns : ℕ) (s : TrafficSnapshot F) (e : DecisionEngine F)
      → IsSteady e
      → InBand (draft_plan ops now_ns s e).1
  unfolding draft_plan set_emergency_flags generate_draft_timing_plan assign_green_time
  draft_plan-InBand now_ns s e v =
      if-elim (λ (r : DecisionEngine F × TimingPlan). InBand r.1) (detect_emergency ops s)
        (λ _. (v.ns_low, v.ns_high, v.ew_low, v.ew_high))
        (λ _.
          let score = calculate_demand_score ops s in
          let t1 = target_green_time_ms_bounds ops score.north_south_score in
          let t2 = target_green_time_ms_bounds ops score.east_west_score in
          omega (
            arith,
            t1,
            t2,
            v,
            step_toward_bounds e.previous_plan.green_north_south_ms
                (target_green_time_ms ops score.north_south_score) (omega (arith, v))
                (omega (arith, t1)),
            step_toward_bounds e.previous_plan.green_east_west_ms
                (target_green_time_ms ops score.east_west_score) (omega (arith, v))
                (omega (arith, t2)),
          ))

  pub process_traffic_metrics-IsSteady :
      (now_ns : ℕ) (s : TrafficSnapshot F) (e : DecisionEngine F)
      → IsSteady e
      → IsSteady (process_traffic_metrics ops now_ns s e)
  unfolding process_traffic_metrics
  process_traffic_metrics-IsSteady now_ns s e v =
      let draft = (draft_plan ops now_ns s e).1 in
      let b = constrained-InBand draft (draft_plan-InBand now_ns s e v) in
      record {
        limits = (apply_timing_constraints-IsConstrained draft).limits;
        ns_low = b.0;
        ns_high = b.1;
        ew_low = b.2;
        ew_high = b.3;
      }

  new_engine-IsSteady : IsSteady (new_engine ops)
  unfolding new_engine
  new_engine-IsSteady = omega arith

  -- The engine after a sequence of snapshots, each with the time at which it was processed.
  unfoldable pub process_all : List (ℕ × TrafficSnapshot F) → DecisionEngine F → DecisionEngine F
  process_all [] e = e
  process_all ((now_ns, s) ∷ later) e = process_all later (process_traffic_metrics ops now_ns s e)

  process_all-IsSteady :
      (inputs : List (ℕ × TrafficSnapshot F)) (e : DecisionEngine F)
      → IsSteady e
      → IsSteady (process_all inputs e)
  unfolding process_all
  process_all-IsSteady [] e v = v
  process_all-IsSteady ((now_ns, s) ∷ later) e v =
      process_all-IsSteady later (process_traffic_metrics ops now_ns s e)
        (process_traffic_metrics-IsSteady now_ns s e v)

  -- After any sequence of snapshots, whatever the scores, the engine's plan keeps the limits (a
  -- cycle of at most 100 s that is the sum of its phases), and both greens lie between 20 s and
  -- 50 s.
  pub new_engine-process_all :
      (inputs : List (ℕ × TrafficSnapshot F)) → IsSteady (process_all inputs (new_engine ops))
  new_engine-process_all inputs = process_all-IsSteady inputs (new_engine ops) new_engine-IsSteady
