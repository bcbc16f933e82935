-- ===== src/System/Acceptance.antt =====
-- decision_engine.cpp and plan_receiver.cpp together: which of the engine's plans the controller
-- accepts.
use adaptive_traffic_light.Prelude.{
  ℕ, ◌+◌, ◌^◌, ◌<◌, ◌≡◌, ◌≢◌, ◌↔◌, sym, ap, ◌∙◌, Bool, true, false, inr, ◌||◌, ◌&&◌, List, length,
  arith,
}
use adaptive_traffic_light.Ipc.Messages.{TimingPlan, TrafficSnapshot}
use adaptive_traffic_light.Decision.Float.{FloatOps}
use adaptive_traffic_light.Decision.Constraints.Limits.{IsWithinLimits}
use adaptive_traffic_light.Decision.Engine.{new_engine, process_traffic_metrics}
use adaptive_traffic_light.Decision.Engine.Invariant.{
  process_all, process_traffic_metrics-IsSteady, new_engine-process_all,
}
use adaptive_traffic_light.Decision.Engine.Plans.{
  process_traffic_metrics-IsMarked, plan_id-process_all,
}
use adaptive_traffic_light.Controller.PlanReceiver.{validate_plan}
use adaptive_traffic_light.Controller.PlanReceiver.Plans.{IsAcceptable, validate_plan_iff}

limits-IsAcceptable :
    (p : TimingPlan)
    → IsWithinLimits p
    → p.plan_id ≢ 0
    → (p.emergency_north_south && p.emergency_east_west) ≡ false
    → IsAcceptable p
limits-IsAcceptable p v i o = record {
  identified = i;
  one_way = o;
  green_ns = omega (arith, v);
  green_ew = omega (arith, v);
  yellow_time = omega (arith, v);
  all_red_time = omega (arith, v);
  cycle_length = inr v.cycle_sum;
}

module _ (ops : FloatOps) where
  open ops use {F}

  -- The controller accepts the plan that the engine makes of a snapshot, after any sequence of
  -- earlier ones that does not wrap the 64-bit plan number, exactly when the snapshot does not
  -- report emergencies on both axes.
  pub validate_plan-process_traffic_metrics :
      (inputs : List (ℕ × TrafficSnapshot F)) (now_ns : ℕ) (s : TrafficSnapshot F)
      → length inputs + 1 < 2 ^ 64
      → let e = process_traffic_metrics ops now_ns s (process_all ops inputs (new_engine ops)) in
        (validate_plan e.previous_plan ≡ true) ↔ (
          ((s.emergency_north || s.emergency_south) && (s.emergency_east || s.emergency_west))
          ≡ false)
  validate_plan-process_traffic_metrics inputs now_ns s h =
      let e = process_all ops inputs (new_engine ops) in
      let p = (process_traffic_metrics ops now_ns s e).previous_plan in
      let m = process_traffic_metrics-IsMarked ops now_ns s e in
      let v = process_traffic_metrics-IsSteady ops now_ns s e (new_engine-process_all ops inputs) in
      let flags =
        ap (λ (a : Bool). a && p.emergency_east_west) m.flag_ns
        ∙ ap (λ (b : Bool). (s.emergency_north || s.emergency_south) && b) m.flag_ew in
      (
        λ k. sym flags ∙ ((validate_plan_iff p).0 k).one_way,
        λ k. (validate_plan_iff p).1 (
            limits-IsAcceptable p v.limits
              (λ z. omega (arith, z, plan_id-process_all ops inputs now_ns s h)) (flags ∙ k)),
      )
