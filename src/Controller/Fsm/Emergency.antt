-- ===== src/Controller/Fsm/Emergency.antt =====
-- signal_fsm_engine.cpp, evaluateEmergencyPlan and applyEmergencyPlan: when an emergency extends
-- the green phase that it meets.
use adaptive_traffic_light.Prelude.{
  ◌≤◌, ◌<◌, ◌≡◌, sym, subst, true, false, ◌⊎◌, inl, inr, ◌↔◌, arith, max,
}
use adaptive_traffic_light.Controller.Config.{
  PhaseId, ns_green, ew_green, PlanData, emergency_green_duration_ms, emergency_lower_threshold_ms,
  emergency_upper_threshold_ms,
}
use adaptive_traffic_light.Controller.Fsm.{
  SignalFsmEngine, accepted, current_phase_id, evaluate_emergency_plan, apply_emergency_plan,
}
use adaptive_traffic_light.Controller.Fsm.Invariant.{SamePhase, SamePhase-refl}
use adaptive_traffic_light.Controller.Fsm.Tick.{handle_emergency}

-- The emergency is for exactly the direction that has the green.
abbrev pub IsForGreen : PlanData → PhaseId → Type 0
IsForGreen plan p =
    ((p ≡ ns_green) × (plan.is_emergency_ns ≡ true) × (plan.is_emergency_ew ≡ false))
    ⊎ ((p ≡ ew_green) × (plan.is_emergency_ew ≡ true) × (plan.is_emergency_ns ≡ false))

-- evaluateEmergencyPlan() accepts an emergency exactly when the machine has a plan, the phase is
-- the green of the one direction that the emergency asks for, and more than 3 s but less than 15 s
-- of it are left.
pub evaluate_emergency_plan_iff :
    (plan : PlanData) (f : SignalFsmEngine)
    → (evaluate_emergency_plan plan f ≡ accepted) ↔ (
        (f.has_active_plan ≡ true)
        × IsForGreen plan (current_phase_id f)
        × (emergency_lower_threshold_ms < f.remaining_time_ms)
        × (f.remaining_time_ms < emergency_upper_threshold_ms))
unfolding evaluate_emergency_plan
evaluate_emergency_plan_iff plan f = (λ h. ground arith, λ h. ground arith)

-- What handling an emergency does to the countdown: an accepted one sets it to 20 s, any other
-- leaves the machine as it is.
pub handle_emergency-cases :
    (plan : PlanData) (f : SignalFsmEngine)
    → ((evaluate_emergency_plan plan f ≡ accepted)
        × SamePhase f (handle_emergency plan f)
        × ((handle_emergency plan f).remaining_time_ms ≡ emergency_green_duration_ms))
      ⊎ (handle_emergency plan f ≡ f)
unfolding handle_emergency evaluate_emergency_plan apply_emergency_plan
handle_emergency-cases plan f = ground arith

pub handle_emergency-SamePhase :
    (plan : PlanData) (f : SignalFsmEngine)
    → SamePhase f (handle_emergency plan f)
      × ((handle_emergency plan f).remaining_time_ms
          ≤ max f.remaining_time_ms emergency_green_duration_ms)
handle_emergency-SamePhase plan f = elim (handle_emergency-cases plan f) [
  | inl (_, s, r) ↦ (s, omega arith)
  | inr e ↦
      subst (λ g. SamePhase f g × (g.remaining_time_ms ≤ max f.remaining_time_ms 20000)) (sym e)
        (SamePhase-refl f, omega arith)
]
