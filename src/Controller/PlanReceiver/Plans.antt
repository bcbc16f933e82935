-- ===== src/Controller/PlanReceiver/Plans.antt =====
-- plan_receiver.cpp: which plans pass the validation, and what they become.
use adaptive_traffic_light.Prelude.{
  ℕ, ◌+◌, ◌*◌, ◌≤◌, ◌≡◌, refl, ◌≢◌, ◌↔◌, ◌⊎◌, ◌&&◌, true, false, arith,
}
use adaptive_traffic_light.Ipc.Messages.{TimingPlan}
use adaptive_traffic_light.Controller.Config.{
  PlanData, cycle, min_green_duration_ms, max_green_duration_ms, min_yellow_duration_ms,
  max_yellow_duration_ms, min_all_red_duration_ms, max_all_red_duration_ms, make_default_plan,
}
use adaptive_traffic_light.Controller.PlanReceiver.{validate_plan, translate_plan}

abbrev pub IsGreenTime : ℕ → Type 0
IsGreenTime t = (min_green_duration_ms ≤ t) × (t ≤ max_green_duration_ms)

abbrev pub IsYellowTime : ℕ → Type 0
IsYellowTime t = (min_yellow_duration_ms ≤ t) × (t ≤ max_yellow_duration_ms)

abbrev pub IsAllRedTime : ℕ → Type 0
IsAllRedTime t = (min_all_red_duration_ms ≤ t) × (t ≤ max_all_red_duration_ms)

-- What a plan from the decision process has to satisfy.
pub record IsAcceptable (p : TimingPlan) : Type 0 where
  pub identified : p.plan_id ≢ 0
  pub one_way : (p.emergency_north_south && p.emergency_east_west) ≡ false
  pub green_ns : IsGreenTime p.green_north_south_ms
  pub green_ew : IsGreenTime p.green_east_west_ms
  pub yellow_time : IsYellowTime p.yellow_ms
  pub all_red_time : IsAllRedTime p.all_red_ms
  pub cycle_length :
      (p.cycle_length_ms ≡ 0)
      ⊎ (p.cycle_length_ms
          ≡ p.green_north_south_ms + p.green_east_west_ms + 2 * p.yellow_ms + 2 * p.all_red_ms)

-- The six phases of a plan that the state machine can run, each within its limits.
pub record IsCyclePlan (p : PlanData) : Type 0 where
  pub g1 : ℕ
  pub y1 : ℕ
  pub r1 : ℕ
  pub g2 : ℕ
  pub y2 : ℕ
  pub r2 : ℕ
  pub shape : p.phases ≡ cycle g1 y1 r1 g2 y2 r2
  pub count : p.phase_count ≡ 6
  pub g1_in : IsGreenTime g1
  pub y1_in : IsYellowTime y1
  pub r1_in : IsAllRedTime r1
  pub g2_in : IsGreenTime g2
  pub y2_in : IsYellowTime y2
  pub r2_in : IsAllRedTime r2

-- ValidatePlan() accepts exactly the plans that have an identity, ask for at most one emergency
-- direction, keep every duration within its limits, and give either no cycle length or the sum of
-- the six phases.
pub validate_plan_iff : (p : TimingPlan) → (validate_plan p ≡ true) ↔ IsAcceptable p
unfolding validate_plan
validate_plan_iff p = (λ h. ground arith, λ h. ground arith)

-- TranslatePlan() turns every plan that passes ValidatePlan() into six phases that the state
-- machine can run: both greens, each with the yellow and the all-red time behind it.
pub translate_plan-IsCyclePlan :
    (p : TimingPlan) → validate_plan p ≡ true → IsCyclePlan (translate_plan p)
unfolding translate_plan
translate_plan-IsCyclePlan p h =
    let a = (validate_plan_iff p).0 h in
    record {
      g1 = p.green_north_south_ms;
      y1 = p.yellow_ms;
      r1 = p.all_red_ms;
      g2 = p.green_east_west_ms;
      y2 = p.yellow_ms;
      r2 = p.all_red_ms;
      shape = refl;
      count = refl;
      g1_in = a.green_ns;
      y1_in = a.yellow_time;
      r1_in = a.all_red_time;
      g2_in = a.green_ew;
      y2_in = a.yellow_time;
      r2_in = a.all_red_time;
    }

-- The plan that the machine starts with is such a plan.
pub make_default_plan-IsCyclePlan : IsCyclePlan make_default_plan
make_default_plan-IsCyclePlan = record {
  g1 = 30000;
  y1 = 3000;
  r1 = 1000;
  g2 = 30000;
  y2 = 3000;
  r2 = 1000;
  shape = refl;
  count = refl;
  g1_in = omega arith;
  y1_in = omega arith;
  r1_in = omega arith;
  g2_in = omega arith;
  y2_in = omega arith;
  r2_in = omega arith;
}
