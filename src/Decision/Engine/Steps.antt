-- ===== src/Decision/Engine/Steps.antt =====
-- decision_engine.cpp, targetGreenTimeMs and stepToward: how a green time follows the demand.
use adaptive_traffic_light.Prelude.{ℕ, zero, suc, ◌+◌, ◌*◌, ◌≤◌, ◌≡◌, ◌⊎◌, arith}
use adaptive_traffic_light.Decision.Float.{FloatOps}
use adaptive_traffic_light.Decision.Engine.{step_toward, target_green_time_ms}

-- The targets lie between 20 s and 50 s.
pub target_green_time_ms_bounds :
    (ops : FloatOps) (score : ops.F)
    → (20000 ≤ target_green_time_ms ops score) × (target_green_time_ms ops score ≤ 50000)
unfolding target_green_time_ms
target_green_time_ms_bounds ops score = ground arith

-- One step stays between where it starts and where it aims.
pub step_toward_bounds :
    (current target : ℕ)
    → current ≤ 100000
    → target ≤ 100000
    → ((current ≤ target)
        × (current ≤ step_toward current target)
        × (step_toward current target ≤ target))
      ⊎ ((target ≤ current)
          × (target ≤ step_toward current target)
          × (step_toward current target ≤ current))
unfolding step_toward
step_toward_bounds current target h k = ground arith

-- `n` steps towards the same target.
abbrev pub steps_toward : ℕ → ℕ → ℕ → ℕ
steps_toward zero current target = current
steps_toward (suc n) current target = steps_toward n (step_toward current target) target

-- A step covers 5 s of the distance, or all of it.
step_toward-distance :
    (current target d : ℕ)
    → current ≤ 100000
    → target ≤ 100000
    → current ≤ target + (d + 5000)
    → target ≤ current + (d + 5000)
    → (step_toward current target ≤ target + d)
      × (target ≤ step_toward current target + d)
      × (step_toward current target ≤ 100000)
unfolding step_toward
step_toward-distance current target d h k a b = ground arith

-- stepToward(), called again and again with one target, reaches it, for green times and targets of
-- at most 100 s: `n` steps are enough for a distance of `n` times 5 s, from above and from below.
pub steps_toward-eq-target :
    (n current target : ℕ)
    → current ≤ 100000
    → target ≤ 100000
    → current ≤ target + n * 5000
    → target ≤ current + n * 5000
    → steps_toward n current target ≡ target
steps_toward-eq-target zero current target h k a b = omega arith
steps_toward-eq-target (suc n) current target h k a b =
    let (p, q, r) =
      step_toward-distance current target (n * 5000) h k (omega arith) (omega arith) in
    steps_toward-eq-target n (step_toward current target) target r k p q
