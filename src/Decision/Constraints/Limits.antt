-- ===== src/Decision/Constraints/Limits.antt =====
-- decision_engine.cpp, ConstraintManager: the limits hold, and what they cost.
use native.Mathlib.Nat.{le-div_iff_mul-le, div-le_of_le-mul, mul_comm, mod-eq_of_lt, le_refl}
use adaptive_traffic_light.Prelude.{
  ℕ, subst, u32, u64, ◌+◌, ◌-◌, ◌*◌, ◌/◌, ◌^◌, ◌≤◌, ◌<◌, ◌≡◌, refl, not, ◌||◌, true, false, ap, sym,
  ◌∙◌, ◌==◌, not-eq_true, not-eq_false, leb→le, if-elim, leb, arith,
}
use adaptive_traffic_light.Ipc.Messages.{TimingPlan}
use adaptive_traffic_light.Decision.Constraints.{
  minimum_green_ms, maximum_green_ms, maximum_cycle_length_ms, available_green, yellow_time_ms,
  all_red_time_ms, clamp, clamped, with_cycle_length, calculate_cycle_length, validate_cycle_length,
  scale_green_time, north_south_share, apply_timing_constraints,
}

mul-le-mul_left : (x y k : ℕ) → x ≤ y → k * x ≤ k * y
mul-le-mul_left x y k h = grind arith

share_lower : (a b c : ℕ) → c < a → c * (a + b) ≤ a * (c + b)
share_lower a b c h = grind arith

share_upper : (a b n : ℕ) → n < a + b → a * n ≤ (a + b) * a
share_upper a b n h = rw (mul_comm (a + b) a) (mul-le-mul_left n (a + b) a (omega arith))

-- The share of `a` in `n` that is due to it beside `b`, when both do not fit: nobody gains.
pub share_bounds :
    (a b n : ℕ) → n < a + b → b ≤ n → (n - b ≤ a * n / (a + b)) × (a * n / (a + b) ≤ a)
share_bounds a b n h k = (
  (le-div_iff_mul-le {k = a + b} {x = n - b} {y = a * n} (omega arith)).1 (
      subst (λ m. (n - b) * (a + b) ≤ a * m) (omega arith) (share_lower a b (n - b) (omega arith))),
  div-le_of_le-mul (a + b) (share_upper a b n h),
)

-- A plan within the limits of the intersection.
pub record IsWithinLimits (plan : TimingPlan) : Type 0 where
  pub green_ns_min : minimum_green_ms ≤ plan.green_north_south_ms
  pub green_ns_max : plan.green_north_south_ms ≤ maximum_green_ms
  pub green_ew_min : minimum_green_ms ≤ plan.green_east_west_ms
  pub green_ew_max : plan.green_east_west_ms ≤ maximum_green_ms
  pub yellow_time : plan.yellow_ms ≡ yellow_time_ms
  pub all_red_time : plan.all_red_ms ≡ all_red_time_ms
  pub cycle_sum :
      plan.cycle_length_ms
      ≡ plan.green_north_south_ms
        + plan.green_east_west_ms
        + 2 * plan.yellow_ms
        + 2 * plan.all_red_ms
  pub cycle_max : plan.cycle_length_ms ≤ maximum_cycle_length_ms

-- Two greens in their range that do not fit into the cycle together.
pub share_lem :
    (a b : ℕ)
    → 10000 ≤ a
    → a ≤ 60000
    → 10000 ≤ b
    → b ≤ 60000
    → 92000 < a + b
    → let q = clamp (u32 (u64 (a * 92000) / u64 (a + b))) 10000 82000 in
      (q ≡ a * 92000 / (a + b)) × (92000 - b ≤ q) × (q ≤ a)
share_lem a b a1 a2 b1 b2 h =
    let s = share_bounds a b 92000 h (omega arith) in
    let product = mod-eq_of_lt {n = a * 92000} {m = 2 ^ 64} (omega arith) in
    let total = mod-eq_of_lt {n = a + b} {m = 2 ^ 64} (omega arith) in
    let quotient = mod-eq_of_lt {n = a * 92000 / (a + b)} {m = 2 ^ 32} (omega arith) in
    rw (product, total, quotient) (ground (arith, s))

-- The two greens of `p` leave room for the clearance times.
abbrev pub Fits : TimingPlan → Type 0
Fits p = p.green_north_south_ms + p.green_east_west_ms ≤ available_green

-- How the constrained plan relates to the draft, beside the limits.
pub record IsConstrained (draft out : TimingPlan) : Type 0 where
  pub limits : IsWithinLimits out
  pub kept : Fits (clamped draft) → out ≡ with_cycle_length (clamped draft)
  pub filled :
      available_green < (clamped draft).green_north_south_ms + (clamped draft).green_east_west_ms
      → out.green_north_south_ms + out.green_east_west_ms ≡ available_green
  pub ns_not_longer : out.green_north_south_ms ≤ (clamped draft).green_north_south_ms
  pub ew_not_longer : out.green_east_west_ms ≤ (clamped draft).green_east_west_ms
  pub plan_id : out.plan_id ≡ draft.plan_id
  pub generation : out.generation_timestamp_ns ≡ draft.generation_timestamp_ns
  pub perception : out.perception_publish_timestamp_us ≡ draft.perception_publish_timestamp_us
  pub emergency_ns : out.emergency_north_south ≡ draft.emergency_north_south
  pub emergency_ew : out.emergency_east_west ≡ draft.emergency_east_west

clamp_range : (v : ℕ) → (10000 ≤ clamp v 10000 60000) × (clamp v 10000 60000 ≤ 60000)
clamp_range v = ground arith

-- Greens in their range, and both clearance times set.
abbrev IsClamped : TimingPlan → Type 0
IsClamped p =
    (10000 ≤ p.green_north_south_ms)
    × (p.green_north_south_ms ≤ 60000)
    × (10000 ≤ p.green_east_west_ms)
    × (p.green_east_west_ms ≤ 60000)
    × (p.yellow_ms ≡ 3000)
    × (p.all_red_ms ≡ 1000)

calculate_cycle_length_lem :
    (p : TimingPlan)
    → IsClamped p
    → calculate_cycle_length p ≡ p.green_north_south_ms + p.green_east_west_ms + 8000
unfolding calculate_cycle_length
calculate_cycle_length_lem p c = omega arith

validate_cycle_length-Fits :
    (p : TimingPlan) → IsClamped p → validate_cycle_length p ≡ true → Fits p
unfolding validate_cycle_length
validate_cycle_length-Fits p c h = omega (arith, leb→le _ _ h, calculate_cycle_length_lem p c)

not-validate_cycle_length :
    (p : TimingPlan)
    → IsClamped p
    → validate_cycle_length p ≡ false
    → available_green < p.green_north_south_ms + p.green_east_west_ms
unfolding validate_cycle_length
not-validate_cycle_length p c h = ground (arith, calculate_cycle_length_lem p c)

scale_green_time_lem :
    (p : TimingPlan)
    → IsClamped p
    → available_green < p.green_north_south_ms + p.green_east_west_ms
    → let q = scale_green_time p in
      (available_green - p.green_east_west_ms ≤ q.green_north_south_ms)
      × (q.green_north_south_ms ≤ p.green_north_south_ms)
      × (q ≡ record p {
        green_north_south_ms = north_south_share p;
        green_east_west_ms = available_green - north_south_share p;
      })
unfolding scale_green_time
scale_green_time_lem p c h =
    let s = share_lem p.green_north_south_ms p.green_east_west_ms c.0 c.1 c.2 c.3 h in
    let e =
      mod-eq_of_lt {n = p.green_north_south_ms + p.green_east_west_ms} {m = 2 ^ 64} (omega arith) in
    if-elim
      (λ (q : TimingPlan).
        (available_green - p.green_east_west_ms ≤ q.green_north_south_ms)
        × (q.green_north_south_ms ≤ p.green_north_south_ms)
        × (q ≡ record p {
          green_north_south_ms = north_south_share p;
          green_east_west_ms = available_green - north_south_share p;
        }))
      (leb (u64 (p.green_north_south_ms + p.green_east_west_ms)) available_green
        || u64 (p.green_north_south_ms + p.green_east_west_ms) == 0)
      (λ t. absurd (ground (arith, e))) (λ _. (s.1, s.2, refl))

IsClamped-IsWithinLimits :
    (p : TimingPlan) → IsClamped p → Fits p → IsWithinLimits (with_cycle_length p)
IsClamped-IsWithinLimits p c h = omega (arith, calculate_cycle_length_lem p c)

-- applyTimingConstraints() makes every draft, with greens of any size, a plan within the limits:
-- greens of 10 s to 60 s, 3 s yellow, 1 s all-red, and a cycle length that is the sum of its
-- phases and at most 100 s. Where the two clamped greens fit into the cycle they are kept; where
-- they do not, neither grows and together they fill the cycle exactly. The plan's number, its
-- times and its emergency flags stay as they are.
pub apply_timing_constraints-IsConstrained :
    (draft : TimingPlan) → IsConstrained draft (apply_timing_constraints draft)
unfolding apply_timing_constraints
apply_timing_constraints-IsConstrained draft =
    if-elim (IsConstrained draft) (not (validate_cycle_length p))
      (λ t. too_long (not-validate_cycle_length p in_range (not-eq_true _ t)))
      (λ t. fits (validate_cycle_length-Fits p in_range (not-eq_false _ t)))
  where
    p : TimingPlan
    p = with_cycle_length (clamped draft)

    in_range : IsClamped p
    in_range =
        omega (arith, clamp_range draft.green_north_south_ms, clamp_range draft.green_east_west_ms)

    fits : Fits p → IsConstrained draft (with_cycle_length p)
    fits h = record {
      limits = IsClamped-IsWithinLimits p in_range h;
      kept = λ _.
          ap (λ c. record p { cycle_length_ms = c })
            (calculate_cycle_length_lem p in_range
              ∙ sym (calculate_cycle_length_lem (clamped draft) in_range));
      filled = λ more. absurd (omega arith);
      ns_not_longer = le_refl _;
      ew_not_longer = le_refl _;
      plan_id = refl;
      generation = refl;
      perception = refl;
      emergency_ns = refl;
      emergency_ew = refl;
    }

    too_long :
        available_green < p.green_north_south_ms + p.green_east_west_ms
        → IsConstrained draft (with_cycle_length (scale_green_time p))
    too_long h =
        let (low, high, e) = scale_green_time_lem p in_range h in
        let n = ap (λ (q : TimingPlan). q.green_north_south_ms) e in
        let scaled = record p {
          green_north_south_ms = north_south_share p;
          green_east_west_ms = available_green - north_south_share p;
        } in
        subst (λ q. IsConstrained draft (with_cycle_length q)) (sym e)
          (record {
            limits =
                IsClamped-IsWithinLimits scaled (omega (arith, low, high, n, in_range))
                  (omega (arith, low, high, n, in_range));
            kept = λ k. absurd (omega arith);
            filled = λ _. omega (arith, low, high, n, in_range);
            ns_not_longer = omega (arith, low, high, n, in_range);
            ew_not_longer = omega (arith, low, high, n, in_range);
            plan_id = refl;
            generation = refl;
            perception = refl;
            emergency_ns = refl;
            emergency_ew = refl;
          })
