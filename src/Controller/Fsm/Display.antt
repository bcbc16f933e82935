-- ===== src/Controller/Fsm/Display.antt =====
-- signal_fsm_engine.cpp, lampForPhase and remainingForSignalGroup: what the two groups show, and
-- the countdowns that go with it.
use adaptive_traffic_light.Prelude.{
  ℕ, zero, suc, ◌+◌, ◌^◌, ◌≤◌, ◌<◌, ◌≡◌, sym, ap, ◌∙◌, true, arith, u32_max,
}
use adaptive_traffic_light.Controller.Config.{
  SignalGroup, north_south, east_west, cycle, max_green_duration_ms,
}
use adaptive_traffic_light.Controller.Fsm.{SignalFsmEngine, current_phase_id}
use adaptive_traffic_light.Controller.Fsm.Lamps.{
  DisplayLamp, lamp_for_phase, remaining_for_signal_group,
}
use adaptive_traffic_light.Controller.Fsm.Invariant.{
  phase_of, group_of, IsOnCycle, current_phase_id-IsOnCycle,
}

-- The time for which a group goes on showing its lamp, phase by phase, when nothing disturbs the
-- plan: a red group sums up the phases that lie before its green.
abbrev pub shown_for : ℕ → SignalGroup → ℕ → ℕ → ℕ → ℕ → ℕ → ℕ → ℕ → ℕ
shown_for zero north_south left g1 y1 r1 g2 y2 r2 = left
shown_for zero east_west left g1 y1 r1 g2 y2 r2 = left + y1 + r1
shown_for (suc zero) north_south left g1 y1 r1 g2 y2 r2 = left
shown_for (suc zero) east_west left g1 y1 r1 g2 y2 r2 = left + r1
shown_for (suc (suc zero)) north_south left g1 y1 r1 g2 y2 r2 = left + g2 + y2 + r2
shown_for (suc (suc zero)) east_west left g1 y1 r1 g2 y2 r2 = left
shown_for (suc (suc (suc zero))) north_south left g1 y1 r1 g2 y2 r2 = left + y2 + r2
shown_for (suc (suc (suc zero))) east_west left g1 y1 r1 g2 y2 r2 = left
shown_for (suc (suc (suc (suc zero)))) north_south left g1 y1 r1 g2 y2 r2 = left + r2
shown_for (suc (suc (suc (suc zero)))) east_west left g1 y1 r1 g2 y2 r2 = left
shown_for (suc (suc (suc (suc (suc n))))) north_south left g1 y1 r1 g2 y2 r2 = left
shown_for (suc (suc (suc (suc (suc n))))) east_west left g1 y1 r1 g2 y2 r2 = left + g1 + y1 + r1

-- A machine on its cycle, with the plan and the index written out.
abbrev laid_out : SignalFsmEngine → ℕ → ℕ → ℕ → ℕ → ℕ → ℕ → ℕ → SignalFsmEngine
laid_out f i g1 y1 r1 g2 y2 r2 = record f {
  current_plan = record (f.current_plan) { phases = cycle g1 y1 r1 g2 y2 r2; phase_count = 6 };
  current_phase_index = i;
  active_group = group_of i;
  has_active_plan = true;
}

laid_out_lem :
    (f : SignalFsmEngine) (v : IsOnCycle f)
    → laid_out f f.current_phase_index v.plan.g1 v.plan.y1 v.plan.r1 v.plan.g2 v.plan.y2 v.plan.r2
      ≡ f
laid_out_lem f v = ground (arith, v.plan.shape, v.plan.count, v.active, v.group)

laid_out-shown :
    (f : SignalFsmEngine) (i g1 y1 r1 g2 y2 r2 : ℕ) (group : SignalGroup)
    → i < 6
    → shown_for i group f.remaining_time_ms g1 y1 r1 g2 y2 r2 ≤ u32_max
    → remaining_for_signal_group group (laid_out f i g1 y1 r1 g2 y2 r2)
      ≡ shown_for i group f.remaining_time_ms g1 y1 r1 g2 y2 r2
unfolding remaining_for_signal_group current_phase_id lamp_for_phase
laid_out-shown f zero g1 y1 r1 g2 y2 r2 north_south h b = ground arith
laid_out-shown f zero g1 y1 r1 g2 y2 r2 east_west h b = ground arith
laid_out-shown f (suc zero) g1 y1 r1 g2 y2 r2 north_south h b = ground arith
laid_out-shown f (suc zero) g1 y1 r1 g2 y2 r2 east_west h b = ground arith
laid_out-shown f (suc (suc zero)) g1 y1 r1 g2 y2 r2 north_south h b = ground arith
laid_out-shown f (suc (suc zero)) g1 y1 r1 g2 y2 r2 east_west h b = ground arith
laid_out-shown f (suc (suc (suc zero))) g1 y1 r1 g2 y2 r2 north_south h b = ground arith
laid_out-shown f (suc (suc (suc zero))) g1 y1 r1 g2 y2 r2 east_west h b = ground arith
laid_out-shown f (suc (suc (suc (suc zero)))) g1 y1 r1 g2 y2 r2 north_south h b = ground arith
laid_out-shown f (suc (suc (suc (suc zero)))) g1 y1 r1 g2 y2 r2 east_west h b = ground arith
laid_out-shown f (suc (suc (suc (suc (suc zero))))) g1 y1 r1 g2 y2 r2 north_south h b = ground arith
laid_out-shown f (suc (suc (suc (suc (suc zero))))) g1 y1 r1 g2 y2 r2 east_west h b = ground arith
laid_out-shown f (suc (suc (suc (suc (suc (suc n)))))) g1 y1 r1 g2 y2 r2 group h b =
    absurd (omega arith)

abbrev shown_of : (f : SignalFsmEngine) → IsOnCycle f → SignalGroup → ℕ
shown_of f v group =
    shown_for f.current_phase_index group f.remaining_time_ms v.plan.g1 v.plan.y1 v.plan.r1
      v.plan.g2 v.plan.y2 v.plan.r2

-- Controller limits keep every countdown within 20 bits.
shown_for-le :
    (i : ℕ) (group : SignalGroup) (left g1 y1 r1 g2 y2 r2 : ℕ)
    → left ≤ 500000
    → g1 ≤ 500000
    → y1 ≤ 10000
    → r1 ≤ 10000
    → g2 ≤ 500000
    → y2 ≤ 10000
    → r2 ≤ 10000
    → shown_for i group left g1 y1 r1 g2 y2 r2 ≤ 1048575
shown_for-le zero north_south left g1 y1 r1 g2 y2 r2 a b c d e f g = omega arith
shown_for-le zero east_west left g1 y1 r1 g2 y2 r2 a b c d e f g = omega arith
shown_for-le (suc zero) north_south left g1 y1 r1 g2 y2 r2 a b c d e f g = omega arith
shown_for-le (suc zero) east_west left g1 y1 r1 g2 y2 r2 a b c d e f g = omega arith
shown_for-le (suc (suc zero)) north_south left g1 y1 r1 g2 y2 r2 a b c d e f g = omega arith
shown_for-le (suc (suc zero)) east_west left g1 y1 r1 g2 y2 r2 a b c d e f g = omega arith
shown_for-le (suc (suc (suc zero))) north_south left g1 y1 r1 g2 y2 r2 a b c d e f g = omega arith
shown_for-le (suc (suc (suc zero))) east_west left g1 y1 r1 g2 y2 r2 a b c d e f g = omega arith
shown_for-le (suc (suc (suc (suc zero)))) north_south left g1 y1 r1 g2 y2 r2 a b c d e f g =
    omega arith
shown_for-le (suc (suc (suc (suc zero)))) east_west left g1 y1 r1 g2 y2 r2 a b c d e f g =
    omega arith
shown_for-le (suc (suc (suc (suc (suc n))))) north_south left g1 y1 r1 g2 y2 r2 a b c d e f g =
    omega arith
shown_for-le (suc (suc (suc (suc (suc n))))) east_west left g1 y1 r1 g2 y2 r2 a b c d e f g =
    omega arith

shown_of-le :
    (f : SignalFsmEngine) (v : IsOnCycle f) (group : SignalGroup)
    → f.remaining_time_ms ≤ max_green_duration_ms
    → shown_of f v group ≤ 1048575
shown_of-le f v group h =
    shown_for-le f.current_phase_index group f.remaining_time_ms v.plan.g1 v.plan.y1 v.plan.r1
      v.plan.g2 v.plan.y2 v.plan.r2 h (omega arith) (omega arith) (omega arith) (omega arith)
      (omega arith) (omega arith)

-- On a machine on its cycle, whose countdown is at most the longest green, the loop of
-- remainingForSignalGroup() gives the time until the group's lamp changes when the plan runs
-- undisturbed, and that time is below 2^20 ms.
pub remaining_for_signal_group-shown_for :
    (f : SignalFsmEngine) (v : IsOnCycle f) (group : SignalGroup)
    → f.remaining_time_ms ≤ max_green_duration_ms
    → (remaining_for_signal_group group f
        ≡ shown_for f.current_phase_index group f.remaining_time_ms v.plan.g1 v.plan.y1 v.plan.r1
            v.plan.g2 v.plan.y2 v.plan.r2)
      × (remaining_for_signal_group group f < 2 ^ 20)
remaining_for_signal_group-shown_for f v group h =
    let e =
      ap (remaining_for_signal_group group) (sym (laid_out_lem f v))
      ∙ laid_out-shown f f.current_phase_index v.plan.g1 v.plan.y1 v.plan.r1 v.plan.g2 v.plan.y2
          v.plan.r2 group v.index (omega (arith, shown_of-le f v group h)) in
    (e, omega (arith, e, shown_of-le f v group h))

-- What the machine shows to a group.
abbrev pub lamp : SignalGroup → SignalFsmEngine → DisplayLamp
lamp group f = lamp_for_phase (current_phase_id f) f.active_group group

abbrev pub other : SignalGroup → SignalGroup
other north_south = east_west
other east_west = north_south

abbrev pub lamp_at : ℕ → SignalGroup → DisplayLamp
lamp_at i group = lamp_for_phase (phase_of i) (group_of i) group

pub lamp-IsOnCycle :
    (f : SignalFsmEngine) (group : SignalGroup)
    → IsOnCycle f
    → lamp group f ≡ lamp_at f.current_phase_index group
lamp-IsOnCycle f group v =
    ap (λ p. lamp_for_phase p f.active_group group) (current_phase_id-IsOnCycle f v)
    ∙ ap (λ g. lamp_for_phase (phase_of f.current_phase_index) g group) v.group
