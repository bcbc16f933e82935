-- ===== src/Controller/Fsm/Lamps.antt =====
-- signal_fsm_engine.cpp, lampForPhase and remainingForSignalGroup: what a signal group shows in a
-- phase, and for how long it goes on showing it.
use adaptive_traffic_light.Prelude.{
  ℕ, zero, suc, ◌+◌, ◌-◌, ◌%◌, if◌then◌else◌, not, ltb, ◌==◌, u8, u32_max,
}
use adaptive_traffic_light.Controller.Config.{
  PhaseId, yellow, all_red, ns_green, SignalGroup, north_south, east_west, phase_is, group_is,
}
use adaptive_traffic_light.Controller.Fsm.{
  SignalFsmEngine, phase_at, without_phase, current_phase_id, group_of_phase,
}

pub data DisplayLamp : Type 0 where
  red amber green : DisplayLamp

abbrev pub lamp_code : DisplayLamp → ℕ
lamp_code red = 0
lamp_code amber = 1
lamp_code green = 2

unfoldable pub lamp_for_phase : PhaseId → SignalGroup → SignalGroup → DisplayLamp
lamp_for_phase phase_id phase_group requested =
    if phase_is phase_id all_red
    then red
    else if phase_is phase_id yellow
    then if group_is phase_group requested then amber else red
    else if phase_is phase_id ns_green
    then if group_is requested north_south then green else red
    else if group_is requested east_west
    then green
    else red

-- The loop over the phases that follow: `rounds` offsets are left, the first of them `offset`.
-- `phase_group` and `total` are the variables that the loop carries.
unfoldable pub sum_while_same :
    ℕ → ℕ → SignalFsmEngine → SignalGroup → DisplayLamp → SignalGroup → ℕ → ℕ
sum_while_same zero offset f group lamp phase_group total = total
sum_while_same (suc rounds) offset f group lamp phase_group total =
    let index = u8 ((f.current_phase_index + offset) % f.current_plan.phase_count) in
    let next = phase_at f.current_plan index in
    let next_group = group_of_phase next.phase_id phase_group in
    let rest =
      sum_while_same rounds (offset + 1) f group lamp next_group (total + next.duration_ms) in
    if not (lamp_code (lamp_for_phase next.phase_id next_group group) == lamp_code lamp)
    then total
    else rest

unfoldable pub remaining_for_signal_group : SignalGroup → SignalFsmEngine → ℕ
unfolding sum_while_same
remaining_for_signal_group group f =
    if without_phase f
    then 0
    else let total =
        sum_while_same (f.current_plan.phase_count - 1) 1 f group
          (lamp_for_phase (current_phase_id f) f.active_group group) f.active_group
          f.remaining_time_ms in
      if ltb u32_max total then u32_max else total
