-- ===== src/Controller/Fsm/Advance.antt =====
-- signal_fsm_engine.cpp, loadPendingPlan and advancePhase: how one phase gives way to the next.
use adaptive_traffic_light.Prelude.{
  ℕ, zero, suc, ◌+◌, ◌<◌, ◌≡◌, refl, sym, subst, ap, ◌∙◌, Bool, not, ◌||◌, ◌⊎◌, inl, inr, Option,
  some, if◌then◌else◌, ltb, leb, ◌==◌, if-elim, option-elim, some-elim, arith, u8, not-eq_false,
}
use adaptive_traffic_light.Controller.Config.{PhaseId, all_red, phase_is, PlanData, max_phases}
use adaptive_traffic_light.Controller.SyncChannel.{
  SyncChannel, set_current_phase, consume_pending_plan,
}
use adaptive_traffic_light.Controller.SyncChannel.Invariant.{
  IsSound, set_current_phase-IsSound, consume_pending_plan-IsSound, act_all-IsSound,
}
use adaptive_traffic_light.Controller.PlanReceiver.Plans.{IsCyclePlan}
use adaptive_traffic_light.Controller.Peers.{act_all}
use adaptive_traffic_light.Controller.Fsm.{
  SignalFsmEngine, phase_at, current_phase_id, group_of_phase, install_plan, load_pending_plan,
  enter_next_phase, advance_phase,
}
use adaptive_traffic_light.Controller.Fsm.Invariant.{
  phase_of, group_of, IsOnCycle, current_phase_id_lem,
}
use adaptive_traffic_light.Controller.Fsm.Tick.{TickEnv, change_phase}

-- The phase that follows in the cycle.
abbrev pub next_index : ℕ → ℕ
next_index i = if ltb i 5 then i + 1 else 0

-- The machine has just entered the phase `i`, and the channel knows it.
pub record HasEntered (i : ℕ) (after : SignalFsmEngine × SyncChannel) : Type 0 where
  pub on_cycle : IsOnCycle after.0
  pub index : after.0.current_phase_index ≡ i
  pub full_time : after.0.remaining_time_ms ≡ (phase_at after.0.current_plan i).duration_ms
  pub sound : IsSound after.1
  pub announced : after.1.current_phase ≡ phase_of i

-- `g` is `f`, but for the plan.
record IsReplanned (f g : SignalFsmEngine) : Type 0 where
  on_cycle : IsOnCycle g
  index : g.current_phase_index ≡ f.current_phase_index

group-next :
    (i : ℕ)
    → i < 6
    → group_of_phase (phase_of (next_index i)) (group_of i) ≡ group_of (next_index i)
group-next zero h = refl
group-next (suc zero) h = refl
group-next (suc (suc zero)) h = refl
group-next (suc (suc (suc zero))) h = refl
group-next (suc (suc (suc (suc zero)))) h = refl
group-next (suc (suc (suc (suc (suc zero))))) h = refl
group-next (suc (suc (suc (suc (suc (suc n)))))) h = absurd (omega arith)

index-next :
    (i n : ℕ) → i < 6 → n ≡ 6 → (if leb n (u8 (i + 1)) then 0 else u8 (i + 1)) ≡ next_index i
index-next i n h e = ground arith

next-lt : (i : ℕ) → next_index i < 6
next-lt i = ground arith

set_current_phase_lem :
    (p : PhaseId) (ch : SyncChannel) → (set_current_phase p ch).current_phase ≡ p
unfolding set_current_phase
set_current_phase_lem p ch = ground arith

-- The fields of the machine in the next phase.
enter_next_phase_lem :
    (f : SignalFsmEngine)
    → IsOnCycle f
    → let g = enter_next_phase f in
      IsOnCycle g
      × (g.current_phase_index ≡ next_index f.current_phase_index)
      × (g.remaining_time_ms
          ≡ (phase_at f.current_plan (next_index f.current_phase_index)).duration_ms)
      × (g.current_plan ≡ f.current_plan)
enter_next_phase_lem f v =
    (on_cycle, moved_to, ap (λ i. (phase_at f.current_plan i).duration_ms) moved_to, refl)
  where
    moved_to : (enter_next_phase f).current_phase_index ≡ next_index f.current_phase_index
    moved_to = index-next f.current_phase_index f.current_plan.phase_count v.index v.plan.count

    in_range : (enter_next_phase f).current_phase_index < 6
    in_range = omega (arith, moved_to, next-lt f.current_phase_index)

    shown :
        (g : SignalFsmEngine)
        → g.current_plan ≡ f.current_plan
        → g.has_active_plan ≡ f.has_active_plan
        → g.current_phase_index ≡ (enter_next_phase f).current_phase_index
        → current_phase_id g ≡ phase_of (next_index f.current_phase_index)
    shown g p a e =
        current_phase_id_lem g (subst IsCyclePlan (sym p) v.plan) (a ∙ v.active)
          (omega (arith, e, in_range))
        ∙ ap phase_of (e ∙ moved_to)

    on_cycle : IsOnCycle (enter_next_phase f)
    on_cycle = record {
      plan = v.plan;
      active = v.active;
      index = in_range;
      group =
          ap (λ p. group_of_phase p f.active_group) (shown _ refl refl refl)
          ∙ ap (group_of_phase (phase_of (next_index f.current_phase_index))) v.group
          ∙ group-next f.current_phase_index v.index
          ∙ ap group_of (sym moved_to);
    }

-- advancePhase() takes a machine on its cycle to the phase that follows, with the whole duration
-- of that phase ahead, and announces it to the channel.
pub advance_phase-HasEntered :
    (f : SignalFsmEngine) (ch : SyncChannel)
    → IsOnCycle f
    → IsSound ch
    → HasEntered (next_index f.current_phase_index) (advance_phase f ch)
      × ((advance_phase f ch).0.current_plan ≡ f.current_plan)
unfolding advance_phase
advance_phase-HasEntered f ch v s =
    if-elim
      (λ (r : SignalFsmEngine × SyncChannel).
        HasEntered (next_index f.current_phase_index) r × (r.0.current_plan ≡ f.current_plan))
      (not f.has_active_plan || f.current_plan.phase_count == 0)
      (λ e. absurd (ground (arith, v.active, v.plan.count)))
      λ _.
        let (on_cycle, moved_to, full_time, same_plan) = enter_next_phase_lem f v in
        (
          record {
            on_cycle = on_cycle;
            index = moved_to;
            full_time = full_time;
            sound = set_current_phase-IsSound _ ch s;
            announced =
                set_current_phase_lem _ ch
                ∙ current_phase_id_lem _ on_cycle.plan on_cycle.active on_cycle.index
                ∙ ap phase_of moved_to;
          },
          refl,
        )

install_plan-IsReplanned :
    (pending : PlanData) (f : SignalFsmEngine)
    → IsCyclePlan pending
    → IsOnCycle f
    → IsReplanned f (install_plan pending f).0
install_plan-IsReplanned pending f c v =
    if-elim (λ (r : SignalFsmEngine × Bool). IsReplanned f r.0)
      (pending.phase_count == 0 || ltb max_phases pending.phase_count)
      (λ e. absurd (ground (arith, c.count)))
      λ _.
        if-elim (λ (r : SignalFsmEngine × Bool). IsReplanned f r.0) (not f.has_active_plan)
          (λ e. absurd (ground (arith, v.active)))
          λ _. record {
            on_cycle = record {
              plan = c;
              active = v.active;
              index = omega (arith, kept);
              group = v.group ∙ ap group_of (sym kept);
            };
            index = kept;
          }
  where
    kept :
        (if leb pending.phase_count f.current_phase_index then 0 else f.current_phase_index)
        ≡ f.current_phase_index
    kept = ground (arith, c.count, v.index)

consumed-IsCyclePlan :
    (ch : SyncChannel) (p : PlanData)
    → IsSound ch
    → (consume_pending_plan ch).0 ≡ some p
    → IsCyclePlan p
unfolding consume_pending_plan
consumed-IsCyclePlan ch p s =
    if-elim (λ (r : Option PlanData × SyncChannel). r.0 ≡ some p → IsCyclePlan p)
      (not ch.has_pending_normal) (λ _ e. cc)
      (λ h e. some-elim IsCyclePlan e (s.normal (not-eq_false ch.has_pending_normal h)))

consume_pending_plan-current_phase :
    (ch : SyncChannel) → (consume_pending_plan ch).1.current_phase ≡ ch.current_phase
unfolding consume_pending_plan
consume_pending_plan-current_phase ch = ground arith

-- loadPendingPlan() may change the plan, and nothing else of the machine.
load_pending_plan-IsReplanned :
    (f : SignalFsmEngine) (ch : SyncChannel)
    → IsOnCycle f
    → IsSound ch
    → let (g, ch', installed) = load_pending_plan f ch in IsReplanned f g × IsSound ch'
unfolding load_pending_plan
load_pending_plan-IsReplanned f ch v s =
    option-elim (λ (r : SignalFsmEngine × SyncChannel × Bool). IsReplanned f r.0 × IsSound r.1)
      (consume_pending_plan ch).0
      (λ _. (record { on_cycle = v; index = refl }, consume_pending_plan-IsSound ch s))
      λ p e. (
        install_plan-IsReplanned p f (consumed-IsCyclePlan ch p s e) v,
        consume_pending_plan-IsSound ch s,
      )

-- When the time of a phase is used up, the machine enters the phase that follows in the cycle. A
-- new plan comes in only on the way out of an all-red phase.
pub change_phase-HasEntered :
    (env : TickEnv) (processed : PhaseId) (f : SignalFsmEngine) (ch : SyncChannel)
    → IsOnCycle f
    → IsSound ch
    → HasEntered (next_index f.current_phase_index) (change_phase env processed f ch)
      × ((processed ≡ all_red)
          ⊎ ((change_phase env processed f ch).0.current_plan ≡ f.current_plan))
unfolding change_phase
change_phase-HasEntered env processed f ch v s =
    if-elim
      (λ (r : SignalFsmEngine × SyncChannel).
        HasEntered (next_index f.current_phase_index) r
        × ((processed ≡ all_red) ⊎ (r.0.current_plan ≡ f.current_plan)))
      (phase_is processed all_red)
      (λ e.
        let sent = act_all env.before_load ch in
        let loaded = load_pending_plan f sent in
        let (k, s') =
          load_pending_plan-IsReplanned f sent v (act_all-IsSound env.before_load ch s) in
        let entered =
          advance_phase-HasEntered loaded.0 (act_all env.before_advance loaded.1) k.on_cycle
            (act_all-IsSound env.before_advance loaded.1 s') in
        let after = advance_phase loaded.0 (act_all env.before_advance loaded.1) in
        (subst (λ i. HasEntered (next_index i) after) k.index entered.0, inl (ground arith)))
      (λ _.
        let entered =
          advance_phase-HasEntered f (act_all env.before_advance ch) v
            (act_all-IsSound env.before_advance ch s) in
        (entered.0, inr entered.1))
