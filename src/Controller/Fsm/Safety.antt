-- ===== src/Controller/Fsm/Safety.antt =====
-- signal_fsm_engine.cpp, processTick: what every tick keeps, whatever the clocks give and the
-- other threads do.
use adaptive_traffic_light.Prelude.{
  ℕ, ◌≤◌, ◌<◌, ◌≡◌, sym, subst, ap, ◌∙◌, ◌⊎◌, inl, inr, Option, none, some, ◌==◌, if-elim,
  option-elim, some-elim, arith, Timespec,
}
use adaptive_traffic_light.Controller.Config.{PhaseId, all_red, max_green_duration_ms}
use adaptive_traffic_light.Controller.SyncChannel.{SyncChannel, set_current_phase}
use adaptive_traffic_light.Controller.SyncChannel.Invariant.{
  IsSound, set_current_phase-IsSound, act_all-IsSound, act_all-current_phase,
}
use adaptive_traffic_light.Controller.Peers.{act_all}
use adaptive_traffic_light.Controller.Fsm.{
  SignalFsmEngine, phase_at, current_phase_id, initialize_deadline,
}
use adaptive_traffic_light.Controller.Fsm.Invariant.{
  phase_of, IsOnCycle, SamePhase, SamePhase-trans, SamePhase-IsOnCycle, duration-IsCyclePlan,
  current_phase_id-IsOnCycle,
}
use adaptive_traffic_light.Controller.Fsm.Green.{run_phase-IsWaitedOut}
use adaptive_traffic_light.Controller.Fsm.Advance.{next_index, HasEntered, change_phase-HasEntered}
use adaptive_traffic_light.Controller.Fsm.Tick.{
  TickEnv, start_tick, run_phase, finish_tick, process_tick,
}

-- The machine between two ticks: it is on its cycle with time left, and the channel is sound and
-- knows the phase.
pub record IsRunning (f : SignalFsmEngine) (ch : SyncChannel) : Type 0 where
  pub on_cycle : IsOnCycle f
  pub going : 0 < f.remaining_time_ms
  pub within : f.remaining_time_ms ≤ max_green_duration_ms
  pub sound : IsSound ch
  pub announced : ch.current_phase ≡ phase_of f.current_phase_index

-- One tick: the machine stays in its phase and plan, or enters the phase that follows, with the
-- whole duration ahead; the plan changes only on the way out of an all-red phase.
pub record IsTick (f : SignalFsmEngine) (ch : SyncChannel) (after : SignalFsmEngine × SyncChannel)
    : Type 0 where
  pub running : IsRunning after.0 after.1
  pub moves :
      ((after.0.current_phase_index ≡ f.current_phase_index)
        × (after.0.current_plan ≡ f.current_plan))
      ⊎ ((after.0.current_phase_index ≡ next_index f.current_phase_index)
          × (after.0.remaining_time_ms
              ≡ (phase_at after.0.current_plan (next_index f.current_phase_index)).duration_ms)
          × ((phase_of f.current_phase_index ≡ all_red) ⊎ (after.0.current_plan ≡ f.current_plan)))

start_tick-SamePhase :
    (clock : Option Timespec) (f : SignalFsmEngine)
    → SamePhase f (start_tick clock f)
      × ((start_tick clock f).remaining_time_ms ≡ f.remaining_time_ms)
unfolding start_tick initialize_deadline
start_tick-SamePhase none f = ground arith
start_tick-SamePhase (some now) f = ground arith

pub set_current_phase-current_phase :
    (p : PhaseId) (ch : SyncChannel) → (set_current_phase p ch).current_phase ≡ p
unfolding set_current_phase
set_current_phase-current_phase p ch = ground arith

entered-IsTick :
    (f g : SignalFsmEngine) (ch : SyncChannel) (processed : PhaseId)
    (after : SignalFsmEngine × SyncChannel)
    → SamePhase f g
    → processed ≡ phase_of f.current_phase_index
    → HasEntered (next_index g.current_phase_index) after
    → (processed ≡ all_red) ⊎ (after.0.current_plan ≡ g.current_plan)
    → IsTick f ch after
entered-IsTick f g ch processed after same p e keeps = record {
  running = record {
    on_cycle = e.on_cycle;
    going = omega (arith, e.full_time, lasts);
    within = omega (arith, e.full_time, lasts);
    sound = e.sound;
    announced = e.announced ∙ ap phase_of (sym e.index);
  };
  moves = inr (e.index ∙ ap next_index same.index, whole, planned keeps);
}
  where
    i : ℕ
    i = next_index g.current_phase_index

    lasts :
        (0 < (phase_at after.0.current_plan i).duration_ms)
        × ((phase_at after.0.current_plan i).duration_ms ≤ max_green_duration_ms)
    lasts =
        duration-IsCyclePlan after.0.current_plan i e.on_cycle.plan
          (subst (λ k. k < 6) e.index e.on_cycle.index)

    whole :
        after.0.remaining_time_ms
        ≡ (phase_at after.0.current_plan (next_index f.current_phase_index)).duration_ms
    whole =
        e.full_time
        ∙ ap (λ k. (phase_at after.0.current_plan (next_index k)).duration_ms) same.index

    planned :
        (processed ≡ all_red) ⊎ (after.0.current_plan ≡ g.current_plan)
        → (phase_of f.current_phase_index ≡ all_red) ⊎ (after.0.current_plan ≡ f.current_plan)
    planned (inl r) = inl (sym p ∙ r)
    planned (inr q) = inr (q ∙ same.plan)

stayed-IsTick :
    (f g : SignalFsmEngine) (ch ch' : SyncChannel)
    → IsOnCycle f
    → SamePhase f g
    → 0 < g.remaining_time_ms
    → g.remaining_time_ms ≤ max_green_duration_ms
    → IsSound ch'
    → ch'.current_phase ≡ phase_of f.current_phase_index
    → IsTick f ch (g, ch')
stayed-IsTick f g ch ch' v same h l s p = record {
  running = record {
    on_cycle = SamePhase-IsOnCycle same v;
    going = h;
    within = l;
    sound = s;
    announced = p ∙ ap phase_of (sym same.index);
  };
  moves = inl (same.index, same.plan);
}

-- processTick() keeps the machine running on its cycle: from a running state, whatever the clocks
-- give, the other threads do and the plans ask for, a tick that ends leaves a running state, in
-- the same phase and plan or in the phase that follows with its whole duration ahead. A new plan
-- comes in only when an all-red phase ends.
pub process_tick-IsTick :
    (env : TickEnv) (f : SignalFsmEngine) (ch : SyncChannel) (after : SignalFsmEngine × SyncChannel)
    → IsRunning f ch
    → process_tick env f ch ≡ some after
    → IsTick f ch after
unfolding process_tick finish_tick
process_tick-IsTick env f ch after r =
    option-elim (λ o. o ≡ some after → IsTick f ch after) (run_phase env processed started entry)
      (λ _ e. cc) λ waited w e. some-elim (IsTick f ch) e (finished waited w)
  where
    started : SignalFsmEngine
    started = start_tick env.start_clock f

    processed : PhaseId
    processed = current_phase_id started

    entry : SyncChannel
    entry = act_all env.before_wait (set_current_phase processed ch)

    begun : SamePhase f started × (started.remaining_time_ms ≡ f.remaining_time_ms)
    begun = start_tick-SamePhase env.start_clock f

    on_cycle : IsOnCycle started
    on_cycle = SamePhase-IsOnCycle begun.0 r.on_cycle

    shown : processed ≡ phase_of f.current_phase_index
    shown = current_phase_id-IsOnCycle started on_cycle ∙ ap phase_of begun.0.index

    entry-IsSound : IsSound entry
    entry-IsSound =
        act_all-IsSound env.before_wait _ (set_current_phase-IsSound processed ch r.sound)

    finished :
        (waited : SignalFsmEngine × SyncChannel)
        → run_phase env processed started entry ≡ some waited
        → IsTick f ch (finish_tick env processed waited)
    finished (g, ch') w =
        let out = run_phase-IsWaitedOut env processed started entry (g, ch') entry-IsSound w in
        let same = SamePhase-trans begun.0 out.same in
        if-elim (IsTick f ch) (g.remaining_time_ms == 0)
          (λ _.
            let entered =
              change_phase-HasEntered env processed g ch' (SamePhase-IsOnCycle same r.on_cycle)
                out.sound in
            entered-IsTick f g ch processed _ same shown entered.0 entered.1)
          (λ z.
            stayed-IsTick f g ch ch' r.on_cycle same (ground arith)
              (omega (arith, out.within, begun.1, r.within)) out.sound
              (out.announced
                ∙ act_all-current_phase env.before_wait _
                ∙ set_current_phase-current_phase processed ch
                ∙ shown))
