-- ===== src/Controller/Fsm/Trace.antt =====
-- The controller as a whole: ticks of the state machine, and the other threads' calls between
-- them, in any order, from the start of the machine.
use adaptive_traffic_light.Prelude.{ℕ, zero, suc, ◌<◌, ◌≡◌, refl, ◌∙◌, ◌⊎◌, inl, inr, some, arith}
use adaptive_traffic_light.Controller.Config.{
  ns_green, all_red, SignalGroup, north_south, east_west,
}
use adaptive_traffic_light.Controller.SyncChannel.{SyncChannel, new_channel}
use adaptive_traffic_light.Controller.SyncChannel.Invariant.{
  IsSound, new_channel-IsSound, set_current_phase-IsSound, act-IsSound, act-current_phase,
}
use adaptive_traffic_light.Controller.PlanReceiver.Plans.{make_default_plan-IsCyclePlan}
use adaptive_traffic_light.Controller.Peers.{PeerAction, act}
use adaptive_traffic_light.Controller.Fsm.{SignalFsmEngine, phase_at, reset}
use adaptive_traffic_light.Controller.Fsm.Lamps.{DisplayLamp, red, amber, green, lamp_for_phase}
use adaptive_traffic_light.Controller.Fsm.Invariant.{phase_of}
use adaptive_traffic_light.Controller.Fsm.Advance.{next_index}
use adaptive_traffic_light.Controller.Fsm.Display.{lamp, lamp_at, other, lamp-IsOnCycle}
use adaptive_traffic_light.Controller.Fsm.Safety.{
  IsRunning, set_current_phase-current_phase, process_tick-IsTick,
}
use adaptive_traffic_light.Controller.Fsm.Tick.{TickEnv, process_tick}

-- What can happen next: a whole tick, a call of another thread, or a reset.
pub data Step (f : SignalFsmEngine) (ch : SyncChannel)
    : SignalFsmEngine → SyncChannel → Type 0 where
  ticks :
      (env : TickEnv) {g : SignalFsmEngine} {ch' : SyncChannel}
      → process_tick env f ch ≡ some (g, ch')
      → Step f ch g ch'
  acts : (a : PeerAction) → Step f ch f (act a ch)
  resets : Step f ch (reset f ch).0 (reset f ch).1

-- The states that the controller gets to. The constructor of the machine calls reset() on fields
-- of any content.
pub data Reach : SignalFsmEngine → SyncChannel → Type 0 where
  starts : (raw : SignalFsmEngine) → Reach (reset raw new_channel).0 (reset raw new_channel).1
  then : {f g : SignalFsmEngine} {ch ch' : SyncChannel} → Reach f ch → Step f ch g ch' → Reach g ch'

reset-IsRunning :
    (f : SignalFsmEngine) (ch : SyncChannel) → IsSound ch → IsRunning (reset f ch).0 (reset f ch).1
unfolding reset
reset-IsRunning f ch s = record {
  on_cycle = record {
    plan = make_default_plan-IsCyclePlan;
    active = refl;
    index = omega arith;
    group = refl;
  };
  going = omega arith;
  within = omega arith;
  sound = set_current_phase-IsSound ns_green ch s;
  announced = set_current_phase-current_phase ns_green ch;
}

act-IsRunning :
    (a : PeerAction) (f : SignalFsmEngine) (ch : SyncChannel)
    → IsRunning f ch
    → IsRunning f (act a ch)
act-IsRunning a f ch r = record {
  on_cycle = r.on_cycle;
  going = r.going;
  within = r.within;
  sound = act-IsSound a ch r.sound;
  announced = act-current_phase a ch ∙ r.announced;
}

Step-IsRunning :
    {f : SignalFsmEngine} {ch : SyncChannel} {g : SignalFsmEngine} {ch' : SyncChannel}
    → Step f ch g ch'
    → IsRunning f ch
    → IsRunning g ch'
Step-IsRunning {f} {ch} {g} {ch'} (ticks env e) r =
    (process_tick-IsTick env f ch (g, ch') r e).running
Step-IsRunning {f = f} {ch = ch} (acts a) r = act-IsRunning a f ch r
Step-IsRunning {f = f} {ch = ch} resets r = reset-IsRunning f ch r.sound

-- Every state that the controller gets to is a running one, after any history of ticks, calls of
-- other threads and resets, with plans of any content: the machine is on its cycle with time left,
-- and the channel is sound and knows the phase.
pub Reach-IsRunning : {f : SignalFsmEngine} {ch : SyncChannel} → Reach f ch → IsRunning f ch
Reach-IsRunning (starts raw) = reset-IsRunning raw new_channel new_channel-IsSound
Reach-IsRunning (then r s) = Step-IsRunning s (Reach-IsRunning r)

clear-at :
    (i : ℕ) (group : SignalGroup)
    → i < 6
    → (lamp_at i group ≡ red) ⊎ (lamp_at (next_index i) (other group) ≡ red)
unfolding lamp_for_phase
clear-at zero north_south h = inr refl
clear-at zero east_west h = inl refl
clear-at (suc zero) north_south h = inr refl
clear-at (suc zero) east_west h = inl refl
clear-at (suc (suc zero)) north_south h = inl refl
clear-at (suc (suc zero)) east_west h = inl refl
clear-at (suc (suc (suc zero))) north_south h = inl refl
clear-at (suc (suc (suc zero))) east_west h = inr refl
clear-at (suc (suc (suc (suc zero)))) north_south h = inl refl
clear-at (suc (suc (suc (suc zero)))) east_west h = inr refl
clear-at (suc (suc (suc (suc (suc zero))))) north_south h = inl refl
clear-at (suc (suc (suc (suc (suc zero))))) east_west h = inl refl
clear-at (suc (suc (suc (suc (suc (suc n)))))) group h = absurd (omega arith)

-- The order in which the lamps of one group follow each other.
abbrev pub next_lamp : DisplayLamp → DisplayLamp
next_lamp green = amber
next_lamp amber = red
next_lamp red = green

lamp-next :
    (i : ℕ) (group : SignalGroup)
    → i < 6
    → (lamp_at (next_index i) group ≡ lamp_at i group)
      ⊎ (lamp_at (next_index i) group ≡ next_lamp (lamp_at i group))
unfolding lamp_for_phase
lamp-next zero north_south h = inr refl
lamp-next zero east_west h = inl refl
lamp-next (suc zero) north_south h = inr refl
lamp-next (suc zero) east_west h = inl refl
lamp-next (suc (suc zero)) north_south h = inl refl
lamp-next (suc (suc zero)) east_west h = inr refl
lamp-next (suc (suc (suc zero))) north_south h = inl refl
lamp-next (suc (suc (suc zero))) east_west h = inr refl
lamp-next (suc (suc (suc (suc zero)))) north_south h = inl refl
lamp-next (suc (suc (suc (suc zero)))) east_west h = inr refl
lamp-next (suc (suc (suc (suc (suc zero))))) north_south h = inr refl
lamp-next (suc (suc (suc (suc (suc zero))))) east_west h = inl refl
lamp-next (suc (suc (suc (suc (suc (suc n)))))) group h = absurd (omega arith)

pub one-red-at :
    (i : ℕ) (group : SignalGroup) → (lamp_at i group ≡ red) ⊎ (lamp_at i (other group) ≡ red)
unfolding lamp_for_phase
one-red-at zero group = ground arith
one-red-at (suc zero) group = ground arith
one-red-at (suc (suc zero)) group = ground arith
one-red-at (suc (suc (suc zero))) group = ground arith
one-red-at (suc (suc (suc (suc zero)))) group = ground arith
one-red-at (suc (suc (suc (suc (suc n))))) group = ground arith

-- What a tick from `f` to `g` does to the lamps of a group.
pub record IsSafeChange (group : SignalGroup) (f g : SignalFsmEngine) : Type 0 where
  pub one_at_a_time : (lamp group g ≡ red) ⊎ (lamp (other group) g ≡ red)
  pub cleared : (lamp group f ≡ red) ⊎ (lamp (other group) g ≡ red)
  pub in_order : (lamp group g ≡ lamp group f) ⊎ (lamp group g ≡ next_lamp (lamp group f))

safe-at :
    (group : SignalGroup) (f g : SignalFsmEngine) (i j : ℕ)
    → ((k : SignalGroup) → lamp k f ≡ lamp_at i k)
    → ((k : SignalGroup) → lamp k g ≡ lamp_at j k)
    → i < 6
    → (j ≡ i) ⊎ (j ≡ next_index i)
    → IsSafeChange group f g
safe-at group f g i j ef eg h (inl e) = record {
  one_at_a_time = rw (eg group, eg (other group)) (one-red-at j group);
  cleared = rw (ef group, eg (other group), e) (one-red-at i group);
  in_order = inl (rw (ef group, eg group, e) refl);
}
safe-at group f g i j ef eg h (inr e) = record {
  one_at_a_time = rw (eg group, eg (other group)) (one-red-at j group);
  cleared = rw (ef group, eg (other group), e) (clear-at i group h);
  in_order = rw (ef group, eg group, e) (lamp-next i group h);
}

-- The lamps are safe over every tick of every history: the two groups are never both away from
-- red; a group that was not red before the tick keeps the other one at red after it; and the lamps
-- of a group change only from green to amber, from amber to red and from red to green.
pub tick-IsSafeChange :
    {f g : SignalFsmEngine} {ch ch' : SyncChannel} (env : TickEnv) (group : SignalGroup)
    → Reach f ch
    → process_tick env f ch ≡ some (g, ch')
    → IsSafeChange group f g
tick-IsSafeChange {f} {g} {ch} {ch'} env group r e =
    let before = Reach-IsRunning r in
    let t = process_tick-IsTick env f ch (g, ch') before e in
    safe-at group f g f.current_phase_index g.current_phase_index
      (λ k. lamp-IsOnCycle f k before.on_cycle) (λ k. lamp-IsOnCycle g k t.running.on_cycle)
      before.on_cycle.index (moved t.moves)
  where
    moved :
        ((g.current_phase_index ≡ f.current_phase_index) × (g.current_plan ≡ f.current_plan))
          ⊎ ((g.current_phase_index ≡ next_index f.current_phase_index)
              × (g.remaining_time_ms
                  ≡ (phase_at g.current_plan (next_index f.current_phase_index)).duration_ms)
              × ((phase_of f.current_phase_index ≡ all_red) ⊎ (g.current_plan ≡ f.current_plan)))
        → (g.current_phase_index ≡ f.current_phase_index)
          ⊎ (g.current_phase_index ≡ next_index f.current_phase_index)
    moved (inl m) = inl m.0
    moved (inr m) = inr m.0
