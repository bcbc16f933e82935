-- ===== src/Controller/Fsm/Invariant.antt =====
-- signal_fsm_engine.cpp: the well-formed states of the machine, and which operations stay within
-- one phase.
use adaptive_traffic_light.Prelude.{
  ℕ, zero, suc, ◌≤◌, ◌<◌, ◌≡◌, refl, sym, subst, ap, ◌∙◌, true, get_or, arith,
}
use adaptive_traffic_light.Controller.Config.{
  PhaseId, ns_green, yellow, all_red, ew_green, SignalGroup, north_south, east_west, PlanData,
  cycle, empty_phase, max_green_duration_ms,
}
use adaptive_traffic_light.Controller.PlanReceiver.Plans.{IsCyclePlan}
use adaptive_traffic_light.Controller.Fsm.{SignalFsmEngine, phase_at, current_phase_id}

-- The fixed order of the phases in one cycle, and the group that has the right of way.
abbrev pub phase_of : ℕ → PhaseId
phase_of zero = ns_green
phase_of (suc zero) = yellow
phase_of (suc (suc zero)) = all_red
phase_of (suc (suc (suc zero))) = ew_green
phase_of (suc (suc (suc (suc zero)))) = yellow
phase_of (suc (suc (suc (suc (suc n))))) = all_red

abbrev pub group_of : ℕ → SignalGroup
group_of zero = north_south
group_of (suc zero) = north_south
group_of (suc (suc zero)) = north_south
group_of (suc (suc (suc n))) = east_west

-- Everything but the countdown.
pub record IsOnCycle (f : SignalFsmEngine) : Type 0 where
  pub plan : IsCyclePlan f.current_plan
  pub active : f.has_active_plan ≡ true
  pub index : f.current_phase_index < 6
  pub group : f.active_group ≡ group_of f.current_phase_index

-- `g` is `f` at another moment of the same phase of the same plan.
pub record SamePhase (f g : SignalFsmEngine) : Type 0 where
  pub plan : g.current_plan ≡ f.current_plan
  pub index : g.current_phase_index ≡ f.current_phase_index
  pub group : g.active_group ≡ f.active_group
  pub active : g.has_active_plan ≡ f.has_active_plan

pub SamePhase-refl : (f : SignalFsmEngine) → SamePhase f f
SamePhase-refl f = record { plan = refl; index = refl; group = refl; active = refl }

pub SamePhase-trans : {f g h : SignalFsmEngine} → SamePhase f g → SamePhase g h → SamePhase f h
SamePhase-trans a b = record {
  plan = b.plan ∙ a.plan;
  index = b.index ∙ a.index;
  group = b.group ∙ a.group;
  active = b.active ∙ a.active;
}

pub IsCyclePlan-subst : {p q : PlanData} → q ≡ p → IsCyclePlan p → IsCyclePlan q
IsCyclePlan-subst e c = rw e c

pub SamePhase-IsOnCycle : {f g : SignalFsmEngine} → SamePhase f g → IsOnCycle f → IsOnCycle g
SamePhase-IsOnCycle s v = record {
  plan = IsCyclePlan-subst s.plan v.plan;
  active = s.active ∙ v.active;
  index = omega arith;
  group = s.group ∙ v.group ∙ ap group_of (sym s.index);
}

phase_at-cycle :
    (g1 y1 r1 g2 y2 r2 i : ℕ)
    → i < 6
    → (get_or (cycle g1 y1 r1 g2 y2 r2) i empty_phase).phase_id ≡ phase_of i
phase_at-cycle g1 y1 r1 g2 y2 r2 zero h = refl
phase_at-cycle g1 y1 r1 g2 y2 r2 (suc zero) h = refl
phase_at-cycle g1 y1 r1 g2 y2 r2 (suc (suc zero)) h = refl
phase_at-cycle g1 y1 r1 g2 y2 r2 (suc (suc (suc zero))) h = refl
phase_at-cycle g1 y1 r1 g2 y2 r2 (suc (suc (suc (suc zero)))) h = refl
phase_at-cycle g1 y1 r1 g2 y2 r2 (suc (suc (suc (suc (suc zero))))) h = refl
phase_at-cycle g1 y1 r1 g2 y2 r2 (suc (suc (suc (suc (suc (suc n)))))) h = absurd (omega arith)

pub phase_at-IsCyclePlan :
    (p : PlanData) (i : ℕ) → IsCyclePlan p → i < 6 → (phase_at p i).phase_id ≡ phase_of i
phase_at-IsCyclePlan p i c h =
    ap (λ l. (get_or l i empty_phase).phase_id) c.shape
    ∙ phase_at-cycle c.g1 c.y1 c.r1 c.g2 c.y2 c.r2 i h

duration-cycle :
    (g1 y1 r1 g2 y2 r2 i : ℕ)
    → (0 < g1) × (g1 ≤ 500000)
    → (0 < y1) × (y1 ≤ 500000)
    → (0 < r1) × (r1 ≤ 500000)
    → (0 < g2) × (g2 ≤ 500000)
    → (0 < y2) × (y2 ≤ 500000)
    → (0 < r2) × (r2 ≤ 500000)
    → i < 6
    → let d = (get_or (cycle g1 y1 r1 g2 y2 r2) i empty_phase).duration_ms in (0 < d) × (d ≤ 500000)
duration-cycle g1 y1 r1 g2 y2 r2 zero a b c d e f h = a
duration-cycle g1 y1 r1 g2 y2 r2 (suc zero) a b c d e f h = b
duration-cycle g1 y1 r1 g2 y2 r2 (suc (suc zero)) a b c d e f h = c
duration-cycle g1 y1 r1 g2 y2 r2 (suc (suc (suc zero))) a b c d e f h = d
duration-cycle g1 y1 r1 g2 y2 r2 (suc (suc (suc (suc zero)))) a b c d e f h = e
duration-cycle g1 y1 r1 g2 y2 r2 (suc (suc (suc (suc (suc zero))))) a b c d e f h = f
duration-cycle g1 y1 r1 g2 y2 r2 (suc (suc (suc (suc (suc (suc n)))))) a b c d e f h =
    absurd (omega arith)

-- Every phase lasts for some time, and at most as long as the longest green.
pub duration-IsCyclePlan :
    (p : PlanData) (i : ℕ)
    → IsCyclePlan p
    → i < 6
    → let d = (phase_at p i).duration_ms in (0 < d) × (d ≤ max_green_duration_ms)
duration-IsCyclePlan p i c h =
    subst (λ l. let d = (get_or l i empty_phase).duration_ms in (0 < d) × (d ≤ 500000))
      (sym c.shape)
      (duration-cycle c.g1 c.y1 c.r1 c.g2 c.y2 c.r2 i (omega arith) (omega arith) (omega arith)
        (omega arith) (omega arith) (omega arith) h)

pub current_phase_id_lem :
    (f : SignalFsmEngine)
    → IsCyclePlan f.current_plan
    → f.has_active_plan ≡ true
    → f.current_phase_index < 6
    → current_phase_id f ≡ phase_of f.current_phase_index
unfolding current_phase_id
current_phase_id_lem f c a h =
    ground (arith, c.count, phase_at-IsCyclePlan f.current_plan f.current_phase_index c)

-- A machine on its cycle shows the phase that its index stands for.
pub current_phase_id-IsOnCycle :
    (f : SignalFsmEngine) → IsOnCycle f → current_phase_id f ≡ phase_of f.current_phase_index
current_phase_id-IsOnCycle f v = current_phase_id_lem f v.plan v.active v.index

-- The announced phase of two states of one phase is the same.
pub current_phase_id-SamePhase :
    {f g : SignalFsmEngine} → SamePhase f g → IsOnCycle f → current_phase_id g ≡ current_phase_id f
current_phase_id-SamePhase {f} {g} s v =
    current_phase_id-IsOnCycle g (SamePhase-IsOnCycle s v)
    ∙ ap phase_of s.index
    ∙ sym (current_phase_id-IsOnCycle f v)
