-- ===== src/Perception/StartupGate/Together.antt =====
-- Nobody starts alone: what the invariant of the gate means for the threads.
use adaptive_traffic_light.Prelude.{
  ℕ, zero, suc, ◌≤◌, ◌<◌, ◌≡◌, sym, subst, ◌∙◌, true, List, [], ◌∷◌, length, get_or, sum_by, arith,
}
use adaptive_traffic_light.Perception.StartupGate.{
  Worker, started, failed, Starting, Event, worker_at, happen_all, before_start,
}
use adaptive_traffic_light.Perception.StartupGate.Invariant.{
  arrived, has_released, IsInStep, IsSound, happen_all-IsSound, before_start-IsSound,
}

at_most_one : (w : Worker) → arrived w ≤ 1
at_most_one w = ground arith

at_most_all : (ws : List Worker) → sum_by arrived ws ≤ length ws
at_most_all [] = omega arith
at_most_all (w ∷ ws) = omega (arith, at_most_one w, at_most_all ws)

-- As many ones as there are workers: each is one.
everyone :
    (ws : List Worker) (i : ℕ)
    → length ws ≤ sum_by arrived ws
    → i < length ws
    → arrived (get_or ws i failed) ≡ 1
everyone [] i h l = absurd (omega arith)
everyone (w ∷ ws) zero h l = omega (arith, at_most_one w, at_most_all ws)
everyone (w ∷ ws) (suc i) h l = everyone ws i (omega (arith, at_most_one w)) (omega arith)

started-IsInStep :
    (s : Starting) (i t : ℕ)
    → IsSound s
    → worker_at s i ≡ started t
    → (s.gate.released ≡ true) × (t ≡ s.gate.start_time)
started-IsInStep s i t v e = subst (IsInStep s.gate) e (v.in_step i)

-- Whatever the threads do at the gate, in any order, with failing waits, failing locks and
-- cancellations: if one worker has started, then every worker has called arriveAndWait(), the
-- caller of releaseWhenReady() has got true, and any other worker that has started did so at the
-- same start time.
pub started-together :
    (n lead : ℕ) (es : List Event) (i t : ℕ)
    → let s = happen_all lead es (before_start n) in
      worker_at s i ≡ started t
      → ((j : ℕ) → j < length s.workers → arrived (worker_at s j) ≡ 1)
        × (has_released s.caller ≡ true)
        × ((j u : ℕ) → worker_at s j ≡ started u → t ≡ u)
started-together n lead es i t e = (
  λ j l. everyone s.workers j (omega (arith, v.complete first.0, v.counted)) l,
  sym v.once ∙ first.0,
  λ j u k. first.1 ∙ sym (started-IsInStep s j u v k).1,
)
  where
    s : Starting
    s = happen_all lead es (before_start n)

    v : IsSound s
    v = happen_all-IsSound lead es (before_start n) (before_start-IsSound n)

    first : (s.gate.released ≡ true) × (t ≡ s.gate.start_time)
    first = started-IsInStep s i t v e
