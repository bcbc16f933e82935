-- ===== src/Controller/Fsm/WakeupLog.antt =====
-- signal_fsm_engine.cpp, flushWakeupSamplesToLog: the lifecycle thread takes the samples out of the
-- ring that recordWakeupSample() fills.
use adaptive_traffic_light.Prelude.{
  ℕ, zero, suc, ◌+◌, ◌-◌, ◌%◌, ◌^◌, ◌≤◌, ◌<◌, ◌≡◌, refl, ap, ◌++◌, if-elim, leb, if◌then◌else◌,
  List, [], ◌∷◌, length, get_or, set, get_or-set_self, get_or-set_ne, u64, arith,
}
use adaptive_traffic_light.Controller.Fsm.{
  SignalFsmEngine, WakeupSample, wakeup_sample_capacity, store_sample,
}

abbrev no_sample : WakeupSample
no_sample = record { deadline_ns = 0; actual_wakeup_ns = 0; latency_ns = 0 }

-- What the loop logs, with n rounds to go.
abbrev pub logged : List WakeupSample → ℕ → ℕ → List WakeupSample
logged samples read_sequence zero = []
logged samples read_sequence (suc n) =
    get_or samples (read_sequence % wakeup_sample_capacity) no_sample
    ∷ logged samples (read_sequence + 1) n

-- The samples and the count of lost ones that go into the log, and the state afterwards.
unfoldable pub flush_wakeup_samples_to_log :
    SignalFsmEngine → (List WakeupSample × ℕ) × SignalFsmEngine
flush_wakeup_samples_to_log f = (
  (
    logged f.wakeup_samples f.wakeup_read_sequence
        (f.wakeup_write_sequence - f.wakeup_read_sequence),
    f.dropped_wakeup_sample_count,
  ),
  record f {
    wakeup_read_sequence =
        if leb f.wakeup_read_sequence f.wakeup_write_sequence
        then f.wakeup_write_sequence
        else f.wakeup_read_sequence;
    dropped_wakeup_sample_count = 0;
  },
)

-- The ring between the two threads.
pub record IsRing (f : SignalFsmEngine) : Type 0 where
  pub size : length f.wakeup_samples ≡ wakeup_sample_capacity
  pub ordered : f.wakeup_read_sequence ≤ f.wakeup_write_sequence
  pub bounded : f.wakeup_write_sequence ≤ f.wakeup_read_sequence + wakeup_sample_capacity
  pub small : f.wakeup_write_sequence + 1 < 2 ^ 64

-- A write at the end of the ring does not touch what waits in it, and comes last.
logged-set :
    (s : List WakeupSample) (v : WakeupSample) (r n w : ℕ)
    → length s ≡ wakeup_sample_capacity
    → r + n ≡ w
    → n < wakeup_sample_capacity
    → logged (set s (w % wakeup_sample_capacity) v) r (suc n) ≡ logged s r n ++ (v ∷ [])
logged-set s v r zero w l e b =
    let i : w ≡ r = omega (arith, e) in
    rw (i, get_or-set_self s (r % 4096) v no_sample (omega (arith, l))) refl
logged-set s v r (suc n) w l e b =
    rw
      (
        get_or-set_ne s (w % 4096) (r % 4096) v no_sample (λ d. ground (arith, d, e, b)),
        logged-set s v (r + 1) n w l (omega (arith, e)) (omega (arith, b)),
      )
      refl

-- The next flush, against one without the sample.
abbrev pub Follows : ℕ → ℕ → SignalFsmEngine → SignalFsmEngine × ℕ → Type 0
Follows deadline actual f (g, latency) =
    let (samples, lost) = (flush_wakeup_samples_to_log f).0 in
    let after = (flush_wakeup_samples_to_log g).0 in
    (f.wakeup_write_sequence < f.wakeup_read_sequence + wakeup_sample_capacity
      → after ≡ (
        samples
            ++ (record {
              deadline_ns = deadline;
              actual_wakeup_ns = actual;
              latency_ns = actual - deadline;
            }
                ∷ []),
        lost,
      ))
    × (f.wakeup_write_sequence ≡ f.wakeup_read_sequence + wakeup_sample_capacity
        → after ≡ (samples, lost + 1))

-- Storing a sample in a ring whose sequence numbers do not wrap: with room, the next flush logs the
-- samples that waited before, in their order, and then the new one, with the same count of lost
-- ones; in a full ring it logs the same samples, and one more is lost.
pub flush_wakeup_samples_to_log-store_sample :
    (deadline actual : ℕ) (f : SignalFsmEngine)
    → IsRing f
    → f.dropped_wakeup_sample_count + 1 < 2 ^ 64
    → Follows deadline actual f (store_sample deadline actual f)
unfolding flush_wakeup_samples_to_log
flush_wakeup_samples_to_log-store_sample deadline actual f ring c =
    let r = f.wakeup_read_sequence in
    let w = f.wakeup_write_sequence in
    if-elim (Follows deadline actual f) (leb wakeup_sample_capacity (u64 (w + 2 ^ 64 - r)))
      (λ t. (
        λ h. absurd (ground (arith, t, h, ring)),
        λ h. ap (λ (k : ℕ). (logged f.wakeup_samples r (w - r), k)) (omega (arith, c)),
      ))
      (λ t. (
        λ h.
            let n : u64 (w + 1) - r ≡ suc (w - r) = omega (arith, ring.ordered, ring.small) in
            ap (λ (l : List WakeupSample). (l, f.dropped_wakeup_sample_count))
              (rw n (
                logged-set f.wakeup_samples _ r (w - r) w ring.size (omega (arith, ring.ordered))
                  (omega (arith, h, ring.ordered)))),
        λ h. absurd (ground (arith, t, h, ring)),
      ))
