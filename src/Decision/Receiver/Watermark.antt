-- ===== src/Decision/Receiver/Watermark.antt =====
-- traffic_data_receiver.cpp: accepted snapshots are fresh, and their frame numbers only go up.
use adaptive_traffic_light.Prelude.{
  ℕ, ◌+◌, ◌/◌, ◌≤◌, ◌<◌, ◌≡◌, ◌≢◌, ◌⊎◌, inl, inr, true, false, List, [], ◌∷◌, if◌then◌else◌, arith,
}
use adaptive_traffic_light.Ipc.Messages.{TrafficSnapshot}
use adaptive_traffic_light.Decision.Float.{FloatOps}
use adaptive_traffic_light.Decision.Receiver.{TrafficDataReceiver, validate_snapshot}

-- Strictly increasing, from above `n`.
pub data IsIncreasing : ℕ → List ℕ → Type 0 where
  no_more : {n : ℕ} → IsIncreasing n []
  one_more :
      {n : ℕ} (m : ℕ) {later : List ℕ} → n < m → IsIncreasing m later → IsIncreasing n (m ∷ later)

module _ (ops : FloatOps) where
  open ops use {F, at_most, is_finite, decimal}

  -- A number from 0 to a limit, and not an infinity or a NaN.
  abbrev pub IsBetween : F → F → Type 0
  IsBetween limit x =
      (is_finite x ≡ true) × (at_most (decimal 0 1) x ≡ true) × (at_most x limit ≡ true)

  -- At most 10000 vehicles, a queue of at most 1000 and an occupancy of at most 1, on each of the
  -- four sides.
  pub record AreInRange (s : TrafficSnapshot F) : Type 0 where
    pub vehicles_north : s.vehicle_count_north ≤ 10000
    pub vehicles_south : s.vehicle_count_south ≤ 10000
    pub vehicles_east : s.vehicle_count_east ≤ 10000
    pub vehicles_west : s.vehicle_count_west ≤ 10000
    pub queue_north : IsBetween (decimal 10000 1) s.queue_length_north
    pub queue_south : IsBetween (decimal 10000 1) s.queue_length_south
    pub queue_east : IsBetween (decimal 10000 1) s.queue_length_east
    pub queue_west : IsBetween (decimal 10000 1) s.queue_length_west
    pub occupancy_north : IsBetween (decimal 10 1) s.occupancy_north
    pub occupancy_south : IsBetween (decimal 10 1) s.occupancy_south
    pub occupancy_east : IsBetween (decimal 10 1) s.occupancy_east
    pub occupancy_west : IsBetween (decimal 10 1) s.occupancy_west

  -- What validateSnapshot() asks for, in arithmetic that does not wrap.
  pub record IsFresh (now_ns : ℕ) (s : TrafficSnapshot F) (r : TrafficDataReceiver F) : Type 0 where
    pub identified : s.frame_id ≢ 0
    pub newer : r.previous_snapshot.frame_id < s.frame_id
    pub timestamped : s.timestamp_us ≢ 0
    pub not_ahead : s.timestamp_us ≤ now_ns / 1000 + 100000
    pub not_old : now_ns / 1000 ≤ s.timestamp_us + 6000000
    pub metrics : AreInRange s

  validate_snapshot-cases :
      (now_ns : ℕ) (s : TrafficSnapshot F) (r : TrafficDataReceiver F)
      → ((r.previous_snapshot.frame_id < s.frame_id)
          × (validate_snapshot ops now_ns s r
              ≡ (record r { latest_snapshot = s; previous_snapshot = s }, true)))
        ⊎ (validate_snapshot ops now_ns s r ≡ (r, false))
  unfolding validate_snapshot
  validate_snapshot-cases now_ns s r = ground arith

  -- The frame numbers of the snapshots that are accepted, one after the other.
  unfoldable pub accepted_frames : List (ℕ × TrafficSnapshot F) → TrafficDataReceiver F → List ℕ
  accepted_frames [] r = []
  accepted_frames ((now_ns, s) ∷ later) r =
      let (r', valid) = validate_snapshot ops now_ns s r in
      let rest = accepted_frames later r' in if valid then s.frame_id ∷ rest else rest

  -- Whatever snapshots come in, in whatever order, the frame numbers of those that are accepted
  -- are strictly increasing, from above the watermark at the start.
  pub accepted_frames-IsIncreasing :
      (inputs : List (ℕ × TrafficSnapshot F)) (r : TrafficDataReceiver F)
      → IsIncreasing r.previous_snapshot.frame_id (accepted_frames inputs r)
  unfolding accepted_frames
  accepted_frames-IsIncreasing [] r = no_more
  accepted_frames-IsIncreasing ((now_ns, s) ∷ later) r = elim (validate_snapshot-cases now_ns s r) [
    | inl h ↦ rw h.1 (
        one_more s.frame_id h.0 (
          accepted_frames-IsIncreasing later
            (record r { latest_snapshot = s; previous_snapshot = s })))
    | inr e ↦ rw e (accepted_frames-IsIncreasing later r)
  ]
