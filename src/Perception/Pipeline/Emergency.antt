-- ===== src/Perception/Pipeline/Emergency.antt =====
-- A pipeline cycle from the detections to the queue: what the snapshot on the wire says.
use adaptive_traffic_light.Prelude.{
  ℕ, zero, suc, ◌<◌, ◌+◌, ◌≡◌, ◌↔◌, sym, subst, refl, ap, ◌∙◌, Bool, true, ◌⊎◌, inl, inr, none,
  some, List, [], ◌∷◌, ◌++◌, get_or, length, arith,
}
use adaptive_traffic_light.Ipc.Messages.{TrafficSnapshot}
use adaptive_traffic_light.Ipc.LatestValue.{Channel, IsPosix}
use adaptive_traffic_light.Ipc.LatestValue.Publishing.{publish-cases}
use adaptive_traffic_light.Perception.Frames.{Frame, TimelineStage, num_lanes}
use adaptive_traffic_light.Perception.Vision.{Roi, Detection, VisionOps}
use adaptive_traffic_light.Perception.Analyzer.{
  Analyzer, metrics_at, build_lane_metrics, build_traffic_snapshot,
}
use adaptive_traffic_light.Perception.InferenceEngine.{run_one_cycle, Pipe}
use adaptive_traffic_light.Perception.InferenceEngine.Lane.{IsWhole, IsApart, given, Measured}
use adaptive_traffic_light.Perception.InferenceEngine.Cycle.{run_one_cycle-IsCycled}
use adaptive_traffic_light.Perception.InferenceEngine.Filters.{Filtered}
use adaptive_traffic_light.Perception.Analyzer.Metrics.{Some, any_emergency_iff}
use adaptive_traffic_light.Perception.Pipeline.{
  SnapshotSender, PipelineManager, CycleClock, to_wire_snapshot, send, broadcast_snapshot,
  pipeline_cycle,
}

-- The flags and counts of the four directions, by the lane.
abbrev pub emergency_of : {F : Type 0} → TrafficSnapshot F → ℕ → Bool
emergency_of s zero = s.emergency_north
emergency_of s (suc zero) = s.emergency_south
emergency_of s (suc (suc zero)) = s.emergency_east
emergency_of s _ = s.emergency_west

abbrev pub count_of : {F : Type 0} → TrafficSnapshot F → ℕ → ℕ
count_of s zero = s.vehicle_count_north
count_of s (suc zero) = s.vehicle_count_south
count_of s (suc (suc zero)) = s.vehicle_count_east
count_of s _ = s.vehicle_count_west

module _ (ops : VisionOps) where
  open ops use {F}

  abbrev built : ℕ → Analyzer F → TrafficSnapshot F
  built now a = (build_traffic_snapshot ops now a).0

  wire-emergency :
      (sent_us now lane : ℕ) (a : Analyzer F)
      → lane < num_lanes
      → emergency_of (to_wire_snapshot sent_us (built now a)) lane
        ≡ (metrics_at ops a lane).emergency_detected
  unfolding to_wire_snapshot build_traffic_snapshot
  wire-emergency sent_us now zero a l = refl
  wire-emergency sent_us now (suc zero) a l = refl
  wire-emergency sent_us now (suc (suc zero)) a l = refl
  wire-emergency sent_us now (suc (suc (suc zero))) a l = refl
  wire-emergency sent_us now (suc (suc (suc (suc n)))) a l = absurd (omega arith)

  wire-count :
      (sent_us now lane : ℕ) (a : Analyzer F)
      → lane < num_lanes
      → count_of (to_wire_snapshot sent_us (built now a)) lane
        ≡ (metrics_at ops a lane).vehicle_count
  unfolding to_wire_snapshot build_traffic_snapshot
  wire-count sent_us now zero a l = ground arith
  wire-count sent_us now (suc zero) a l = ground arith
  wire-count sent_us now (suc (suc zero)) a l = ground arith
  wire-count sent_us now (suc (suc (suc zero))) a l = ground arith
  wire-count sent_us now (suc (suc (suc (suc n)))) a l = absurd (omega arith)

module _ (ops : VisionOps) (c : Channel (TrafficSnapshot ops.F))
    (infer : ℕ → Frame → List (Detection ops.F)) (rois : List Roi) where
  open ops use {F}
  open c use {World, contents}

  -- What the wire says of a lane: of the vehicles that are seen in the frame that was in the lane's
  -- slot, if there was one, and else what the metrics said before.
  abbrev pub IsReported :
      (ℕ → TimelineStage → ℕ) → PipelineManager F → TrafficSnapshot F → ℕ → Type 0
  IsReported stages m wire lane =
      ((get_or m.pipe.buffer lane none ≡ none)
        × (emergency_of wire lane ≡ (metrics_at ops m.pipe.analyzer lane).emergency_detected)
        × (count_of wire lane ≡ (metrics_at ops m.pipe.analyzer lane).vehicle_count))
      ⊎ ((f : ℕ) × (seen : List (Detection F)) × (get_or m.pipe.buffer lane none ≡ some f)
          × Filtered ops (get_or rois lane (record { points = [] }))
              (infer f (given ops infer rois stages lane f m.pipe)) seen
          × ((emergency_of wire lane ≡ true) ↔ Some ops (λ d. d.is_emergency ≡ true) seen)
          × (count_of wire lane ≡ length seen))

  -- The wire is the last message of the queue, or the pending one.
  abbrev pub IsOut : TrafficSnapshot F → PipelineManager F × World → Type 0
  IsOut wire (m, w) =
      ((kept : List (TrafficSnapshot F)) × (contents w ≡ kept ++ (wire ∷ [])))
      ⊎ ((s : SnapshotSender F) × (m.sender ≡ some s) × (s.publisher.pending_latest ≡ some wire))

  Measured-IsReported :
      (stages : ℕ → TimelineStage → ℕ) (sent_us now lane : ℕ) (m : PipelineManager F) (t : Pipe F)
      → lane < num_lanes
      → Measured ops infer rois stages lane m.pipe t
      → IsReported stages m (to_wire_snapshot sent_us (built ops now t.analyzer)) lane
  unfolding build_lane_metrics
  Measured-IsReported stages sent_us now lane m t l (inl (e, same)) = inl (
    e,
    wire-emergency ops sent_us now lane t.analyzer l ∙ ap (λ x. x.emergency_detected) same,
    wire-count ops sent_us now lane t.analyzer l ∙ ap (λ x. x.vehicle_count) same,
  )
  Measured-IsReported stages sent_us now lane m t l (inr (f, seen, e, k, new)) = inr (
    f,
    seen,
    e,
    k,
    subst (λ (b : Bool). (b ≡ true) ↔ Some ops (λ d. d.is_emergency ≡ true) seen)
        (sym
          (wire-emergency ops sent_us now lane t.analyzer l ∙ ap (λ x. x.emergency_detected) new))
        (any_emergency_iff ops seen),
    wire-count ops sent_us now lane t.analyzer l ∙ ap (λ x. x.vehicle_count) new,
  )

  sent-IsOut :
      (posix : IsPosix c) (sent_us : ℕ) (snapshot : TrafficSnapshot F) (p : Pipe F)
      (s : SnapshotSender F) (w : World)
      → s.is_open ≡ true
      → let (sent, t, v) = broadcast_snapshot c sent_us snapshot (some s) w in
        IsOut (to_wire_snapshot sent_us snapshot) (record { pipe = p; sender = t }, v)
  unfolding broadcast_snapshot send
  sent-IsOut posix sent_us snapshot p s w o =
      rw o (elim (publish-cases c posix (to_wire_snapshot sent_us snapshot) s.publisher w) [
        | inl q ↦ inl (q.queue.0, q.queue.2)
        | inr k ↦ inr (_, refl, k.pending)
      ])

  -- A cycle of a pipeline whose sender is open, when each frame in the buffer is one of the pool's, is
  -- in one slot of the buffer only and in no render slot: there is one snapshot, which is now the last
  -- message of the queue or, if publish() did not succeed, the pending one; its number is one above
  -- that of the last snapshot, and the analyzer counts on from it. For each lane whose slot held a
  -- frame, its count is that of the vehicles that the back end gave for that frame and that have the
  -- middle of their lower edge in the lane's region, if it has one, and its emergency flag is set
  -- exactly if one of them is an emergency vehicle; without a frame both are those of the metrics
  -- before.
  pub pipeline_cycle-IsReported :
      (posix : IsPosix c) (clock : CycleClock) (m : PipelineManager F) (w : World)
      (s : SnapshotSender F)
      → IsWhole ops infer rois clock.stages m.pipe
      → IsApart ops infer rois clock.stages 0 m.pipe
      → m.sender ≡ some s
      → s.is_open ≡ true
      → (wire : TrafficSnapshot F) × ((lane : ℕ)
          → lane < num_lanes
          → IsReported clock.stages m wire lane)
        × (wire.timestamp_us ≡ clock.sent_us)
        × (wire.frame_id ≡ m.pipe.analyzer.frame_counter + 1)
        × ((pipeline_cycle ops c infer rois clock m w).0.pipe.analyzer.frame_counter
            ≡ wire.frame_id)
        × IsOut wire (pipeline_cycle ops c infer rois clock m w)
  unfolding pipeline_cycle to_wire_snapshot build_traffic_snapshot
  pipeline_cycle-IsReported posix clock m w s v d e o =
      let p = run_one_cycle ops infer rois clock.stages m.pipe in
      let snapshot = built ops clock.built_us p.analyzer in
      let cycled = run_one_cycle-IsCycled ops infer rois clock.stages m.pipe v d in
      (
        to_wire_snapshot clock.sent_us snapshot,
        (λ lane l.
            Measured-IsReported clock.stages clock.sent_us clock.built_us lane m p l
              (cycled.measured lane (omega arith) l)),
        stamped clock.sent_us snapshot,
        numbered clock.sent_us clock.built_us p.analyzer ∙ ap (λ n. n + 1) cycled.counter,
        sym (numbered clock.sent_us clock.built_us p.analyzer),
        rw e (
            sent-IsOut posix clock.sent_us snapshot
              (record p { analyzer = (build_traffic_snapshot ops clock.built_us p.analyzer).1 }) s w
              o),
      )
    where
      stamped : (now : ℕ) (x : TrafficSnapshot F) → (to_wire_snapshot now x).timestamp_us ≡ now
      stamped now x = refl

      numbered :
          (sent_us now : ℕ) (a : Analyzer F)
          → (to_wire_snapshot sent_us (built ops now a)).frame_id ≡ a.frame_counter + 1
      numbered sent_us now a = ground arith
