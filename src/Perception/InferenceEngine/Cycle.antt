-- ===== src/Perception/InferenceEngine/Cycle.antt =====
-- runOneCycle(): where the frames and the metrics of all lanes are afterwards.
use native.Mathlib.Decide.{ℕ_discrete}
use adaptive_traffic_light.Prelude.{
  ℕ, zero, suc, ◌+◌, ◌≤◌, ◌<◌, ◌≡◌, ◌≢◌, refl, sym, ◌∙◌, none, some, List, [], subst, get_or, arith,
  inl, inr,
}
use adaptive_traffic_light.Perception.Frames.{
  Frame, TimelineStage, inference_begin, add, frame_of, num_lanes,
}
use adaptive_traffic_light.Perception.Vision.{Roi, Detection, VisionOps}
use adaptive_traffic_light.Perception.Analyzer.{metrics_at}
use adaptive_traffic_light.Perception.InferenceEngine.Filters.{Filtered}
use adaptive_traffic_light.Perception.InferenceEngine.{Pipe, infer_lane, infer_lanes, run_one_cycle}
use adaptive_traffic_light.Perception.InferenceEngine.Lane.{
  piped, IsWhole, IsApart, Measured, IsInferred, infer_lane-IsInferred,
}

module _ (ops : VisionOps) (infer : ℕ → Frame → List (Detection ops.F)) (rois : List Roi)
    (clock : ℕ → TimelineStage → ℕ) where
  open ops use {F}

  Measured-kept :
      (lane : ℕ) (s t u : Pipe F)
      → metrics_at ops u.analyzer lane ≡ metrics_at ops t.analyzer lane
      → Measured ops infer rois clock lane s t
      → Measured ops infer rois clock lane s u
  Measured-kept lane s t u same (inl (e, m)) = inl (e, same ∙ m)
  Measured-kept lane s t u same (inr (f, dets, e, k, m)) = inr (f, dets, e, k, same ∙ m)

  Measured-late :
      (lane : ℕ) (s t u : Pipe F)
      → get_or t.buffer lane none ≡ get_or s.buffer lane none
      → metrics_at ops t.analyzer lane ≡ metrics_at ops s.analyzer lane
      → ((f : ℕ) → get_or s.buffer lane none ≡ some f → frame_of t.pool f ≡ frame_of s.pool f)
      → Measured ops infer rois clock lane t u
      → Measured ops infer rois clock lane s u
  Measured-late lane s t u slots same old (inl (e, m)) = inl (sym slots ∙ e, m ∙ same)
  Measured-late lane s t u slots same old (inr (f, dets, e, k, m)) = inr (
    f,
    dets,
    sym slots ∙ e,
    subst
        (λ (x : Frame).
          Filtered ops (get_or rois lane (record { points = [] }))
            (infer f
              (record x { timeline = add inference_begin (clock lane inference_begin) x.timeline }))
            dets)
        (old f (sym slots ∙ e)) k,
    m,
  )

  -- What the rounds over the lanes from `lane` on leave.
  pub record IsCycled (lane : ℕ) (s t : Pipe F) : Type 0 where
    pub frames : (f : ℕ) → piped ops infer rois clock f t ≡ piped ops infer rois clock f s
    pub whole : IsWhole ops infer rois clock t
    pub emptied : (j : ℕ) → lane ≤ j → j < num_lanes → get_or t.buffer j none ≡ none
    pub measured : (j : ℕ) → lane ≤ j → j < num_lanes → Measured ops infer rois clock j s t
    pub before :
        (j : ℕ)
        → j < lane
        → (get_or t.buffer j none ≡ get_or s.buffer j none)
          × (metrics_at ops t.analyzer j ≡ metrics_at ops s.analyzer j)
    pub counter : t.analyzer.frame_counter ≡ s.analyzer.frame_counter

  joined :
      (lane : ℕ) (s t u : Pipe F)
      → IsInferred ops infer rois clock lane s t
      → IsCycled (lane + 1) t u
      → IsCycled lane s u
  joined lane s t u a rest = record {
    frames = λ f. rest.frames f ∙ a.frames f;
    whole = rest.whole;
    emptied = λ j l m. empty_slot j l m (ℕ_discrete lane j);
    measured = λ j l m. measured_lane j l m (ℕ_discrete lane j);
    before = λ j l.
        let n : lane ≢ j = λ e. omega arith in
        let (slots, metrics) = rest.before j (omega arith) in
        (slots ∙ (a.others j n).0, metrics ∙ (a.others j n).1);
    counter = rest.counter ∙ a.counter;
  }
    where
      empty_slot :
          (j : ℕ) → lane ≤ j → j < num_lanes → Dec (lane ≡ j) → get_or u.buffer j none ≡ none
      empty_slot j l m (yes e) = rw (← e) ((rest.before lane (omega arith)).0 ∙ a.emptied)
      empty_slot j l m (no n) = rest.emptied j (omega arith) m

      before_it : (j : ℕ) → lane ≤ j → lane ≢ j → lane < j
      before_it j l n = ground (arith, l, n)

      measured_lane :
          (j : ℕ) → lane ≤ j → j < num_lanes → Dec (lane ≡ j) → Measured ops infer rois clock j s u
      measured_lane j l m (yes e) =
          rw (← e) (Measured-kept lane s t u (rest.before lane (omega arith)).1 a.measured)
      measured_lane j l m (no n) =
          Measured-late j s t u (a.others j n).0 (a.others j n).1
            (λ f e. a.unchanged j f (before_it j l n) e) (rest.measured j (omega arith) m)

  infer_lanes-IsCycled :
      (n lane : ℕ) (s : Pipe F)
      → lane + n ≡ num_lanes
      → IsWhole ops infer rois clock s
      → IsApart ops infer rois clock lane s
      → IsCycled lane s (infer_lanes ops infer rois clock n lane s)
  unfolding infer_lanes
  infer_lanes-IsCycled zero lane s h w d = record {
    frames = λ f. refl;
    whole = w;
    emptied = λ j l m. absurd (omega arith);
    measured = λ j l m. absurd (omega arith);
    before = λ j l. (refl, refl);
    counter = refl;
  }
  infer_lanes-IsCycled (suc n) lane s h w d =
      let first = infer_lane-IsInferred ops infer rois clock lane s (omega arith) w d in
      joined lane s (infer_lane ops infer rois clock lane s) _ first
        (infer_lanes-IsCycled n (lane + 1) _ (omega arith) first.whole first.apart)

  -- runOneCycle(), when each frame in the buffer is one of the pool's, is in one slot of the buffer
  -- only and in no render slot: no frame is lost and none appears; all four slots of the buffer are
  -- empty afterwards; the metrics of each lane are those that buildLaneMetrics() computes, or, if the
  -- slot was empty, what they were. It computes them from the detections that infer() gives for the
  -- frame in the lane's slot, as it was in the pool but for the stamp of the stage, less those that
  -- are no vehicles, and those of which the middle of the lower edge is outside the lane's region,
  -- if it has one. The number of the last snapshot stays.
  pub run_one_cycle-IsCycled :
      (s : Pipe F)
      → IsWhole ops infer rois clock s
      → IsApart ops infer rois clock 0 s
      → IsCycled 0 s (run_one_cycle ops infer rois clock s)
  run_one_cycle-IsCycled s w d = infer_lanes-IsCycled num_lanes 0 s (omega arith) w d
