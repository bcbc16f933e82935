-- ===== src/Perception/InferenceEngine.antt =====
-- traffic_perception/src/inference/inference_engine.cpp: the cycle that takes each lane's frame out
-- of the buffer, has the backend infer on it, keeps the vehicles in the lane's region of interest and
-- hands frame and result to the analyzer. `infer` is IModelBackend::infer(), which may read the
-- frame that it is given.
pub mod Filters
pub mod Lane
pub mod Cycle
use adaptive_traffic_light.Prelude.{
  ℕ, zero, suc, ◌+◌, Bool, true, false, not, if◌then◌else◌, Option, none, some, List, [], ◌∷◌,
  length, get_or, ◌==◌, ◌+ℤ◌,
}
use adaptive_traffic_light.Perception.Frames.{
  Frame, FramePool, Slots, TimelineStage, inference_begin, inference_end, add, frame_of, set_frame,
  take, num_lanes,
}
use adaptive_traffic_light.Perception.Vision.{Roi, Detection, InferenceResult, VisionOps}
use adaptive_traffic_light.Perception.Analyzer.{Analyzer, accept}

-- What the engine refers to: the pool, the buffer and the sink.
pub record Pipe (F : Type 0) : Type 0 where
  pub pool : FramePool
  pub buffer : Slots
  pub analyzer : Analyzer F

module _ (ops : VisionOps) where
  open ops use {F, add as plus, mul, of_int, decimal, inside}

  abbrev pub vehicles_only : List (Detection F) → List (Detection F)
  vehicles_only [] = []
  vehicles_only (det ∷ dets) =
      if det.is_vehicle then det ∷ vehicles_only dets else vehicles_only dets

  -- The middle of the lower edge of the box is in the polygon.
  abbrev pub in_roi : Roi → Detection F → Bool
  in_roi roi det =
      inside roi.points (plus (of_int det.box.x) (mul (of_int det.box.width) (decimal 5 1)))
        (of_int (det.box.y +ℤ det.box.height))

  abbrev pub in_roi_only : Roi → List (Detection F) → List (Detection F)
  in_roi_only roi [] = []
  in_roi_only roi (det ∷ dets) =
      if in_roi roi det then det ∷ in_roi_only roi dets else in_roi_only roi dets

  abbrev pub roi_filter : Roi → List (Detection F) → List (Detection F)
  roi_filter roi dets = if not (length roi.points == 0) then in_roi_only roi dets else dets

  module _ (infer : ℕ → Frame → List (Detection F)) (lane_rois : List Roi)
      (clock : ℕ → TimelineStage → ℕ) where
    abbrev pub lane_roi : ℕ → Roi
    lane_roi lane = get_or lane_rois lane (record { points = [] })

    abbrev pub stamp_stage : ℕ → TimelineStage → ℕ → FramePool → FramePool
    stamp_stage lane stage frame pool =
        let old = frame_of pool frame in
        set_frame pool frame (record old { timeline = add stage (clock lane stage) old.timeline })

    -- The result that the sink gets for a frame of the lane.
    abbrev pub result_of : ℕ → ℕ → FramePool → InferenceResult F
    result_of lane frame pool = record {
      lane_id = lane;
      detections = roi_filter (lane_roi lane) (vehicles_only (infer frame (frame_of pool frame)));
    }

    -- One round of the loop. `clock lane stage` is the time at which the stage is stamped.
    unfoldable pub infer_lane : ℕ → Pipe F → Pipe F
    infer_lane lane s =
        let (frame, b) = take lane s.buffer in
        elim frame [
          | none ↦ record s { buffer = b }
          | some f ↦
              let begun = stamp_stage lane inference_begin f s.pool in
              let ended = stamp_stage lane inference_end f begun in
              let (p, a) =
                accept ops lane_rois (clock lane) f (result_of lane f begun) (ended, s.analyzer) in
              record { pool = p; buffer = b; analyzer = a }
        ]

    unfoldable pub infer_lanes : ℕ → ℕ → Pipe F → Pipe F
    infer_lanes zero lane s = s
    infer_lanes (suc n) lane s = infer_lanes n (lane + 1) (infer_lane lane s)

    abbrev pub run_one_cycle : Pipe F → Pipe F
    run_one_cycle = infer_lanes num_lanes 0
