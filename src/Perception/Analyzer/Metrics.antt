-- ===== src/Perception/Analyzer/Metrics.antt =====
-- buildLaneMetrics(): the range of the metrics, and when an emergency is reported.
use adaptive_traffic_light.Prelude.{
  ◌≡◌, Bool, true, false, not, ◌&&◌, ◌||◌, if-elim, ltb, ◌==◌, List, [], ◌∷◌, length, get_or, map,
  is_positive, arith, ◌⊎◌, ◌↔◌,
}
use adaptive_traffic_light.Perception.Vision.{Roi, Rect, Detection, InferenceResult, VisionOps}
use adaptive_traffic_light.Perception.Analyzer.{
  clamp_metric, calculate_queue_length, occupancy_of, build_lane_metrics, any_emergency,
  best_cluster, bounds_of, shifted, Clusters, vehicle_at, vehicles_of, total_height, span,
  local_boxes,
}

-- The comparison tells the literals 0 and 1 apart.
pub record IsOrdered (ops : VisionOps) : Type 0 where
  pub zero_zero : ops.less (ops.decimal 0 1) (ops.decimal 0 1) ≡ false
  pub one_zero : ops.less (ops.decimal 10 1) (ops.decimal 0 1) ≡ false
  pub one_one : ops.less (ops.decimal 10 1) (ops.decimal 10 1) ≡ false

module _ (ops : VisionOps) where
  open ops use {F, less, decimal, of_int}

  -- From 0 to 1, or not a number.
  abbrev pub InUnit : F → Type 0
  InUnit v = (less v (decimal 0 1) ≡ false) × (less (decimal 10 1) v ≡ false)

  module _ (ordered : IsOrdered ops) where
    open ordered use {zero_zero, one_zero, one_one}

    clamp_metric-InUnit : (v : F) → InUnit (clamp_metric ops v)
    clamp_metric-InUnit v =
        if-elim InUnit (less v (decimal 0 1)) (λ _. (zero_zero, one_zero))
          λ low.
            if-elim InUnit (less (decimal 10 1) v) (λ _. (one_zero, one_one)) λ high. (low, high)

    calculate_queue_length-InUnit :
        (dets : List (Detection F)) (h : F) → InUnit (calculate_queue_length ops dets h)
    unfolding calculate_queue_length
    calculate_queue_length-InUnit dets h =
        if-elim InUnit (length dets == 0 || not (less (decimal 0 1) h)) (λ _. (zero_zero, one_zero))
          λ _.
            if-elim InUnit (length vehicles == 1)
              (λ _. clamp_metric-InUnit (ops.div (vehicle_at ops vehicles 0).1 h))
              λ _.
                if-elim InUnit (c.best_start == c.best_end)
                  (λ _. clamp_metric-InUnit (ops.div (vehicle_at ops vehicles c.best_start).1 h))
                  (λ _. clamp_metric-InUnit (ops.div (span ops vehicles c.best_start c.best_end) h))
      where
        vehicles : List (F × F)
        vehicles = ops.sort (vehicles_of ops dets)

        c : Clusters ops
        c =
            best_cluster ops vehicles
              (ops.div (total_height ops (decimal 0 1) dets) (ops.of_count (length vehicles)))

    occupancy_of-InUnit :
        (roi : Roi) (bounds : Rect) (dets : List (Detection F))
        → InUnit (occupancy_of ops roi bounds dets)
    occupancy_of-InUnit roi bounds dets =
        let contour = map (shifted ops bounds) roi.points in
        let pixels = ops.roi_pixels contour bounds in
        if-elim InUnit (ltb 0 pixels)
          (λ _. clamp_metric-InUnit (
            ops.div
              (ops.of_count (ops.occupied_pixels contour bounds (local_boxes ops bounds dets)))
              (ops.of_count pixels)))
          (λ _. (zero_zero, one_zero))

    -- The occupancy and the queue length that buildLaneMetrics() computes are never below 0 and
    -- never above 1, whatever was detected and whatever the region of interest is.
    pub build_lane_metrics-InUnit :
        (rois : List Roi) (r : InferenceResult F)
        → let m = build_lane_metrics ops rois r in InUnit m.occupancy × InUnit m.queue_length
    unfolding build_lane_metrics
    build_lane_metrics-InUnit rois r = (
      if-elim InUnit measured (λ _. occupancy_of-InUnit roi bounds r.detections)
          (λ _. (zero_zero, one_zero)),
      if-elim InUnit measured
          (λ _. calculate_queue_length-InUnit r.detections (of_int bounds.height))
          (λ _. (zero_zero, one_zero)),
    )
      where
        roi : Roi
        roi = get_or rois r.lane_id (record { points = [] })

        bounds : Rect
        bounds = bounds_of ops roi

        measured : Bool
        measured = is_positive bounds.width && is_positive bounds.height

  -- Some detection of the list has a property.
  abbrev pub Some : (Detection F → Type 0) → List (Detection F) → Type 0
  Some P [] = ⊥
  Some P (d ∷ ds) = P d ⊎ Some P ds

  pub any_emergency_iff :
      (dets : List (Detection F))
      → (any_emergency ops dets ≡ true) ↔ Some (λ d. d.is_emergency ≡ true) dets
  any_emergency_iff [] = ground arith
  any_emergency_iff (d ∷ ds) = ground (arith, any_emergency_iff ds)
