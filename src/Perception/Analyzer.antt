-- ===== src/Perception/Analyzer.antt =====
-- traffic_perception/include/traffic_perception/pipeline/analyzer.h: the metrics of each lane and
-- the snapshot that they make. The loops over a vector are recursions on its list.
pub mod Metrics
pub mod Bounds
pub mod Snapshot
use adaptive_traffic_light.Prelude.{
  ℕ, zero, suc, ◌+◌, ◌-◌, Bool, true, false, not, ◌||◌, ◌&&◌, if◌then◌else◌, ltb, ◌==◌, leb, Option,
  none, some, List, [], ◌∷◌, map, length, get_or, set, replicate, ℤ, ◌+ℤ◌, -ℤ◌, not_below_zero,
  is_positive,
}
use adaptive_traffic_light.Ipc.Messages.{TrafficSnapshot}
use adaptive_traffic_light.Perception.Frames.{
  Frame, FramePool, Timeline, Slots, TimelineStage, analyzer_begin, analyzer_end, add, frame_of,
  set_frame, release, swap, num_lanes, no_frames,
}
use adaptive_traffic_light.Perception.Vision.{
  Point, Rect, Roi, Detection, InferenceResult, VisionOps,
}

pub record LaneMetrics (F : Type 0) : Type 0 where
  pub detections : List (Detection F)
  pub vehicle_count : ℕ
  pub occupancy : F
  pub queue_length : F
  pub emergency_detected : Bool
  pub lane_id : ℕ

-- The lane states as two arrays, of the metrics and of the render frames.
pub record Analyzer (F : Type 0) : Type 0 where
  pub lane_metrics : List (LaneMetrics F)
  pub latest_render_frame : Slots
  pub frame_counter : ℕ
  pub latest_timeline : Timeline

module _ (ops : VisionOps) where
  open ops use {
    F, add as plus, sub, mul, div, less, of_int, of_count, decimal, sort, bounding_rect,
    intersection, roi_pixels, occupied_pixels,
  }

  -- std::clamp(value, 0.0f, 1.0f)
  abbrev pub clamp_metric : F → F
  clamp_metric value =
      if less value (decimal 0 1)
      then decimal 0 1
      else if less (decimal 10 1) value
      then decimal 10 1
      else value

  abbrev pub bottom_center_y : Detection F → F
  bottom_center_y det = of_int (det.box.y +ℤ det.box.height)

  abbrev pub box_height : Detection F → F
  box_height det = of_int (not_below_zero det.box.height)

  abbrev pub vehicles_of : List (Detection F) → List (F × F)
  vehicles_of = map (λ det. (bottom_center_y det, box_height det))

  abbrev pub total_height : F → List (Detection F) → F
  total_height sum [] = sum
  total_height sum (det ∷ dets) = total_height (plus sum (box_height det)) dets

  -- The indices of the best cluster, and where the current one starts.
  pub record Clusters : Type 0 where
    pub best_start : ℕ
    pub best_end : ℕ
    pub current_start : ℕ

  abbrev pub vehicle_at : List (F × F) → ℕ → F × F
  vehicle_at vehicles i = get_or vehicles i (decimal 0 1, decimal 0 1)

  abbrev pub span : List (F × F) → ℕ → ℕ → F
  span vehicles start end = sub (vehicle_at vehicles end).0 (vehicle_at vehicles start).0

  unfoldable pub update_best_cluster : List (F × F) → ℕ → ℕ → Clusters → Clusters
  update_best_cluster vehicles start end c =
      let current_count = end - start + 1 in
      let best_count = c.best_end - c.best_start + 1 in
      if ltb best_count current_count
        || (current_count == best_count
            && less (span vehicles c.best_start c.best_end) (span vehicles start end))
      then record c { best_start = start; best_end = end }
      else c

  -- The loop from index `i` on, with `n` rounds to go; `gap` is maxContinuousGap.
  unfoldable pub cluster_loop : List (F × F) → F → F → ℕ → ℕ → Clusters → Clusters
  cluster_loop vehicles average gap zero i c = c
  cluster_loop vehicles average gap (suc n) i c =
      let vertical_gap = span vehicles (i - 1) i in
      cluster_loop vehicles average gap n (i + 1) (
        if less (decimal 0 1) average && less gap vertical_gap
        then record (update_best_cluster vehicles c.current_start (i - 1) c) { current_start = i }
        else c)

  abbrev pub no_cluster : Clusters
  no_cluster = record { best_start = 0; best_end = 0; current_start = 0 }

  -- The cluster that the rest of calculateQueueLength() measures.
  unfoldable pub best_cluster : List (F × F) → F → Clusters
  best_cluster vehicles average =
      let c =
        cluster_loop vehicles average (mul (decimal 15 1) average) (length vehicles - 1) 1
          no_cluster in
      update_best_cluster vehicles c.current_start (length vehicles - 1) c

  unfoldable pub calculate_queue_length : List (Detection F) → F → F
  calculate_queue_length detections roi_height =
      if length detections == 0 || not (less (decimal 0 1) roi_height)
      then decimal 0 1
      else (let vehicles = sort (vehicles_of detections) in
          if length vehicles == 1
          then clamp_metric (div (vehicle_at vehicles 0).1 roi_height)
          else (let average =
                div (total_height (decimal 0 1) detections) (of_count (length vehicles)) in
              let c = best_cluster vehicles average in
              if c.best_start == c.best_end
              then clamp_metric (div (vehicle_at vehicles c.best_start).1 roi_height)
              else clamp_metric (div (span vehicles c.best_start c.best_end) roi_height)))

  abbrev pub any_emergency : List (Detection F) → Bool
  any_emergency [] = false
  any_emergency (det ∷ dets) = if det.is_emergency then true else any_emergency dets

  abbrev pub shifted : Rect → Point → Point
  shifted bounds p = record { x = p.x +ℤ -ℤ bounds.x; y = p.y +ℤ -ℤ bounds.y }

  -- The boxes that are drawn into the mask of the vehicles.
  abbrev pub local_boxes : Rect → List (Detection F) → List Rect
  local_boxes bounds [] = []
  local_boxes bounds (det ∷ dets) =
      let clipped = intersection det.box bounds in
      if not (is_positive clipped.width) || not (is_positive clipped.height)
      then local_boxes bounds dets
      else record clipped { x = clipped.x +ℤ -ℤ bounds.x; y = clipped.y +ℤ -ℤ bounds.y }
        ∷ local_boxes bounds dets

  abbrev pub empty_bounds : Rect
  empty_bounds = record { x = ℤ.pos 0; y = ℤ.pos 0; width = ℤ.pos 0; height = ℤ.pos 0 }

  abbrev pub bounds_of : Roi → Rect
  bounds_of roi = if length roi.points == 0 then empty_bounds else bounding_rect roi.points

  abbrev pub occupancy_of : Roi → Rect → List (Detection F) → F
  occupancy_of roi bounds detections =
      let contour = map (shifted bounds) roi.points in
      let pixels = roi_pixels contour bounds in
      if ltb 0 pixels
      then clamp_metric (
          div (of_count (occupied_pixels contour bounds (local_boxes bounds detections)))
            (of_count pixels))
      else decimal 0 1

  unfoldable pub build_lane_metrics : List Roi → InferenceResult F → LaneMetrics F
  build_lane_metrics lane_rois result =
      let roi = get_or lane_rois result.lane_id (record { points = [] }) in
      let bounds = bounds_of roi in
      let measured = is_positive bounds.width && is_positive bounds.height in
      record {
        detections = result.detections;
        vehicle_count = length result.detections;
        occupancy = if measured then occupancy_of roi bounds result.detections else decimal 0 1;
        queue_length =
            if measured
            then calculate_queue_length result.detections (of_int bounds.height)
            else decimal 0 1;
        emergency_detected = any_emergency result.detections;
        lane_id = result.lane_id;
      }

  -- `clock stage` is the time at which that stage is stamped.
  unfoldable pub accept :
      List Roi
      → (TimelineStage → ℕ)
      → ℕ
      → InferenceResult F
      → FramePool × Analyzer F
      → FramePool × Analyzer F
  accept lane_rois clock frame result (pool, a) =
      let begun = add analyzer_begin (clock analyzer_begin) (frame_of pool frame).timeline in
      let timeline = add analyzer_end (clock analyzer_end) begun in
      let stamped = set_frame pool frame (record (frame_of pool frame) { timeline = timeline }) in
      let lane = result.lane_id in
      if not (ltb lane num_lanes)
      then (release (some frame) stamped, a)
      else (let (old, render) = swap lane (some frame) a.latest_render_frame in
          (
            release old stamped,
            record a {
              lane_metrics = set a.lane_metrics lane (build_lane_metrics lane_rois result);
              latest_timeline = timeline;
              latest_render_frame = render;
            },
          ))

  -- takeRenderFrames(): the frames of the lanes, and the empty slots.
  abbrev pub take_render_frames : Analyzer F → List (Option ℕ) × Analyzer F
  take_render_frames a = (a.latest_render_frame, record a { latest_render_frame = no_frames })

  abbrev pub no_metrics : LaneMetrics F
  no_metrics = record {
    detections = [];
    vehicle_count = 0;
    occupancy = decimal 0 1;
    queue_length = decimal 0 1;
    emergency_detected = false;
    lane_id = 0;
  }

  abbrev pub new_analyzer : Analyzer F
  new_analyzer = record {
    lane_metrics = replicate num_lanes no_metrics;
    latest_render_frame = no_frames;
    frame_counter = 0;
    latest_timeline = record { frame_id = 0; entries = [] };
  }

  abbrev pub metrics_at : Analyzer F → ℕ → LaneMetrics F
  metrics_at a lane = get_or a.lane_metrics lane no_metrics

  -- The time is that of the system clock, in microseconds. The directions are the lanes 0 to 3.
  unfoldable pub build_traffic_snapshot : ℕ → Analyzer F → TrafficSnapshot F × Analyzer F
  build_traffic_snapshot now_us a = (
    record {
      frame_id = a.frame_counter + 1;
      timestamp_us = now_us;
      vehicle_count_north = (metrics_at a 0).vehicle_count;
      vehicle_count_south = (metrics_at a 1).vehicle_count;
      vehicle_count_east = (metrics_at a 2).vehicle_count;
      vehicle_count_west = (metrics_at a 3).vehicle_count;
      queue_length_north = (metrics_at a 0).queue_length;
      queue_length_south = (metrics_at a 1).queue_length;
      queue_length_east = (metrics_at a 2).queue_length;
      queue_length_west = (metrics_at a 3).queue_length;
      occupancy_north = (metrics_at a 0).occupancy;
      occupancy_south = (metrics_at a 1).occupancy;
      occupancy_east = (metrics_at a 2).occupancy;
      occupancy_west = (metrics_at a 3).occupancy;
      emergency_north = (metrics_at a 0).emergency_detected;
      emergency_south = (metrics_at a 1).emergency_detected;
      emergency_east = (metrics_at a 2).emergency_detected;
      emergency_west = (metrics_at a 3).emergency_detected;
    },
    record a { frame_counter = a.frame_counter + 1 },
  )
