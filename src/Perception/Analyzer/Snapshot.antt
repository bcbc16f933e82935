-- ===== src/Perception/Analyzer/Snapshot.antt =====
-- accept(): the frame takes the place of the one before it in the lane's render slot, and only that
-- lane's metrics change.
use mathlib.Core.Option.{some-injective}
use adaptive_traffic_light.Prelude.{
  ℕ, ◌+◌, ◌<◌, ◌≡◌, ◌≢◌, refl, ◌∙◌, not, if-elim, ltb, none, some, List, length, get_or, length-set,
  get_or-set_self, get_or-set_ne, arith,
}
use adaptive_traffic_light.Perception.Frames.{
  FramePool, TimelineStage, set_frame, frame_of, add, analyzer_begin, analyzer_end, num_lanes,
}
use adaptive_traffic_light.Perception.Frames.Places.{
  one, count, count_slots, count_slots-set, count-release, release-untouched, length-release,
}
use adaptive_traffic_light.Perception.Vision.{Roi, InferenceResult, VisionOps}
use adaptive_traffic_light.Perception.Analyzer.{Analyzer, accept, build_lane_metrics, metrics_at}

module _ (ops : VisionOps) (rois : List Roi) where
  open ops use {F}

  -- In how many places of the analyzer's side the frame is.
  abbrev pub analyzed : ℕ → FramePool × Analyzer F → ℕ
  analyzed f s = count f s.0.free_list + count_slots f s.1.latest_render_frame

  pub record IsShaped (a : Analyzer F) : Type 0 where
    pub metrics : length a.lane_metrics ≡ num_lanes
    pub render : length a.latest_render_frame ≡ num_lanes

  -- What accept() does with a result: the frame goes to the render slot or back to the pool, the
  -- lane's metrics are those of the result, and the other lanes' stay as they are.
  pub record IsAccepted (frame : ℕ) (r : InferenceResult F) (s t : FramePool × Analyzer F)
      : Type 0 where
    pub frames : (f : ℕ) → analyzed f t ≡ one f frame + analyzed f s
    pub shaped : IsShaped t.1
    pub lane : r.lane_id < num_lanes → metrics_at ops t.1 r.lane_id ≡ build_lane_metrics ops rois r
    pub others : (j : ℕ) → r.lane_id ≢ j → metrics_at ops t.1 j ≡ metrics_at ops s.1 j
    pub untouched :
        (f : ℕ)
        → frame ≢ f
        → get_or s.1.latest_render_frame r.lane_id none ≢ some f
        → frame_of t.0 f ≡ frame_of s.0 f
    pub size : length t.0.pool ≡ length s.0.pool
    pub renders :
        (j : ℕ)
        → r.lane_id ≢ j
        → get_or t.1.latest_render_frame j none ≡ get_or s.1.latest_render_frame j none
    pub counter : t.1.frame_counter ≡ s.1.frame_counter

  -- accept() of a frame and its result.
  pub accept-IsAccepted :
      (clock : TimelineStage → ℕ) (frame : ℕ) (r : InferenceResult F) (s : FramePool × Analyzer F)
      → IsShaped s.1
      → IsAccepted frame r s (accept ops rois clock frame r s)
  unfolding accept
  accept-IsAccepted clock frame r (pool, a) v =
      if-elim (IsAccepted frame r (pool, a)) (not (ltb r.lane_id num_lanes))
        (λ out. record {
          frames = λ f. omega (arith, count-release f (some frame) stamped);
          shaped = v;
          lane = λ l. absurd (ground arith);
          others = λ j n. refl;
          untouched = λ f n o.
              release-untouched (some frame) stamped f (λ e. n (some-injective _ _ e))
              ∙ get_or-set_ne pool.pool frame f _ _ n;
          size = length-release (some frame) stamped ∙ length-set pool.pool frame _;
          renders = λ j n. refl;
          counter = refl;
        })
        (λ inside.
          let l : r.lane_id < num_lanes = ground arith in
          record {
            frames = λ f. omega (
              arith,
              count-release f (get_or a.latest_render_frame r.lane_id none) stamped,
              count_slots-set f a.latest_render_frame r.lane_id (some frame)
                  (omega (arith, v.render)),
            );
            shaped = ground (
              arith,
              length-set a.lane_metrics r.lane_id (build_lane_metrics ops rois r),
              length-set a.latest_render_frame r.lane_id (some frame),
            );
            lane = λ _. get_or-set_self a.lane_metrics r.lane_id _ _ (omega (arith, v.metrics));
            others = λ j n. get_or-set_ne a.lane_metrics r.lane_id j _ _ n;
            untouched = λ f n o.
                release-untouched (get_or a.latest_render_frame r.lane_id none) stamped f o
                ∙ get_or-set_ne pool.pool frame f _ _ n;
            size =
                length-release (get_or a.latest_render_frame r.lane_id none) stamped
                ∙ length-set pool.pool frame _;
            renders = λ j n. get_or-set_ne a.latest_render_frame r.lane_id j _ _ n;
            counter = refl;
          })
    where
      stamped : FramePool
      stamped = set_frame pool frame record (frame_of pool frame) {
        timeline =
            add analyzer_end (clock analyzer_end)
              (add analyzer_begin (clock analyzer_begin) (frame_of pool frame).timeline);
      }
