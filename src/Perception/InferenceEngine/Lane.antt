-- ===== src/Perception/InferenceEngine/Lane.antt =====
-- runOneCycle(): one round of its loop, on the slot of one lane.
use adaptive_traffic_light.Prelude.{
  ℕ, ◌+◌, ◌≤◌, ◌<◌, ◌≡◌, ◌≢◌, refl, sym, ap, ◌∙◌, option-elim, none, some, List, [], length,
  length-set, subst, get_or-set_ne, get_or-set_self, get_or, arith, ◌⊎◌, inl, inr,
}
use adaptive_traffic_light.Perception.Frames.{
  Frame, FramePool, TimelineStage, inference_begin, inference_end, add, frame_of, take, num_lanes,
}
use adaptive_traffic_light.Perception.Frames.Places.{
  in_slot, count_slots, count-take, length-take, take-IsSlot, take-others,
}
use adaptive_traffic_light.Perception.Vision.{Roi, Detection, VisionOps}
use adaptive_traffic_light.Perception.Analyzer.{accept, build_lane_metrics, metrics_at}
use adaptive_traffic_light.Perception.Analyzer.Snapshot.{
  analyzed, IsShaped, IsAccepted, accept-IsAccepted,
}
use adaptive_traffic_light.Perception.InferenceEngine.Filters.{Filtered, roi_filter-Filtered}
use adaptive_traffic_light.Perception.InferenceEngine.{Pipe, result_of, stamp_stage, infer_lane}

module _ (ops : VisionOps) (infer : ℕ → Frame → List (Detection ops.F)) (rois : List Roi)
    (clock : ℕ → TimelineStage → ℕ) where
  open ops use {F}

  -- In how many places of the pipeline's side the frame is.
  abbrev pub piped : ℕ → Pipe F → ℕ
  piped f s = analyzed ops rois f (s.pool, s.analyzer) + count_slots f s.buffer

  pub record IsWhole (s : Pipe F) : Type 0 where
    pub buffer : length s.buffer ≡ num_lanes
    pub analyzer : IsShaped ops rois s.analyzer

  -- From the lane `from` on, a frame that waits in the buffer is one of the pool's, waits there once,
  -- and is not in a render slot.
  pub record IsApart (from : ℕ) (s : Pipe F) : Type 0 where
    pub known : (j f : ℕ) → from ≤ j → get_or s.buffer j none ≡ some f → f < length s.pool.pool
    pub alone :
        (i j f : ℕ)
        → from ≤ i
        → from ≤ j
        → i ≢ j
        → get_or s.buffer i none ≡ some f
        → get_or s.buffer j none ≢ some f
    pub unshown :
        (i j f : ℕ)
        → from ≤ i
        → from ≤ j
        → get_or s.buffer j none ≡ some f
        → get_or s.analyzer.latest_render_frame i none ≢ some f

  -- The frame as the back end gets it: with the stamp of the stage that begins.
  abbrev pub given : ℕ → ℕ → Pipe F → Frame
  given lane f s =
      let old = frame_of s.pool f in
      record old { timeline = add inference_begin (clock lane inference_begin) old.timeline }

  -- The metrics of a lane after the engine has looked at its slot.
  abbrev pub Measured : ℕ → Pipe F → Pipe F → Type 0
  Measured lane s t =
      ((get_or s.buffer lane none ≡ none)
        × (metrics_at ops t.analyzer lane ≡ metrics_at ops s.analyzer lane))
      ⊎ ((f : ℕ) × (dets : List (Detection F)) × (get_or s.buffer lane none ≡ some f)
          × Filtered ops (get_or rois lane (record { points = [] })) (infer f (given lane f s)) dets
          × (metrics_at ops t.analyzer lane
              ≡ build_lane_metrics ops rois (record { lane_id = lane; detections = dets })))

  -- One round: the frames are kept, the lane's slot is empty, its metrics are those of the frame
  -- that was there, and the other lanes are left alone.
  pub record IsInferred (lane : ℕ) (s t : Pipe F) : Type 0 where
    pub frames : (f : ℕ) → piped f t ≡ piped f s
    pub whole : IsWhole t
    pub emptied : get_or t.buffer lane none ≡ none
    pub measured : Measured lane s t
    pub others :
        (j : ℕ)
        → lane ≢ j
        → (get_or t.buffer j none ≡ get_or s.buffer j none)
          × (metrics_at ops t.analyzer j ≡ metrics_at ops s.analyzer j)
    pub apart : IsApart (lane + 1) t
    pub unchanged :
        (j f : ℕ)
        → lane < j
        → get_or s.buffer j none ≡ some f
        → frame_of t.pool f ≡ frame_of s.pool f
    pub counter : t.analyzer.frame_counter ≡ s.analyzer.frame_counter

  pub infer_lane-IsInferred :
      (lane : ℕ) (s : Pipe F)
      → lane < num_lanes
      → IsWhole s
      → IsApart lane s
      → IsInferred lane s (infer_lane ops infer rois clock lane s)
  unfolding infer_lane
  infer_lane-IsInferred lane s l w d =
      option-elim (IsInferred lane s) (take lane s.buffer).0
        (λ e. record {
          frames = λ f. omega (arith, ap (in_slot f) e, count-take f lane s.buffer w.buffer);
          whole = record { buffer = length-take lane s.buffer ∙ w.buffer; analyzer = w.analyzer };
          emptied = slot.1;
          measured = inl (sym slot.0 ∙ e, refl);
          others = λ j n. (take-others lane j s.buffer n, refl);
          apart = record {
            known = λ j f k e. d.known j f (omega arith) (sym (there j k) ∙ e);
            alone = λ i j f k m n e g.
                d.alone i j f (omega arith) (omega arith) n (sym (there i k) ∙ e)
                  (sym (there j m) ∙ g);
            unshown = λ i j f k m e g.
                d.unshown i j f (omega arith) (omega arith) (sym (there j m) ∙ e) g;
          };
          unchanged = λ j f k e. refl;
          counter = refl;
        })
        (λ g e.
          let a = accepted g in
          record {
            frames = λ f.
                omega (arith, ap (in_slot f) e, a.frames f, count-take f lane s.buffer w.buffer);
            whole = record { buffer = length-take lane s.buffer ∙ w.buffer; analyzer = a.shaped };
            emptied = slot.1;
            measured = inr (
              g,
              _,
              sym slot.0 ∙ e,
              subst
                  (λ x.
                    Filtered ops (get_or rois lane (record { points = [] })) (infer g x)
                      (result_of ops infer rois clock lane g (begun g)).detections)
                  (stamped g (d.known lane g (omega arith) (sym slot.0 ∙ e)))
                  (roi_filter-Filtered ops _ _),
              a.lane l,
            );
            others = λ j n. (take-others lane j s.buffer n, a.others j n);
            apart = record {
              known = λ j f k x.
                  let h = d.known j f (omega arith) (sym (there j k) ∙ x) in
                  omega (arith, h, size g);
              alone = λ i j f k m n x y.
                  d.alone i j f (omega arith) (omega arith) n (sym (there i k) ∙ x)
                    (sym (there j m) ∙ y);
              unshown = λ i j f k m x y.
                  d.unshown i j f (omega arith) (omega arith) (sym (there j m) ∙ x)
                    (sym (a.renders i (λ z. omega arith)) ∙ y);
            };
            unchanged = λ j f k x.
                a.untouched f (apart_from g e j f k x)
                  (d.unshown lane j f (omega arith) (omega arith) x)
                ∙ get_or-set_ne (begun g).pool g f _ _ (apart_from g e j f k x)
                ∙ get_or-set_ne s.pool.pool g f _ _ (apart_from g e j f k x);
            counter = a.counter;
          })
    where
      slot :
          ((take lane s.buffer).0 ≡ get_or s.buffer lane none)
          × (get_or (take lane s.buffer).1 lane none ≡ none)
      slot = take-IsSlot lane s.buffer l w.buffer

      -- The lanes behind this one keep their slots.
      there : (j : ℕ) → lane + 1 ≤ j → get_or (take lane s.buffer).1 j none ≡ get_or s.buffer j none
      there j k = take-others lane j s.buffer (λ z. omega arith)

      apart_from :
          (g : ℕ)
          → (take lane s.buffer).0 ≡ some g
          → (j f : ℕ) → lane < j
          → get_or s.buffer j none ≡ some f
          → g ≢ f
      apart_from g e j f k x z =
          d.alone lane j f (omega arith) (omega arith) (λ y. omega arith)
            (sym slot.0 ∙ e ∙ ap some z) x

      begun : ℕ → FramePool
      begun g = stamp_stage ops infer rois clock lane inference_begin g s.pool

      ended : ℕ → FramePool
      ended g = stamp_stage ops infer rois clock lane inference_end g (begun g)

      accepted :
          (g : ℕ)
          → IsAccepted ops rois g
              (result_of ops infer rois clock lane g (begun g))
              (ended g, s.analyzer)
              (accept ops rois
                (clock lane)
                g
                (result_of ops infer rois clock lane g (begun g))
                (ended g, s.analyzer))
      accepted g = accept-IsAccepted ops rois (clock lane) g _ (ended g, s.analyzer) w.analyzer

      stamped : (g : ℕ) → g < length s.pool.pool → frame_of (begun g) g ≡ given lane g s
      stamped g h = get_or-set_self s.pool.pool g _ _ h

      size :
          (g : ℕ)
          → length
              (accept ops rois
                (clock lane)
                g
                (result_of ops infer rois clock lane g (begun g))
                (ended g, s.analyzer)).0.pool
            ≡ length s.pool.pool
      size g = (accepted g).size ∙ length-set (begun g).pool g _ ∙ length-set s.pool.pool g _
