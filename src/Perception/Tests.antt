-- ===== src/Perception/Tests.antt =====
-- A platform on which the perception process can be run by hand: tenths for the numbers, a region
-- of 100 by 100 pixels, and a backend that sees an ambulance and a pedestrian.
use adaptive_traffic_light.Prelude.{
  zero, suc, sym, ◌∙◌, ◌≢◌, get_or, ◌+◌, ◌≤◌, ◌-◌, ℕ, ◌+◌, ◌-◌, ◌*◌, ◌/◌, ◌<◌, ◌≡◌, refl, true,
  false, if◌then◌else◌, ltb, leb, none, some, List, [], ◌∷◌, length, ℤ, not_below_zero, set, arith,
}
use adaptive_traffic_light.Ipc.Errno.{no_error}
use adaptive_traffic_light.Ipc.Messages.{TrafficSnapshot}
use adaptive_traffic_light.Ipc.LatestValue.ListChannel.{
  World, q0, list_channel, list_channel-IsPosix,
}
use adaptive_traffic_light.Perception.Frames.{
  Frame, TimelineStage, empty_pool, init, acquire, no_frames, exchange, release, num_lanes,
}
use adaptive_traffic_light.Perception.Frames.Conserved.{
  Act, acquires, publishes, takes, shows, takes_shown, releases, drops,
}
use adaptive_traffic_light.Perception.Module.{PerceptionModule, Creation, created, denied}
use adaptive_traffic_light.Perception.StartupGate.{
  Starting, Event, arrives, wakes, calls, caller_wakes, cancels, started, refused, failed,
  worker_at, happens, happen_all, before_start,
}
use adaptive_traffic_light.Perception.StartupGate.Invariant.{arrived, has_released}
use adaptive_traffic_light.Perception.StartupGate.Together.{started-together}
use adaptive_traffic_light.Perception.StreamWorker.{
  Capture, CaptureEnv, capture_loop, capture_round, publish_frame, detect_source_type, local_file,
  camera, rtsp_stream,
}
use adaptive_traffic_light.Perception.StreamWorker.Rounds.{captured, captured-capture_loop}
use adaptive_traffic_light.Perception.Vision.{Rect, Roi, Detection, InferenceResult, VisionOps}
use adaptive_traffic_light.Perception.Analyzer.{
  new_analyzer, best_cluster, build_lane_metrics, cluster_loop, update_best_cluster,
}
use adaptive_traffic_light.Perception.Analyzer.Bounds.{IsCluster, best_cluster-IsCluster}
use adaptive_traffic_light.Perception.Analyzer.Metrics.{
  IsOrdered, InUnit, build_lane_metrics-InUnit,
}
use adaptive_traffic_light.Perception.InferenceEngine.{Pipe, run_one_cycle}
use adaptive_traffic_light.Perception.InferenceEngine.Lane.{IsWhole, IsApart}
use adaptive_traffic_light.Perception.InferenceEngine.Cycle.{IsCycled, run_one_cycle-IsCycled}
use adaptive_traffic_light.Perception.Pipeline.{
  PipelineManager, CycleClock, SnapshotSender, pipeline_cycle,
}
use adaptive_traffic_light.Perception.Pipeline.Emergency.{
  IsReported, IsOut, pipeline_cycle-IsReported,
}

-- Insertion by the first component.
abbrev insert : ℕ × ℕ → List (ℕ × ℕ) → List (ℕ × ℕ)
insert v [] = v ∷ []
insert v (w ∷ ws) = let rest = insert v ws in if leb v.0 w.0 then v ∷ w ∷ ws else w ∷ rest

abbrev sorted : List (ℕ × ℕ) → List (ℕ × ℕ)
sorted [] = []
sorted (v ∷ vs) = insert v (sorted vs)

abbrev tenths : VisionOps
tenths = record {
  F = ℕ;
  add = ◌+◌;
  sub = ◌-◌;
  mul = λ a b. a * b / 10;
  div = λ a b. a * 10 / b;
  less = ltb;
  of_int = λ z. elim (not_below_zero z) [ ℤ.pos n ↦ n * 10 | ℤ.negsuc n ↦ 0 ];
  of_count = λ n. n * 10;
  decimal = λ m k. m;
  sort = sorted;
  bounding_rect =
      λ points. record { x = ℤ.pos 0; y = ℤ.pos 0; width = ℤ.pos 100; height = ℤ.pos 100 };
  intersection = λ a b. a;
  inside = λ points x y. ltb x 1000;
  roi_pixels = λ contour bounds. 10000;
  occupied_pixels = λ contour bounds boxes. length boxes * 600;
}

abbrev box_at : ℕ → Rect
box_at y = record { x = ℤ.pos 10; y = ℤ.pos y; width = ℤ.pos 30; height = ℤ.pos 20 }

abbrev ambulance : Detection ℕ
ambulance = record {
  box = box_at 40;
  class_id = ℤ.pos 0;
  confidence = 9;
  class_name = [];
  is_vehicle = true;
  is_emergency = true;
}

abbrev car : Detection ℕ
car = record ambulance { box = box_at 65; is_emergency = false }

abbrev pedestrian : Detection ℕ
pedestrian = record ambulance { is_vehicle = false; is_emergency = false }

abbrev whole_picture : Roi
whole_picture = record { points = record { x = ℤ.pos 0; y = ℤ.pos 0 } ∷ [] }

abbrev rois : List Roi
rois = whole_picture ∷ whole_picture ∷ whole_picture ∷ whole_picture ∷ []

abbrev backend : ℕ → Frame → List (Detection ℕ)
backend f frame = ambulance ∷ pedestrian ∷ car ∷ []

abbrev stages : ℕ → TimelineStage → ℕ
stages lane stage = 7

-- Frame 1 waits in the slot of the southern lane; frame 0 is free.
abbrev one_waiting : Pipe ℕ
one_waiting = record {
  pool = record (init 2 empty_pool) { free_list = 0 ∷ [] };
  buffer = set no_frames 1 (some 1);
  analyzer = new_analyzer tenths;
}

abbrev opened_sender : SnapshotSender ℕ
opened_sender = record {
  publisher = record {
    descriptor_open = true;
    semaphore_open = true;
    pending_latest = none;
    last_error = no_error;
  };
  is_open = true;
}

abbrev manager : PipelineManager ℕ
manager = record { pipe = one_waiting; sender = some opened_sender }

abbrev clocks : CycleClock
clocks = record { stages = stages; built_us = 5; sent_us = 6 }

abbrev empty_queue : World (TrafficSnapshot ℕ)
empty_queue = record { queued = q0; free = 1 }

-- A frame goes round: captured, inferred on, shown, and given back; then one is forgotten.
abbrev round_trip : List Act
round_trip =
    acquires 1
    ∷ publishes 1 1
    ∷ takes 4 1
    ∷ shows 4 1
    ∷ takes_shown 5 1
    ∷ releases 5
    ∷ acquires 2
    ∷ drops 2
    ∷ []

-- "a.mp4", "0" and "rtsp://c".
abbrev film : List ℕ
film = 97 ∷ 46 ∷ 109 ∷ 112 ∷ 52 ∷ []

source_types :
    (detect_source_type film ≡ local_file)
    × (detect_source_type (48 ∷ []) ≡ camera)
    × (detect_source_type (114 ∷ 116 ∷ 115 ∷ 112 ∷ 58 ∷ 47 ∷ 47 ∷ 99 ∷ []) ≡ rtsp_stream)
source_types = (refl, refl, refl)

abbrev three_rounds : List CaptureEnv
three_rounds =
    record { grabbed = true; retrieved = true; stamped_ns = 100 }
    ∷ record { grabbed = false; retrieved = true; stamped_ns = 200 }
    ∷ record { grabbed = true; retrieved = true; stamped_ns = 300 }
    ∷ []

abbrev before_capture : Capture
before_capture = record { pool = init 2 empty_pool; buffer = no_frames; frame_counter = 0 }

two_captured :
    let c = capture_loop film 2 three_rounds before_capture in
    (c.frame_counter ≡ 2) × (length c.pool.free_list ≡ 1)
unfolding capture_loop capture_round publish_frame acquire release exchange init
two_captured = (refl, refl)

captured-capture_loop_example :
    captured 1 (capture_loop film 2 three_rounds before_capture) ≡ captured 1 before_capture
captured-capture_loop_example =
    captured-capture_loop 1 film 2 three_rounds before_capture (omega arith) refl

-- Two vehicles close together and one far away.
abbrev vehicles : List (ℕ × ℕ)
vehicles = (100, 200) ∷ (600, 200) ∷ (850, 200) ∷ []

close_pair : (best_cluster tenths vehicles 200).best_start ≡ 1
unfolding best_cluster cluster_loop update_best_cluster
close_pair = refl

best_cluster-IsCluster_example :
    let c = best_cluster tenths vehicles 200 in
    IsCluster tenths vehicles 200 (15 * 200 / 10) c.best_start c.best_end
    × ((start end : ℕ)
        → IsCluster tenths vehicles 200 (15 * 200 / 10) start end
        → end - start ≤ c.best_end - c.best_start)
best_cluster-IsCluster_example = best_cluster-IsCluster tenths vehicles 200 (omega arith)

tenths-IsOrdered : IsOrdered tenths
tenths-IsOrdered = record { zero_zero = refl; one_zero = refl; one_one = refl }

abbrev result : InferenceResult ℕ
result = record { lane_id = 1; detections = ambulance ∷ car ∷ [] }

build_lane_metrics-InUnit_example :
    let m = build_lane_metrics tenths rois result in
    InUnit tenths m.occupancy × InUnit tenths m.queue_length
build_lane_metrics-InUnit_example = build_lane_metrics-InUnit tenths tenths-IsOrdered rois result

one_waiting-IsWhole : IsWhole tenths backend rois stages one_waiting
one_waiting-IsWhole = record { buffer = refl; analyzer = record { metrics = refl; render = refl } }

only_slot : (j f : ℕ) → get_or one_waiting.buffer j none ≡ some f → (j ≡ 1) × (f ≡ 1)
only_slot zero f e = absurd (cc)
only_slot (suc zero) f e = ground (arith, e)
only_slot (suc (suc zero)) f e = absurd (cc)
only_slot (suc (suc (suc zero))) f e = absurd (cc)
only_slot (suc (suc (suc (suc j)))) f e = absurd (cc)

no_slot : (i f : ℕ) → get_or (no_frames) i none ≢ some f
no_slot zero f e = absurd (cc)
no_slot (suc zero) f e = absurd (cc)
no_slot (suc (suc zero)) f e = absurd (cc)
no_slot (suc (suc (suc zero))) f e = absurd (cc)
no_slot (suc (suc (suc (suc i)))) f e = absurd (cc)

one_waiting-IsApart : IsApart tenths backend rois stages 0 one_waiting
unfolding init
one_waiting-IsApart = record {
  known = λ j f k e. omega (arith, (only_slot j f e).1);
  alone = λ i j f k l n e g. n ((only_slot i f e).0 ∙ sym (only_slot j f g).0);
  unshown = λ i j f k l e g. no_slot i f g;
}

run_one_cycle-IsCycled_example :
    IsCycled tenths backend rois stages 0 one_waiting
      (run_one_cycle tenths backend rois stages one_waiting)
run_one_cycle-IsCycled_example =
    run_one_cycle-IsCycled tenths backend rois stages one_waiting one_waiting-IsWhole
      one_waiting-IsApart

pipeline_cycle-IsReported_example :
    (wire : TrafficSnapshot ℕ) × ((lane : ℕ)
      → lane < num_lanes
      → IsReported tenths list_channel backend rois stages manager wire lane)
    × (wire.timestamp_us ≡ 6)
    × (wire.frame_id ≡ 0 + 1)
    × ((pipeline_cycle tenths list_channel backend rois clocks manager
          empty_queue).0.pipe.analyzer.frame_counter
        ≡ wire.frame_id)
    × IsOut tenths list_channel backend rois wire
        (pipeline_cycle tenths list_channel backend rois clocks manager empty_queue)
pipeline_cycle-IsReported_example =
    pipeline_cycle-IsReported tenths list_channel backend rois list_channel-IsPosix clocks manager
      empty_queue opened_sender one_waiting-IsWhole one_waiting-IsApart refl refl

-- Two workers: the first waits, the second comes, and the caller releases them.
abbrev both_start : List Event
both_start = arrives 0 ∷ calls 50 ∷ wakes 0 ∷ arrives 1 ∷ caller_wakes 60 ∷ wakes 1 ∷ wakes 0 ∷ []

abbrev after_start : Starting
after_start = happen_all 100 both_start (before_start 2)

-- The second worker fails, and the first is sent away.
one_fails :
    (happen_all 100
      (arrives 0 ∷ calls 50 ∷ cancels 1 ∷ caller_wakes 60 ∷ wakes 0 ∷ [])
      (before_start 2)).workers
    ≡ refused ∷ failed ∷ []
unfolding happens
one_fails = refl

first_started : worker_at after_start 0 ≡ started 160
unfolding happens
first_started = refl

started-together_example :
    ((j : ℕ) → j < length after_start.workers → arrived (worker_at after_start j) ≡ 1)
    × (has_released after_start.caller ≡ true)
    × ((j u : ℕ) → worker_at after_start j ≡ started u → 160 ≡ u)
started-together_example = started-together 2 100 both_start 0 160 first_started

-- The thread of the third lane is denied its priority and then cannot be created at all.
abbrev third_fails : ℕ → Creation
third_fails (suc (suc zero)) = denied false
third_fails _ = created

abbrev idle_module : PerceptionModule
idle_module = record {
  stream_threads = false ∷ false ∷ false ∷ false ∷ [];
  pipeline_thread = false;
  workers_stopped = false;
  pipeline_stopped = false;
  gate_cancelled = false;
  started = false;
  snapshot_sender_open = true;
}
