-- ===== src/Perception/Module.antt =====
-- traffic_perception/src/perception_module.cpp: the start and the stop of the perception threads. A
-- thread is alive from pthread_create() to pthread_join().
pub mod Threads
use adaptive_traffic_light.Prelude.{
  ℕ, zero, suc, ◌+◌, ◌==◌, Bool, true, false, not, if◌then◌else◌, List, [], ◌∷◌, set, replicate,
}
use adaptive_traffic_light.Perception.Frames.{num_lanes}

-- `workers_stopped`: stop() has been called for every worker. `pipeline_stopped`: for the pipeline
-- manager. `gate_cancelled`: cancel() of the start-up gate.
pub record PerceptionModule : Type 0 where
  pub stream_threads : List Bool
  pub pipeline_thread : Bool
  pub workers_stopped : Bool
  pub pipeline_stopped : Bool
  pub gate_cancelled : Bool
  pub started : Bool
  pub snapshot_sender_open : Bool

-- pthread_create() with the real-time attributes, and again with the usual ones after EPERM.
pub data Creation : Type 0 where
  created : Creation
  denied : Bool → Creation
  refused : Creation

-- Whether the thread is there in the end.
abbrev pub creates : Creation → Bool
creates created = true
creates (denied again) = again
creates refused = false

abbrev pub give_up : PerceptionModule → PerceptionModule
give_up m = record m { gate_cancelled = true; workers_stopped = true }

-- The joins of the first threads of the lanes.
abbrev pub join_streams : ℕ → PerceptionModule → PerceptionModule
join_streams zero m = m
join_streams (suc n) m = join_streams n (record m { stream_threads = set m.stream_threads n false })

-- The first loop, with n lanes left.
unfoldable pub create_streams : (ℕ → Creation) → ℕ → ℕ → PerceptionModule → Bool × PerceptionModule
create_streams streams zero i m = (true, m)
create_streams streams (suc n) i m =
    if not (creates (streams i))
    then (false, join_streams i (give_up m))
    else create_streams streams n (i + 1)
        (record m { stream_threads = set m.stream_threads i true })

-- What comes behind it. `released` is the result of releaseWhenReady().
unfoldable pub start_pipeline : Creation → Bool → PerceptionModule → Bool × PerceptionModule
start_pipeline pipeline released m =
    if not (creates pipeline)
    then (false, join_streams num_lanes (give_up m))
    else if not released
    then (
      false,
      record (join_streams num_lanes (give_up m)) {
        pipeline_stopped = true;
        pipeline_thread = false;
      },
    )
    else (true, record m { pipeline_thread = true; started = true })

unfoldable pub start_threads :
    (ℕ → Creation) → Creation → Bool → PerceptionModule → Bool × PerceptionModule
start_threads streams pipeline released m =
    if m.started
    then (true, m)
    else (let (there, n) = create_streams streams num_lanes 0 m in
        if not there then (false, n) else start_pipeline pipeline released n)

unfoldable pub stop_threads : PerceptionModule → PerceptionModule
stop_threads m = if not m.started then m else record (join_streams num_lanes m) {
  workers_stopped = true;
  pipeline_stopped = true;
  pipeline_thread = false;
  started = false;
  snapshot_sender_open = false;
}
