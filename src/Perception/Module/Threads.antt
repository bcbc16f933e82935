-- ===== src/Perception/Module/Threads.antt =====
-- Starting and stopping the threads: all of them are alive, or none is.
use adaptive_traffic_light.Prelude.{◌≡◌, ◌⊎◌, Bool, true, false, replicate, arith}
use adaptive_traffic_light.Perception.Frames.{num_lanes}
use adaptive_traffic_light.Perception.Module.{PerceptionModule, stop_threads}

pub record IsRunning (m : PerceptionModule) : Type 0 where
  pub streams : m.stream_threads ≡ replicate num_lanes true
  pub pipeline : m.pipeline_thread ≡ true
  pub started : m.started ≡ true

pub record IsIdle (m : PerceptionModule) : Type 0 where
  pub streams : m.stream_threads ≡ replicate num_lanes false
  pub pipeline : m.pipeline_thread ≡ false
  pub not_started : m.started ≡ false

-- What startThreads() leaves.
abbrev pub HasStarted : PerceptionModule → Bool × PerceptionModule → Type 0
HasStarted before (true, m) = IsRunning m × (m.gate_cancelled ≡ before.gate_cancelled)
HasStarted before (false, m) = IsIdle m × (m.gate_cancelled ≡ true) × (m.workers_stopped ≡ true)

-- stopThreads() leaves no thread alive, and closes the sender when threads were running.
pub stop_threads-IsIdle :
    (m : PerceptionModule)
    → IsRunning m ⊎ IsIdle m
    → IsIdle (stop_threads m) × (m.started ≡ true → (stop_threads m).snapshot_sender_open ≡ false)
unfolding stop_threads
stop_threads-IsIdle m h = ground (arith, h)
