-- ===== src/Controller/Application.antt =====
-- traffic_signal_controller/src/signal_control_app.cpp: the start of the controller's threads, its
-- lifecycle loop and its shutdown. A worker is alive from pthread_create() to pthread_join(), which
-- is what the three `created` flags say. What the system, the health reporter and the workers
-- return is an argument; files, logs and the analytics report are left out.
pub mod Startup
pub mod Running
mod Tests
use adaptive_traffic_light.Prelude.{
  ℕ, ◌+◌, ◌*◌, Bool, true, false, not, ◌||◌, ◌&&◌, if◌then◌else◌, ltb, leb, List, [], ◌∷◌, u64,
}
use adaptive_traffic_light.Controller.SyncChannel.{SyncChannel, request_shutdown}
use adaptive_traffic_light.Controller.Output.{
  OutputSimulator, start, start_and_throw, request_stop, stop,
}

pub data ExitCode : Type 0 where
  exit_success exit_failure : ExitCode

abbrev pub is_exit_success : ExitCode → Bool
is_exit_success exit_success = true
is_exit_success exit_failure = false

pub record SignalControlApplication : Type 0 where
  pub plan_sync_channel : SyncChannel
  pub output_simulator : OutputSimulator
  pub health_running : Bool
  pub fsm_worker_created : Bool
  pub plan_receiver_worker_created : Bool
  pub output_worker_created : Bool
  pub fsm_running : Bool
  pub fsm_failed : Bool
  pub plan_receiver_running : Bool
  pub plan_receiver_failed : Bool
  pub cycle_count : ℕ
  pub initialized : Bool

abbrev pub default_plan_receiver_priority : ℕ
default_plan_receiver_priority = 70

abbrev pub default_fsm_priority : ℕ
default_fsm_priority = 80

-- GetPriorityFromEnvOrDefault(): the value of the environment, or the default when it is not one of
-- the system's priorities, which are not negative.
abbrev pub priority_or_default : ℕ → ℕ → ℕ → ℕ → ℕ
priority_or_default minimum maximum default parsed =
    if ltb parsed minimum || ltb maximum parsed then default else parsed

-- The priority that StartFsmWorker() uses for the configured one.
abbrev pub fsm_priority : ℕ → ℕ
fsm_priority configured =
    if leb configured default_plan_receiver_priority then default_fsm_priority else configured

-- pthread_attr_init(), ConfigureRealtimeThreadAttributes() and pthread_create().
pub record Spawn : Type 0 where
  pub attributes_ready : Bool
  pub configured : Bool
  pub created : Bool

abbrev pub spawns : Spawn → Bool
spawns e = if not e.attributes_ready then false else if not e.configured then false else e.created

abbrev pub start_output_worker : Spawn → SignalControlApplication → Bool × SignalControlApplication
start_output_worker e a =
    if not (spawns e) then (false, a) else (true, record a { output_worker_created = true })

abbrev pub start_plan_receiver_worker :
    Spawn → SignalControlApplication → Bool × SignalControlApplication
start_plan_receiver_worker e a =
    if not (spawns e) then (false, a) else (true, record a { plan_receiver_worker_created = true })

abbrev pub start_fsm_worker : Spawn → SignalControlApplication → Bool × SignalControlApplication
start_fsm_worker e a =
    if not (spawns e) then (false, a) else (true, record a { fsm_worker_created = true })

-- The join takes effect whether or not it is reported to have failed.
unfoldable pub stop_plan_receiver_worker : SignalControlApplication → SignalControlApplication
stop_plan_receiver_worker a =
    let b = record a { plan_receiver_running = false } in
    if not b.plan_receiver_worker_created
    then b
    else record b { plan_receiver_worker_created = false }

unfoldable pub stop_fsm_worker : SignalControlApplication → SignalControlApplication
stop_fsm_worker a =
    let b = record a {
      fsm_running = false;
      plan_sync_channel = request_shutdown a.plan_sync_channel;
    } in
    if not b.fsm_worker_created then b else record b { fsm_worker_created = false }

unfoldable pub stop_output_worker : SignalControlApplication → SignalControlApplication
stop_output_worker a =
    let b = record a { output_simulator = request_stop a.output_simulator } in
    let c = if b.output_worker_created then record b { output_worker_created = false } else b in
    record c { output_simulator = stop c.output_simulator }

abbrev pub health_down : SignalControlApplication → SignalControlApplication
health_down a = record a { health_running = false }

-- `signal_queue_opens` is what start() of the output simulator gets, `output_throws` that an
-- exception leaves it, which only the opening of the queue and what follows can throw.
pub record StartEnv : Type 0 where
  pub pinned : Bool
  pub health_initialized : Bool
  pub output_throws : Bool
  pub signal_queue_opens : Bool
  pub output_spawn : Spawn
  pub plan_receiver_spawn : Spawn
  pub fsm_spawn : Spawn

abbrev pub stop_flags : SignalControlApplication → SignalControlApplication
stop_flags a = record a { fsm_running = false; plan_receiver_running = false }

-- Initialize() behind the start of the health reporter, up to the output simulator.
abbrev pub fresh_state : SignalControlApplication → SignalControlApplication
fresh_state a = record a {
  health_running = true;
  cycle_count = 0;
  fsm_failed = false;
  plan_receiver_failed = false;
  fsm_running = true;
  plan_receiver_running = true;
}

-- Its three last starts, each with the roll-back of those before.
unfoldable pub start_workers :
    StartEnv → SignalControlApplication → ExitCode × SignalControlApplication
start_workers env a =
    let (output_ok, b) = start_output_worker env.output_spawn a in
    if not output_ok
    then (
      exit_failure,
      health_down (let c = stop_flags b in record c { output_simulator = stop c.output_simulator }),
    )
    else (let (receiver_ok, c) = start_plan_receiver_worker env.plan_receiver_spawn b in
        if not receiver_ok
        then (exit_failure, health_down (stop_output_worker (stop_flags c)))
        else (let (fsm_ok, d) = start_fsm_worker env.fsm_spawn c in
            if not fsm_ok
            then (
              exit_failure,
              health_down (
                  stop_output_worker (
                    let e = stop_plan_receiver_worker (record d { fsm_running = false }) in
                    record e { plan_sync_channel = request_shutdown e.plan_sync_channel })),
            )
            else (exit_success, record d { initialized = true })))

unfoldable pub initialize :
    StartEnv → SignalControlApplication → ExitCode × SignalControlApplication
initialize env a =
    if not env.pinned
    then (exit_failure, a)
    else if not env.health_initialized
    then (exit_failure, a)
    else if env.output_throws && not a.output_simulator.running
    then (
      exit_failure,
      health_down (
          stop_flags (
            let b = fresh_state a in
            record b { output_simulator = start_and_throw b.output_simulator })),
    )
    else (let b = fresh_state a in
        start_workers env
          record b { output_simulator = start env.signal_queue_opens b.output_simulator })

-- One round of the loop of run(): what it sees, in this order.
pub record Cycle : Type 0 where
  pub stop_requested : Bool
  pub stopped_in_wait : Bool
  pub health_started : Bool
  pub fsm_failed : Bool
  pub plan_receiver_failed : Bool
  pub checked_ns : ℕ

abbrev pub control_period_ns : ℕ
control_period_ns = 1000000000

-- How the loop goes on: where the next release is, or with which code it ends.
pub data Round : Type 0 where
  goes_on : ℕ → Round
  ends : ExitCode → Round

abbrev pub next_release_of : ℕ → ℕ → ℕ
next_release_of release checked =
    let next = release + control_period_ns in
    if leb next checked then checked + control_period_ns else next

unfoldable pub round : Cycle → ℕ → SignalControlApplication → Round × SignalControlApplication
round c release a =
    if c.stop_requested || c.stopped_in_wait
    then (ends exit_success, a)
    else if not c.health_started
    then (ends exit_failure, a)
    else if c.fsm_failed || c.plan_receiver_failed
    then (ends exit_failure, a)
    else (
      goes_on (next_release_of release c.checked_ns),
      record a { cycle_count = u64 (a.cycle_count + 1) },
    )

-- After the loop.
unfoldable pub shut_down : SignalControlApplication → SignalControlApplication
shut_down a =
    record (health_down (stop_output_worker (stop_fsm_worker (stop_plan_receiver_worker a)))) {
      initialized = false;
    }

-- The loop on the rounds that there are; without a further round a stop is requested.
unfoldable pub run_loop :
    List Cycle → ℕ → SignalControlApplication → ExitCode × SignalControlApplication
run_loop [] release a = (exit_success, shut_down a)
run_loop (c ∷ cs) release a =
    let (r, b) = round c release a in
    elim r [ goes_on next ↦ run_loop cs next b | ends code ↦ (code, shut_down b) ]

unfoldable pub run : List Cycle → ℕ → SignalControlApplication → ExitCode × SignalControlApplication
run cs now_ns a =
    if not a.initialized then (exit_failure, a) else run_loop cs (now_ns + control_period_ns) a

-- The destructor.
unfoldable pub destroy : SignalControlApplication → SignalControlApplication
destroy a = stop_output_worker (stop_fsm_worker (stop_plan_receiver_worker a))
