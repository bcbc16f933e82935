-- ===== src/Controller/Application/Startup.antt =====
-- Initialize(): it starts everything, or leaves nothing running.
use adaptive_traffic_light.Prelude.{◌≡◌, true, false, arith}
use adaptive_traffic_light.Controller.Output.{start, start_and_throw, stop}
use adaptive_traffic_light.Controller.Application.{
  SignalControlApplication, ExitCode, exit_success, exit_failure, StartEnv,
  stop_plan_receiver_worker, stop_output_worker, start_workers, initialize,
}

-- No worker is alive, and nothing that they use is open.
pub record IsDown (a : SignalControlApplication) : Type 0 where
  pub fsm : a.fsm_worker_created ≡ false
  pub plan_receiver : a.plan_receiver_worker_created ≡ false
  pub output : a.output_worker_created ≡ false
  pub fsm_flag : a.fsm_running ≡ false
  pub plan_receiver_flag : a.plan_receiver_running ≡ false
  pub output_flag : a.output_simulator.running ≡ false
  pub output_closed : a.output_simulator.started ≡ false
  pub health : a.health_running ≡ false
  pub uninitialized : a.initialized ≡ false

-- All three workers are alive, and told to run.
pub record IsUp (a : SignalControlApplication) : Type 0 where
  pub fsm : a.fsm_worker_created ≡ true
  pub plan_receiver : a.plan_receiver_worker_created ≡ true
  pub output : a.output_worker_created ≡ true
  pub fsm_flag : a.fsm_running ≡ true
  pub plan_receiver_flag : a.plan_receiver_running ≡ true
  pub output_flag : a.output_simulator.running ≡ true
  pub output_open : a.output_simulator.started ≡ true
  pub health : a.health_running ≡ true
  pub ready : a.initialized ≡ true

-- No worker is alive or told to run; and the output is closed as well if start() did not throw,
-- or else its flags are left up.
pub record HasFailed (env : StartEnv) (a : SignalControlApplication) : Type 0 where
  pub fsm : a.fsm_worker_created ≡ false
  pub plan_receiver : a.plan_receiver_worker_created ≡ false
  pub output : a.output_worker_created ≡ false
  pub fsm_flag : a.fsm_running ≡ false
  pub plan_receiver_flag : a.plan_receiver_running ≡ false
  pub health : a.health_running ≡ false
  pub uninitialized : a.initialized ≡ false
  pub closed : env.output_throws ≡ false → IsDown a
  pub left_up :
      env.pinned ≡ true
      → env.health_initialized ≡ true
      → env.output_throws ≡ true
      → (a.output_simulator.running ≡ true) × (a.output_simulator.started ≡ true)

abbrev pub Outcome : StartEnv → ExitCode × SignalControlApplication → Type 0
Outcome env (exit_success, a) = IsUp a
Outcome env (exit_failure, a) = HasFailed env a

pub initialize-Outcome :
    (env : StartEnv) (a : SignalControlApplication) → IsDown a → Outcome env (initialize env a)
unfolding initialize start_workers start start_and_throw stop stop_output_worker
    stop_plan_receiver_worker
initialize-Outcome env a d = ground arith
