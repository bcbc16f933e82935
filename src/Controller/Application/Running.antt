-- ===== src/Controller/Application/Running.antt =====
-- Run(): however the loop ends, everything is stopped behind it, and the exit code says why.
use adaptive_traffic_light.Prelude.{◌≡◌, true, false, not, ◌||◌, ◌⊎◌, ◌↔◌, List, [], ◌∷◌}
use adaptive_traffic_light.Controller.Application.{
  SignalControlApplication, ExitCode, is_exit_success, Cycle,
}
use adaptive_traffic_light.Controller.Application.Startup.{IsDown}

-- The first round that does not go on was ended by the health reporter or by a failed worker, and not
-- by a request to stop.
abbrev pub HasFailed : List Cycle → Type 0
HasFailed [] = ⊥
HasFailed (c ∷ cs) =
    ((c.stop_requested || c.stopped_in_wait) ≡ false)
    × (((not c.health_started || c.fsm_failed || c.plan_receiver_failed) ≡ true) ⊎ HasFailed cs)

-- Everything is down, and the state machine has been told to shut down.
abbrev pub IsStopped : SignalControlApplication → Type 0
IsStopped a = IsDown a × (a.plan_sync_channel.shutdown_requested ≡ true)

-- What the loop leaves.
pub record IsEnded (cs : List Cycle) (r : ExitCode × SignalControlApplication) : Type 0 where
  pub stopped : IsStopped r.1
  pub failed : (is_exit_success r.0 ≡ false) ↔ HasFailed cs
