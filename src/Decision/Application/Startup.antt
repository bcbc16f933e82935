-- ===== src/Decision/Application/Startup.antt =====
-- Initialize(): everything is started, or nothing is left open.
use adaptive_traffic_light.Prelude.{◌≡◌, inl, Bool, true, false, arith}
use adaptive_traffic_light.Decision.PeriodicService
use adaptive_traffic_light.Decision.PeriodicService.Startup
use adaptive_traffic_light.Decision.Application.{
  TimingDecisionApplication, ExitCode, exit_success, exit_failure, InitEnv, initialize, stop_parts,
}

module _ {F : Type 0} where
  pub record IsUp (a : TimingDecisionApplication F) : Type 0 where
    pub service : Startup.IsOpened a.service
    pub report : a.report_open ≡ true
    pub locked : a.memory_locked ≡ true
    pub ready : a.initialized ≡ true

  pub record IsDown (a : TimingDecisionApplication F) : Type 0 where
    pub service : Startup.IsClosed a.service
    pub report : a.report_open ≡ false
    pub not_ready : a.initialized ≡ false

  abbrev pub Started : ExitCode × TimingDecisionApplication F → Type 0
  Started (exit_success, a) = IsUp a × (a.cycle_count ≡ 0) × (a.deadline_miss_count ≡ 0)
  Started (exit_failure, a) = IsDown a

  -- What a start of the service leaves, and what its shutdown makes of it.
  opened_of :
      (r : PeriodicService.PeriodicService F × Bool)
      → Startup.Outcome r
      → (r.1 ≡ true → Startup.IsOpened r.0 × Startup.IsClosed (PeriodicService.shutdown r.0))
        × (r.1 ≡ false → Startup.IsClosed r.0)
  opened_of (p, true) o = (λ _. (o, Startup.shutdown-IsClosed p (inl o)), λ e. absurd (cc))
  opened_of (p, false) o = (λ e. absurd (cc), λ _. o)

  -- Initialize() of an application that is down: with EXIT_SUCCESS the service and all its parts are
  -- open, the report has its recorders, the memory is locked and both counters are 0; with
  -- EXIT_FAILURE, whichever step failed, the service and its parts and the report are closed.
  pub initialize-Started :
      (env : InitEnv) (a : TimingDecisionApplication F) → IsDown a → Started (initialize env a)
  unfolding initialize stop_parts
  initialize-Started env a d =
      let (s, ok) = PeriodicService.initialize env.service_env a.service in
      ground (
        arith,
        opened_of (s, ok) (Startup.initialize-Outcome env.service_env a.service d.service),
        d.service,
        d.report,
        d.not_ready,
      )
