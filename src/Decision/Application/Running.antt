-- ===== src/Decision/Application/Running.antt =====
-- Run(): the loop ends with everything closed, and the exit code says why it ended.
use adaptive_traffic_light.Prelude.{
  ◌+◌, u64, subst, sym, ◌≡◌, ◌≢◌, ◌↔◌, refl, Bool, true, false, not, ◌⊎◌, inl, inr, if-elim, Option,
  none, some, List, [], ◌∷◌, Timespec, arith,
}
use adaptive_traffic_light.Decision.Float.{FloatOps}
use adaptive_traffic_light.Decision.Clock.{
  WaitEnd, released, canceled, wait_failed, wait_until, add_milliseconds,
}
use adaptive_traffic_light.Decision.PeriodicService
use adaptive_traffic_light.Decision.PeriodicService.{PeriodicService, run_decision_cycle, shutdown}
use adaptive_traffic_light.Decision.PeriodicService.Startup.{IsOpened, shutdown-IsClosed}
use adaptive_traffic_light.Decision.Application.{
  TimingDecisionApplication, ExitCode, exit_success, exit_failure, Round, Next, goes_on, ends,
  sleeps, round, awoken, work, run_loop, run, shut_down, stop_parts, unlock_process_memory,
  count_deadline, period_milliseconds, next_release,
}
use adaptive_traffic_light.Decision.Application.Startup.{IsUp, IsDown}
use adaptive_traffic_light.Decision.PeriodicService.Opened.{run_decision_cycle-IsOpened}

count_deadline-service :
    {F : Type 0} (release : Timespec) (start end : Option Timespec)
    (a : TimingDecisionApplication F)
    → (count_deadline release start end a).service ≡ a.service
unfolding count_deadline
count_deadline-service release start end a = ground arith

module _ (ops : FloatOps) where
  open ops use {F}

  abbrev cycled : Round F → PeriodicService F → PeriodicService.Cycled F
  cycled r s = run_decision_cycle ops r.cycle s

  -- A wait or a cycle fails before any stop.
  abbrev pub HasFailed : List (Round F) → PeriodicService F → Type 0
  HasFailed [] s = ⊥
  HasFailed (r ∷ rs) s =
      (r.stop_requested ≡ false)
      × (r.stop_after_wait ≡ false)
      × ((wait_until r.wait_stopped r.naps ≡ some wait_failed)
          ⊎ ((wait_until r.wait_stopped r.naps ≡ some released)
              × (((cycled r s).successful ≡ false) ⊎ HasFailed rs (cycled r s).service)))

  -- The cycles before it succeed, and then a wait does not return.
  abbrev pub Sleeps : List (Round F) → PeriodicService F → Type 0
  Sleeps [] s = ⊥
  Sleeps (r ∷ rs) s =
      (r.stop_requested ≡ false)
      × ((wait_until r.wait_stopped r.naps ≡ none)
          ⊎ ((r.stop_after_wait ≡ false)
              × (wait_until r.wait_stopped r.naps ≡ some released)
              × ((cycled r s).successful ≡ true)
              × Sleeps rs (cycled r s).service))

  -- What the loop leaves.
  pub record IsEnded (unlocks : Bool) (rs : List (Round F)) (s : PeriodicService F)
      (result : Option ExitCode × TimingDecisionApplication F) : Type 0 where
    pub closed : (result.0 ≡ none) ⊎ IsDown result.1
    pub unlocked : (result.0 ≡ none) ⊎ (unlocks ≡ true → result.1.memory_locked ≡ false)
    pub failed : (result.0 ≡ some exit_failure) ↔ HasFailed rs s
    pub asleep : (result.0 ≡ none) ↔ Sleeps rs s

  shut_down-IsDown :
      (unlocks : Bool) (a : TimingDecisionApplication F)
      → IsOpened a.service
      → IsDown (shut_down unlocks a)
        × (unlocks ≡ true → (shut_down unlocks a).memory_locked ≡ false)
  unfolding stop_parts unlock_process_memory
  shut_down-IsDown unlocks a o = ground (arith, shutdown-IsClosed a.service (inl o))

  at_end :
      (unlocks : Bool) (rs : List (Round F)) (s : PeriodicService F) (code : ExitCode)
      (a : TimingDecisionApplication F)
      → IsOpened a.service
      → (some code ≡ some exit_failure) ↔ HasFailed rs s
      → (Sleeps rs s → ⊥)
      → IsEnded unlocks rs s (some code, shut_down unlocks a)
  at_end unlocks rs s code a o f n = record {
    closed = inr (shut_down-IsDown unlocks a o).0;
    unlocked = inr (shut_down-IsDown unlocks a o).1;
    failed = f;
    asleep = (λ e. absurd (cc), λ z. absurd (n z));
  }

  run_loop-IsEnded :
      (unlocks : Bool) (rs : List (Round F)) (release : Timespec) (a : TimingDecisionApplication F)
      → IsOpened a.service
      → IsEnded unlocks rs a.service (run_loop ops unlocks rs release a)
  unfolding run_loop round awoken work
  run_loop-IsEnded unlocks [] release a o =
      at_end unlocks [] a.service exit_success a o (ground arith) (λ z. z)
  run_loop-IsEnded unlocks (r ∷ rs) release a o =
      if-elim P r.stop_requested (λ t. over exit_success a o (ground arith) (ground arith))
        (λ t.
          woken (λ later b p. run_loop-IsEnded unlocks rs later b p)
            (wait_until r.wait_stopped r.naps) refl t)
    where
      -- The rounds that follow.
      Behind : Type 0
      Behind =
          (later : Timespec) (b : TimingDecisionApplication F)
          → IsOpened b.service
          → IsEnded unlocks rs b.service (run_loop ops unlocks rs later b)

      P : Next × TimingDecisionApplication F → Type 0
      P (n, b) = IsEnded unlocks (r ∷ rs) a.service (elim n [
        | goes_on later ↦ run_loop ops unlocks rs later b
        | ends code ↦ (some code, shut_down unlocks b)
        | sleeps ↦ (none, b)
      ])

      over :
          (code : ExitCode) (b : TimingDecisionApplication F)
          → IsOpened b.service
          → (some code ≡ some exit_failure) ↔ HasFailed (r ∷ rs) a.service
          → (Sleeps (r ∷ rs) a.service → ⊥)
          → P (ends code, b)
      over code b p f n = at_end unlocks (r ∷ rs) a.service code b p f n

      counted : TimingDecisionApplication F
      counted =
          count_deadline release r.execution_start r.execution_end
            (record a { service = (cycled r a.service).service })

      numbered : TimingDecisionApplication F
      numbered = record counted { cycle_count = u64 (counted.cycle_count + 1) }

      following : Timespec
      following = next_release release r.now

      kept : counted.service ≡ (cycled r a.service).service
      kept = count_deadline-service release r.execution_start r.execution_end _

      opened : IsOpened counted.service
      opened = subst IsOpened (sym kept) (run_decision_cycle-IsOpened ops r.cycle a.service o)

      continued :
          {result : Option ExitCode × TimingDecisionApplication F}
          → r.stop_requested ≡ false
          → r.stop_after_wait ≡ false
          → wait_until r.wait_stopped r.naps ≡ some released
          → not (cycled r a.service).successful ≡ false
          → IsEnded unlocks rs (cycled r a.service).service result
          → IsEnded unlocks (r ∷ rs) a.service result
      continued t s e f v = record {
        closed = v.closed;
        unlocked = v.unlocked;
        failed = ground (arith, t, s, e, f, v.failed);
        asleep = ground (arith, t, s, e, f, v.asleep);
      }

      worked :
          Behind
          → r.stop_requested ≡ false
          → r.stop_after_wait ≡ false
          → wait_until r.wait_stopped r.naps ≡ some released
          → P (work ops r release a)
      worked behind t s e =
          if-elim P (not (cycled r a.service).successful)
            (λ f. over exit_failure counted opened (ground arith) (ground arith))
            (λ f. continued t s e f (
              subst (λ v. IsEnded unlocks rs v (run_loop ops unlocks rs following numbered)) kept
                (behind following numbered opened)))

      woken :
          Behind
          → (w : Option WaitEnd) → wait_until r.wait_stopped r.naps ≡ w
          → r.stop_requested ≡ false
          → P (awoken ops w r release a)
      woken behind none e t = record {
        closed = inl refl;
        unlocked = inl refl;
        failed = (λ x. absurd (cc), λ x. absurd (ground (arith, x, e)));
        asleep = (λ _. (t, inl e), λ _. refl);
      }
      woken behind (some canceled) e t = over exit_success a o (ground arith) (ground arith)
      woken behind (some released) e t =
          if-elim P r.stop_after_wait (λ s. over exit_success a o (ground arith) (ground arith))
            (λ s. worked behind t s e)
      woken behind (some wait_failed) e t =
          if-elim P r.stop_after_wait (λ s. over exit_success a o (ground arith) (ground arith))
            (λ s. over exit_failure a o (ground arith) (ground arith))

  -- What Run() leaves.
  abbrev pub Leaves :
      Bool
      → Option Timespec
      → List (Round F)
      → TimingDecisionApplication F
      → Option ExitCode × TimingDecisionApplication F
      → Type 0
  Leaves unlocks now rs a result =
      ((result.0 ≡ none) ⊎ IsDown result.1)
      × ((result.0 ≡ none) ⊎ (unlocks ≡ true → result.1.memory_locked ≡ false))
      × ((result.0 ≡ some exit_failure) ↔ ((now ≡ none) ⊎ HasFailed rs a.service))
      × ((result.0 ≡ none) ↔ ((now ≢ none) × Sleeps rs a.service))

  -- Run() of an application that Initialize() has started. Unless a wait never returns, which is
  -- after cycles that all succeed, it ends with the service, its queues, the health reporter and the
  -- report closed and, if munlockall() succeeds, the memory unlocked; and it returns EXIT_FAILURE
  -- exactly if the first reading of the clock fails, or a wait or a decision cycle fails before any
  -- request to stop.
  pub run-Leaves :
      (unlocks : Bool) (now : Option Timespec) (rs : List (Round F))
      (a : TimingDecisionApplication F)
      → IsUp a
      → Leaves unlocks now rs a (run ops unlocks now rs a)
  unfolding run
  run-Leaves unlocks none rs a up =
      if-elim (Leaves unlocks none rs a) (not a.initialized)
        (λ n. absurd (ground (arith, n, up.ready)))
        (λ _. ground (arith, shut_down-IsDown unlocks a up.service))
  run-Leaves unlocks (some t) rs a up =
      if-elim (Leaves unlocks (some t) rs a) (not a.initialized)
        (λ n. absurd (ground (arith, n, up.ready)))
        (λ _.
          let v =
            run_loop-IsEnded unlocks rs (add_milliseconds t period_milliseconds) a up.service in
          (
            v.closed,
            v.unlocked,
            (λ e. inr (v.failed.0 e), λ x. elim x [ inl n ↦ absurd (cc) | inr f ↦ v.failed.1 f ]),
            (λ e. (λ n. absurd (cc), v.asleep.0 e), λ x. v.asleep.1 x.1),
          ))
