-- ===== src/Decision/Application/Deadlines.antt =====
-- The end of a round: whether the deadline was met, and when the next release is.
use adaptive_traffic_light.Prelude.{
  ℕ, suc, ◌+◌, ◌-◌, ◌/◌, ◌^◌, ◌≤◌, ◌<◌, ◌≡◌, ◌↔◌, refl, sym, subst, true, false, not, if-elim, none,
  some, Timespec, IsNormal, instant, arith,
}
use adaptive_traffic_light.Decision.Float.{FloatOps}
use adaptive_traffic_light.Decision.Clock.{add_milliseconds}
use adaptive_traffic_light.Decision.Clock.Releases.{
  IsFirstAfter, advance_past_now-IsFirstAfter, add_milliseconds-instant,
}
use adaptive_traffic_light.Decision.PeriodicService.{run_decision_cycle}
use adaptive_traffic_light.Decision.Application.{
  TimingDecisionApplication, Round, Next, goes_on, ends, exit_failure, period_milliseconds,
  cycle_deadline_miss, count_deadline, next_release, work,
}

cycle_deadline_miss_iff :
    (release end : Timespec)
    → instant end < 2 ^ 64
    → instant release ≤ instant end
    → (cycle_deadline_miss release end ≡ true) ↔ (instant release + 2500000000 < instant end)
cycle_deadline_miss_iff release end h k = (λ e. ground arith, λ e. ground arith)

next_release-IsFirstAfter :
    (release now : Timespec)
    → IsNormal release
    → IsNormal now
    → (n : ℕ) × IsFirstAfter
        (add_milliseconds release period_milliseconds)
        period_milliseconds
        now
        (next_release release (some now))
        n
unfolding next_release
next_release-IsFirstAfter release now h k =
    let following = add_milliseconds release period_milliseconds in
    let (r, n, e, first) =
      advance_past_now-IsFirstAfter (suc ((instant now - instant following) / 1000000)) following
        period_milliseconds now (add_milliseconds-instant release 2500 h (omega arith)).0 k
        (omega arith) (omega arith) (omega arith) in
    (
      n,
      subst (λ o. IsFirstAfter following 2500 now (elim o [ none ↦ following | some (t, m) ↦ t ]) n)
          (sym e) first,
    )

count_deadline_lem :
    {F : Type 0} (release start end : Timespec) (a : TimingDecisionApplication F)
    → instant release ≤ instant end
    → instant end < 2 ^ 64
    → a.deadline_miss_count + 1 < 2 ^ 64
    → let b = count_deadline release (some start) (some end) a in
      (instant release + 2500000000 < instant end
        → b.deadline_miss_count ≡ a.deadline_miss_count + 1)
      × (instant end ≤ instant release + 2500000000 → b.deadline_miss_count ≡ a.deadline_miss_count)
unfolding count_deadline
count_deadline_lem release start end a le lt c =
    ground (arith, cycle_deadline_miss_iff release end lt le)

module _ (ops : FloatOps) where
  open ops use {F}

  -- A round whose three readings of the clock succeed.
  abbrev pub with_clocks : Timespec → Timespec → Timespec → Round F → Round F
  with_clocks start end now r = record r {
    execution_start = some start;
    execution_end = some end;
    now = some now;
  }

  -- What a round does from the wake-up on.
  pub record IsKept (r : Round F) (release end now : Timespec) (a : TimingDecisionApplication F)
      (result : Next × TimingDecisionApplication F) : Type 0 where
    pub late :
        instant release + 2500000000 < instant end
        → result.1.deadline_miss_count ≡ a.deadline_miss_count + 1
    pub in_time :
        instant end ≤ instant release + 2500000000
        → result.1.deadline_miss_count ≡ a.deadline_miss_count
    pub given_up :
        (run_decision_cycle ops r.cycle a.service).successful ≡ false → result.0 ≡ ends exit_failure
    pub scheduled :
        (run_decision_cycle ops r.cycle a.service).successful ≡ true
        → (next : Timespec) × (n : ℕ) × (result.0 ≡ goes_on next)
          × IsFirstAfter
              (add_milliseconds release period_milliseconds)
              period_milliseconds
              now
              next
              n

  -- A round from the wake-up on whose clock readings succeed, with an end that is not before the
  -- release and below 2^64 ns: the count of missed deadlines goes up by one if the cycle ended more
  -- than 2.5 s behind its release, and stays otherwise; if the cycle failed, the loop ends with
  -- EXIT_FAILURE; and if it succeeded, the next release is the first one after the last reading of
  -- the clock on the grid of 2.5 s that starts one period behind the release.
  pub work-IsKept :
      (r : Round F) (release start end now : Timespec) (a : TimingDecisionApplication F)
      → IsNormal release
      → IsNormal now
      → instant release ≤ instant end
      → instant end < 2 ^ 64
      → a.deadline_miss_count + 1 < 2 ^ 64
      → IsKept r release end now a (work ops (with_clocks start end now r) release a)
  unfolding work count_deadline
  work-IsKept r release start end now a h k le lt c =
      let b = record a { service = (run_decision_cycle ops r.cycle a.service).service } in
      let counted = count_deadline_lem release start end b le lt c in
      let (n, first) = next_release-IsFirstAfter release now h k in
      if-elim (IsKept r release end now a)
        (not (run_decision_cycle ops r.cycle a.service).successful)
        (λ f. record {
          late = counted.0;
          in_time = counted.1;
          given_up = λ _. refl;
          scheduled = λ e. absurd (cc (f, e));
        })
        (λ f. record {
          late = counted.0;
          in_time = counted.1;
          given_up = λ e. absurd (cc (f, e));
          scheduled = λ _. (next_release release (some now), n, refl, first);
        })
