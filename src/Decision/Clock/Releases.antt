-- ===== src/Decision/Clock/Releases.antt =====
-- common.cpp, advancePastNow: the next release after a late wake-up.
use native.Mathlib.Nat.{mod-eq_of_lt}
use adaptive_traffic_light.Prelude.{
  ℕ, zero, suc, ◌+◌, ◌*◌, ◌^◌, ◌≤◌, ◌<◌, ◌≡◌, ◌↔◌, refl, ap, ◌∙◌, true, false, ◌⊎◌, inl, inr, not,
  if-elim, not-eq_true, not-eq_false, Option, some, Timespec, IsNormal, instant, arith, u32,
}
use adaptive_traffic_light.Decision.Clock.{
  is_after, add_milliseconds, advance_past_now, nanoseconds_per_millisecond,
}

is_after_iff :
    (l r : Timespec) → IsNormal l → IsNormal r → (is_after l r ≡ true) ↔ (instant r < instant l)
is_after_iff l r hl hr = (λ h. ground arith, λ h. ground arith)

pub add_milliseconds-instant :
    (t : Timespec) (ms : ℕ)
    → IsNormal t
    → ms < 2 ^ 32
    → IsNormal (add_milliseconds t ms)
      × (instant (add_milliseconds t ms) ≡ instant t + ms * nanoseconds_per_millisecond)
unfolding add_milliseconds
add_milliseconds-instant t ms h k =
    rw (mod-eq_of_lt {n = ms * 1000000} {m = 2 ^ 64} (omega arith)) (ground arith)

-- The release `r` is `n` periods after `release`, the first one past `now` from there.
pub record IsFirstAfter (release : Timespec) (period_ms : ℕ) (now r : Timespec) (n : ℕ)
    : Type 0 where
  pub normal : IsNormal r
  pub on_grid : instant r ≡ instant release + n * (period_ms * nanoseconds_per_millisecond)
  pub past : instant now < instant r
  pub first : (n ≡ 0) ⊎ (instant r ≤ instant now + period_ms * nanoseconds_per_millisecond)

-- What the loop gives when it has skipped `skipped` releases already.
abbrev Finds : ℕ → Timespec → ℕ → Timespec → Option (Timespec × ℕ) → Type 0
Finds skipped release period_ms now o =
    (r : Timespec) × (n : ℕ) × (o ≡ some (r, u32 (skipped + n)))
    × IsFirstAfter release period_ms now r n

stays :
    (skipped : ℕ) (release : Timespec) (period_ms : ℕ) (now : Timespec)
    → IsNormal release
    → IsNormal now
    → skipped < 2 ^ 32
    → is_after release now ≡ true
    → Finds skipped release period_ms now (some (release, skipped))
stays skipped release period_ms now h k s d = (
  release,
  0,
  ap (λ (m : ℕ). some (release, m)) (omega arith),
  record {
    normal = h;
    on_grid = omega arith;
    past = (is_after_iff release now h k).0 d;
    first = inl refl;
  },
)

-- One round more, from the release that follows.
goes_on :
    (skipped : ℕ) (release : Timespec) (period_ms : ℕ) (now : Timespec) (o : Option (Timespec × ℕ))
    → IsNormal release
    → IsNormal now
    → period_ms < 2 ^ 32
    → is_after release now ≡ false
    → Finds (u32 (skipped + 1)) (add_milliseconds release period_ms) period_ms now o
    → Finds skipped release period_ms now o
goes_on skipped release period_ms now o h k q d (r, n, e, v) =
    let a = add_milliseconds-instant release period_ms h q in
    let late = (is_after_iff release now h k).1 in
    (
      r,
      n + 1,
      e ∙ ap (λ (m : ℕ). some (r, m)) (omega arith),
      record {
        normal = v.normal;
        on_grid = grind (arith, v.on_grid, a);
        past = v.past;
        first = inr (elim v.first [ inl z ↦ grind (arith, v.on_grid, a, z, late) | inr y ↦ y ]);
      },
    )

Finds-advance_past_now :
    (fuel skipped : ℕ) (release : Timespec) (period_ms : ℕ) (now : Timespec)
    → IsNormal release
    → IsNormal now
    → 0 < period_ms
    → period_ms < 2 ^ 32
    → skipped < 2 ^ 32
    → instant now < instant release + fuel * nanoseconds_per_millisecond
    → Finds skipped release period_ms now
        (advance_past_now (suc fuel) skipped release period_ms now)
unfolding advance_past_now
Finds-advance_past_now zero skipped release period_ms now h k p q s e =
    if-elim (Finds skipped release period_ms now) (not (is_after release now))
      (λ d. absurd (ground (arith, (is_after_iff release now h k).1 (omega arith))))
      (λ d. stays skipped release period_ms now h k s (not-eq_false _ d))
Finds-advance_past_now (suc fuel) skipped release period_ms now h k p q s e =
    let a = add_milliseconds-instant release period_ms h q in
    if-elim (Finds skipped release period_ms now) (not (is_after release now))
      (λ d. goes_on skipped release period_ms now _ h k q (not-eq_true _ d) (
        Finds-advance_past_now fuel (u32 (skipped + 1)) (add_milliseconds release period_ms)
          period_ms now a.0 k p q (omega arith) (omega (arith, a, e))))
      (λ d. stays skipped release period_ms now h k s (not-eq_false _ d))

-- advancePastNow() ends, and gives the first release of the period's grid that lies after `now`,
-- with the number of periods that it skipped, modulo 2^32: for a period that is not 0 the loop
-- ends within one round more than the release is milliseconds late.
pub advance_past_now-IsFirstAfter :
    (fuel : ℕ) (release : Timespec) (period_ms : ℕ) (now : Timespec)
    → IsNormal release
    → IsNormal now
    → 0 < period_ms
    → period_ms < 2 ^ 32
    → instant now < instant release + fuel * nanoseconds_per_millisecond
    → (r : Timespec) × (n : ℕ) × (advance_past_now (suc fuel) 0 release period_ms now
        ≡ some (r, u32 n))
      × IsFirstAfter release period_ms now r n
advance_past_now-IsFirstAfter fuel release period_ms now h k p q e =
    let (r, n, found, v) =
      Finds-advance_past_now fuel 0 release period_ms now h k p q (omega arith) e in
    (r, n, found ∙ ap (λ (m : ℕ). some (r, m)) (omega arith), v)
