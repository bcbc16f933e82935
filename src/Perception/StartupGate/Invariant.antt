-- ===== src/Perception/StartupGate/Invariant.antt =====
-- The invariant of the gate: who has arrived is counted, and the gate opens at most once.
use native.Mathlib.Decide.{ℕ_discrete}
use adaptive_traffic_light.Prelude.{
  ℕ, zero, suc, ◌+◌, ◌≤◌, ◌<◌, ◌≡◌, ◌≢◌, refl, sym, ◌∙◌, ap, Bool, true, false, not, ◌&&◌,
  if◌then◌else◌, if-elim, ltb, List, [], ◌∷◌, length, get_or, set, length-set, get_or-set_self,
  get_or-set_ne, sum_by, sum_by-set, replicate, arith,
}
use adaptive_traffic_light.Perception.StartupGate.{
  StartupGate, new_gate, Worker, outside, waiting, started, refused, failed, Caller, not_called,
  watching, done_true, done_false, wait_or_leave, cancel, Starting, Event, arrives, wakes,
  wait_fails, cancels, lock_fails, calls, caller_wakes, caller_wait_fails, caller_lock_fails,
  worker_at, with_worker, caller_goes_on, happens, happen_all, before_start,
}

-- The worker has called arriveAndWait(), as a number.
abbrev pub arrived : Worker → ℕ
arrived waiting = 1
arrived (started t) = 1
arrived refused = 1
arrived _ = 0

-- The caller has released the gate.
abbrev pub has_released : Caller → Bool
has_released done_true = true
has_released _ = false

-- A worker that has started did so at the start time of a gate that was released.
abbrev pub IsInStep : StartupGate → Worker → Type 0
IsInStep g (started t) = (g.released ≡ true) × (t ≡ g.start_time)
IsInStep g _ = Unit

pub record IsSound (s : Starting) : Type 0 where
  pub counted : sum_by arrived s.workers ≡ s.gate.ready_count
  pub complete : s.gate.released ≡ true → length s.workers ≤ s.gate.ready_count
  pub once : s.gate.released ≡ has_released s.caller
  pub in_step : (i : ℕ) → IsInStep s.gate (worker_at s i)

same_gate :
    (g h : StartupGate) (w : Worker)
    → g.released ≡ h.released
    → g.start_time ≡ h.start_time
    → IsInStep h w
    → IsInStep g w
same_gate g h (started t) r e (k, l) = (r ∙ k, l ∙ sym e)
same_gate g h outside r e k = k
same_gate g h waiting r e k = k
same_gate g h refused r e k = k
same_gate g h failed r e k = k

-- A worker's move: it counts as before or, with the gate, as one more.
moved :
    (s : Starting) (i : ℕ) (w : Worker) (g : StartupGate)
    → IsSound s
    → i < length s.workers
    → g.released ≡ s.gate.released
    → g.start_time ≡ s.gate.start_time
    → g.ready_count + arrived (worker_at s i) ≡ s.gate.ready_count + arrived w
    → s.gate.ready_count ≤ g.ready_count
    → IsInStep g w
    → IsSound (record (with_worker i w s) { gate = g })
moved s i w g v l r t n m k = record {
  counted = omega (arith, sum_by-set arrived s.workers i w failed l, v.counted, n);
  complete = λ e. omega (arith, length-set s.workers i w, v.complete (sym r ∙ e), m);
  once = r ∙ v.once;
  in_step = λ j. at j (ℕ_discrete i j);
}
  where
    at : (j : ℕ) → Dec (i ≡ j) → IsInStep g (get_or (set s.workers i w) j failed)
    at j (yes e) = rw (← e, get_or-set_self s.workers i w failed l) k
    at j (no n) =
        rw (get_or-set_ne s.workers i j w failed n)
          (same_gate g s.gate (worker_at s j) r t (v.in_step j))

-- An event that asks where the thread is: it changes nothing elsewhere.
if_outside :
    (P : Starting → Type 0) (w : Worker) {a s : Starting}
    → (w ≡ outside → P a)
    → P s
    → P (elim w [ outside ↦ a | _ ↦ s ])
if_outside P outside a s = a refl
if_outside P _ a s = s

if_waiting :
    (P : Starting → Type 0) (w : Worker) {a s : Starting}
    → (w ≡ waiting → P a)
    → P s
    → P (elim w [ waiting ↦ a | _ ↦ s ])
if_waiting P waiting a s = a refl
if_waiting P _ a s = s

if_not_called :
    (P : Starting → Type 0) (c : Caller) {a s : Starting}
    → (c ≡ not_called → P a)
    → P s
    → P (elim c [ not_called ↦ a | _ ↦ s ])
if_not_called P not_called a s = a refl
if_not_called P _ a s = s

if_watching :
    (P : Starting → Type 0) (c : Caller) {a s : Starting}
    → (c ≡ watching → P a)
    → P s
    → P (elim c [ watching ↦ a | _ ↦ s ])
if_watching P watching a s = a refl
if_watching P _ a s = s

in_range :
    (ws : List Worker) (i : ℕ) (w : Worker) → get_or ws i failed ≡ w → w ≢ failed → i < length ws
in_range [] i w e n = absurd (n (sym e))
in_range (x ∷ ws) zero w e n = omega arith
in_range (x ∷ ws) (suc i) w e n = omega (arith, in_range ws i w e n)

leaves-IsInStep : (g : StartupGate) → IsInStep g (wait_or_leave g)
leaves-IsInStep g =
    if-elim (IsInStep g) (not g.released && not g.cancelled) (λ _. tt)
      λ _.
        if-elim (IsInStep g) (g.released && not g.cancelled) (λ t. (ground arith, refl)) (λ _. tt)

arrived-wait_or_leave : (g : StartupGate) → arrived (wait_or_leave g) ≡ 1
arrived-wait_or_leave g = ground arith

-- While the gate is closed nobody has started, so that it may change.
nobody : (g h : StartupGate) (w : Worker) → h.released ≡ false → IsInStep h w → IsInStep g w
nobody g h (started t) r (k, l) = absurd (ground arith)
nobody g h outside r k = k
nobody g h waiting r k = k
nobody g h refused r k = k
nobody g h failed r k = k

caller_goes_on-IsSound :
    (lead now : ℕ) (s : Starting)
    → IsSound s
    → has_released s.caller ≡ false
    → IsSound (caller_goes_on lead now s)
caller_goes_on-IsSound lead now s v h =
    if-elim P (ltb g.ready_count (length s.workers) && not g.cancelled)
      {y = if g.cancelled then (g, done_false) else (released, done_true)}
      (λ _. stays watching refl)
      λ full.
        if-elim P g.cancelled (λ _. stays done_false refl)
          λ go. record {
            counted = v.counted;
            complete = λ _. ground arith;
            once = refl;
            in_step = λ i. nobody released g (worker_at s i) (v.once ∙ h) (v.in_step i);
          }
  where
    g : StartupGate
    g = s.gate

    released : StartupGate
    released = record g { start_time = now + lead; released = true }

    P : StartupGate × Caller → Type 0
    P (k, c) = IsSound (record s { gate = k; caller = c })

    stays : (c : Caller) → has_released c ≡ false → P (g, c)
    stays c e = record {
      counted = v.counted;
      complete = v.complete;
      once = v.once ∙ h ∙ sym e;
      in_step = v.in_step;
    }

abbrev one_more : StartupGate → StartupGate
one_more g = record g { ready_count = g.ready_count + 1 }

happens-IsSound : (lead : ℕ) (e : Event) (s : Starting) → IsSound s → IsSound (happens lead e s)
unfolding happens
happens-IsSound lead (arrives i) s v =
    if_outside IsSound (worker_at s i)
      (λ e.
        moved s i _ _ v (in_range s.workers i outside e (λ d. absurd (ground arith))) refl refl
          (omega (arith, ap arrived e, arrived-wait_or_leave (one_more s.gate))) (omega arith)
          (leaves-IsInStep (one_more s.gate)))
      v
happens-IsSound lead (wakes i) s v =
    if_waiting IsSound (worker_at s i)
      (λ e.
        moved s i _ s.gate v (in_range s.workers i waiting e (λ d. absurd (ground arith))) refl refl
          (omega (arith, ap arrived e, arrived-wait_or_leave s.gate)) (omega arith)
          (leaves-IsInStep s.gate))
      v
happens-IsSound lead (wait_fails i) s v =
    if_waiting IsSound (worker_at s i)
      (λ e.
        moved s i refused (cancel s.gate) v
          (in_range s.workers i waiting e (λ d. absurd (ground arith))) refl refl (rw e refl)
          (omega arith) tt)
      v
happens-IsSound lead (cancels i) s v =
    if_outside IsSound (worker_at s i)
      (λ e.
        moved s i failed (cancel s.gate) v
          (in_range s.workers i outside e (λ d. absurd (ground arith))) refl refl (rw e refl)
          (omega arith) tt)
      v
happens-IsSound lead (lock_fails i) s v =
    if_outside IsSound (worker_at s i)
      (λ e.
        moved s i failed s.gate v (in_range s.workers i outside e (λ d. absurd (ground arith))) refl
          refl (rw e refl) (omega arith) tt)
      v
happens-IsSound lead (calls now) s v =
    if_not_called IsSound s.caller (λ e. caller_goes_on-IsSound lead now s v (ap has_released e)) v
happens-IsSound lead (caller_wakes now) s v =
    if_watching IsSound s.caller (λ e. caller_goes_on-IsSound lead now s v (ap has_released e)) v
happens-IsSound lead caller_wait_fails s v =
    if_watching IsSound s.caller
      (λ e. record {
        counted = v.counted;
        complete = v.complete;
        once = v.once ∙ ap has_released e;
        in_step = λ i. same_gate (cancel s.gate) s.gate (worker_at s i) refl refl (v.in_step i);
      })
      v
happens-IsSound lead caller_lock_fails s v =
    if_not_called IsSound s.caller
      (λ e. record {
        counted = v.counted;
        complete = v.complete;
        once = v.once ∙ ap has_released e;
        in_step = v.in_step;
      })
      v

pub happen_all-IsSound :
    (lead : ℕ) (es : List Event) (s : Starting) → IsSound s → IsSound (happen_all lead es s)
happen_all-IsSound lead [] s v = v
happen_all-IsSound lead (e ∷ es) s v = happen_all-IsSound lead es _ (happens-IsSound lead e s v)

none_arrived : (n : ℕ) → sum_by arrived (replicate n outside) ≡ 0
none_arrived zero = refl
none_arrived (suc n) = omega (arith, none_arrived n)

all_outside : (g : StartupGate) (n i : ℕ) → IsInStep g (get_or (replicate n outside) i failed)
all_outside g zero i = tt
all_outside g (suc n) zero = tt
all_outside g (suc n) (suc i) = all_outside g n i

pub before_start-IsSound : (n : ℕ) → IsSound (before_start n)
before_start-IsSound n = record {
  counted = none_arrived n;
  complete = λ e. absurd (ground arith);
  once = refl;
  in_step = all_outside new_gate n;
}
