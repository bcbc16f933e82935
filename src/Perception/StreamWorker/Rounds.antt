-- ===== src/Perception/StreamWorker/Rounds.antt =====
-- What a round of the capture loop does with the frames: it moves them by the atomic operations of
-- Frames.Conserved, and gives back every frame that it does not publish.
use native.Mathlib.Nat.{suc-mul}
use adaptive_traffic_light.Prelude.{
  ℕ, zero, suc, ◌+◌, ◌*◌, ◌≤◌, ◌<◌, ◌≡◌, refl, ap, ◌∙◌, not, ◌⊎◌, inl, inr, if-elim, option-elim,
  leb, leb→le, Option, some, List, [], ◌∷◌, length, arith,
}
use adaptive_traffic_light.Perception.Frames.{
  FramePool, acquire, release, exchange, frame_of, set_frame, num_lanes,
}
use adaptive_traffic_light.Perception.Frames.Places.{
  one, in_slot, count, count_slots, count-acquire, count-release, count-exchange, length-exchange,
}
use adaptive_traffic_light.Perception.StreamWorker.{
  Capture, CaptureEnv, Round, published, goes_on, publish_frame, capture_round, capture_loop,
  catch_up, stamp, is_local_file, detect_source_type,
}

-- In how many places of the worker's side the frame is, between two rounds.
abbrev pub captured : ℕ → Capture → ℕ
captured f c = count f c.pool.free_list + count_slots f c.buffer

captured-publish_frame :
    (f lane now frame : ℕ) (c : Capture)
    → lane < num_lanes
    → length c.buffer ≡ num_lanes
    → captured f (publish_frame lane now frame c) ≡ in_slot f (some frame) + captured f c
unfolding publish_frame
captured-publish_frame f lane now frame c l h = omega (
  arith,
  count-exchange f lane (some frame) c.buffer h l,
  count-release f (exchange lane (some frame) c.buffer).0
      (set_frame c.pool frame (stamp (c.frame_counter + 1) now (frame_of c.pool frame))),
)

length-publish_frame :
    (lane now frame : ℕ) (c : Capture)
    → length (publish_frame lane now frame c).buffer ≡ length c.buffer
unfolding publish_frame
length-publish_frame lane now frame c = length-exchange lane (some frame) c.buffer

-- The frames stay on the worker's side, and the buffer keeps its slots.
abbrev KeepsFrames : ℕ → Capture → Round × Capture → Type 0
KeepsFrames f c r = (captured f r.1 ≡ captured f c) × (length r.1.buffer ≡ length c.buffer)

capture_round-KeepsFrames :
    (f : ℕ) (source : List ℕ) (lane : ℕ) (env : CaptureEnv) (c : Capture)
    → lane < num_lanes
    → length c.buffer ≡ num_lanes
    → KeepsFrames f c (capture_round source lane env c)
unfolding capture_round
capture_round-KeepsFrames f source lane env c l h =
    option-elim (KeepsFrames f c) (acquire c.pool).0 (λ e. ground (arith, count-acquire f c.pool))
      λ g e.
        if-elim (KeepsFrames f c) (not env.grabbed)
          (λ _.
            if-elim (KeepsFrames f c) (is_local_file (detect_source_type source))
              (λ _. given_back g e) (λ _. given_back g e))
          (λ _.
            if-elim (KeepsFrames f c) (not env.retrieved) (λ _. given_back g e)
              (λ _. handed_on g e))
  where
    p : FramePool
    p = (acquire c.pool).1

    taken :
        (g : ℕ)
        → (acquire c.pool).0 ≡ some g
        → one f g + count f p.free_list ≡ count f c.pool.free_list
    taken g e = rw (← ap (in_slot f) e) (count-acquire f c.pool)

    given_back :
        (g : ℕ)
        → (acquire c.pool).0 ≡ some g
        → (captured f (record c { pool = release (some g) p }) ≡ captured f c)
          × (length c.buffer ≡ length c.buffer)
    given_back g e = (omega (arith, taken g e, count-release f (some g) p), refl)

    handed_on :
        (g : ℕ)
        → (acquire c.pool).0 ≡ some g
        → KeepsFrames f c (published, publish_frame lane env.stamped_ns g (record c { pool = p }))
    handed_on g e = (
      omega (
        arith,
        taken g e,
        captured-publish_frame f lane env.stamped_ns g (record c { pool = p }) l h,
      ),
      length-publish_frame lane env.stamped_ns g (record c { pool = p }),
    )

-- A run of the capture loop, whatever the decoder returns: the frames that were free or in the
-- buffer before are free or in the buffer afterwards, and no others.
pub captured-capture_loop :
    (f : ℕ) (source : List ℕ) (lane : ℕ) (envs : List CaptureEnv) (c : Capture)
    → lane < num_lanes
    → length c.buffer ≡ num_lanes
    → captured f (capture_loop source lane envs c) ≡ captured f c
unfolding capture_loop
captured-capture_loop f source lane [] c l h = refl
captured-capture_loop f source lane (env ∷ envs) c l h =
    let (same, shape) = capture_round-KeepsFrames f source lane env c l h in
    let d = (capture_round source lane env c).1 in
    if-elim (λ e. captured f e ≡ captured f c) (goes_on (capture_round source lane env c).0)
      (λ _. captured-capture_loop f source lane envs d l (shape ∙ h) ∙ same) (λ _. same)

-- The release is a whole number of periods after the planned one, and its period is the current
-- one, unless the planned release is still to come.
abbrev pub IsNext : ℕ → ℕ → ℕ → Option ℕ → Type 0
IsNext planned period now o =
    (k : ℕ) × (o ≡ some (planned + k * period))
    × (now < planned + k * period + period)
    × ((k ≡ 0) ⊎ (planned + k * period ≤ now))

later :
    (planned period now : ℕ) (o : Option ℕ)
    → planned + period ≤ now
    → IsNext (planned + period) period now o
    → IsNext planned period now o
later planned period now o t (k, e, before, past) =
    (suc k, e ∙ ap some same, omega (arith, same, before), inr (reached k past))
  where
    reached :
        (k : ℕ) → (k ≡ 0) ⊎ (planned + period + k * period ≤ now) → planned + suc k * period ≤ now
    reached zero past = omega arith
    reached (suc k) (inl z) = absurd (omega arith)
    reached (suc k) (inr p) = omega (arith, suc-mul (suc k) period)

    same : planned + period + k * period ≡ planned + suc k * period
    same = omega (arith, suc-mul k period)

more_fuel : (fuel period : ℕ) → 0 < fuel * period → 0 < fuel
more_fuel zero period h = absurd (omega arith)
more_fuel (suc fuel) period h = omega arith

-- The catch-up loop with enough fuel: it finds the release that is a whole number of periods after
-- the planned one and whose period is not over at `now`; and either that is the planned one, or it
-- is not after `now`.
pub catch_up-IsNext :
    (fuel planned period now : ℕ)
    → 0 < fuel
    → now < planned + fuel * period
    → IsNext planned period now (catch_up fuel planned period now)
unfolding catch_up
catch_up-IsNext zero planned period now h l = absurd (omega arith)
catch_up-IsNext (suc fuel) planned period now h l =
    if-elim (IsNext planned period now) (leb (planned + period) now)
      (λ t.
        let due = leb→le (planned + period) now t in
        later planned period now _ due (
          catch_up-IsNext fuel (planned + period) period now
            (more_fuel fuel period (omega (arith, due, l, suc-mul fuel period)))
            (omega (arith, l, suc-mul fuel period))))
      (λ t. (0, ap some (omega arith), ground arith, inl refl))
