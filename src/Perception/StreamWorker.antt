-- ===== src/Perception/StreamWorker.antt =====
-- traffic_perception/src/ingestion/stream_worker.cpp: the thread that captures the frames of one
-- lane. The decoder is a parameter: what its calls return stands in the environment of a round.
pub mod Rounds
use adaptive_traffic_light.Prelude.{
  ℕ, zero, suc, ◌+◌, ◌*◌, ◌/◌, ◌≤◌, Bool, true, false, not, ◌||◌, ◌&&◌, ◌==◌, if◌then◌else◌, ltb,
  leb, Option, none, some, List, [], ◌∷◌, ◌++◌,
}
use adaptive_traffic_light.Perception.Frames.{
  Frame, FramePool, Slots, acquire, release, exchange, frame_of, set_frame, add, capture, num_lanes,
}

pub data InputSourceType : Type 0 where
  local_file rtsp_stream camera unknown_source : InputSourceType

-- A character by its code.
abbrev pub is_digit : ℕ → Bool
is_digit c = leb 48 c && leb c 57

abbrev pub starts_with : List ℕ → List ℕ → Bool
starts_with [] source = true
starts_with (p ∷ prefix) [] = false
starts_with (p ∷ prefix) (c ∷ source) = p == c && starts_with prefix source

abbrev pub all_digits : List ℕ → Bool
all_digits [] = true
all_digits (c ∷ source) = is_digit c && all_digits source

-- "rtsp://" and "rtsps://"
abbrev pub rtsp_prefix : List ℕ
rtsp_prefix = 114 ∷ 116 ∷ 115 ∷ 112 ∷ 58 ∷ 47 ∷ 47 ∷ []

abbrev pub rtsps_prefix : List ℕ
rtsps_prefix = 114 ∷ 116 ∷ 115 ∷ 112 ∷ 115 ∷ 58 ∷ 47 ∷ 47 ∷ []

-- `source.rfind(prefix, 0) == 0`: only position 0 is tried.
abbrev pub detect_source_type : List ℕ → InputSourceType
detect_source_type source =
    if starts_with rtsp_prefix source || starts_with rtsps_prefix source
    then rtsp_stream
    else if all_digits source
    then camera
    else local_file

abbrev pub is_local_file : InputSourceType → Bool
is_local_file local_file = true
is_local_file _ = false

-- The worker's part of the shared state, and its own `localFrameCounter`, which does not overflow
-- here.
pub record Capture : Type 0 where
  pub pool : FramePool
  pub buffer : Slots
  pub frame_counter : ℕ

-- What grab() and retrieve() return, and the time when the frame is stamped.
pub record CaptureEnv : Type 0 where
  pub grabbed : Bool
  pub retrieved : Bool
  pub stamped_ns : ℕ

-- The ways out of a round of the loop: `continue`, its end, `break`.
pub data Round : Type 0 where
  no_frame rewound lost not_decoded published : Round

abbrev pub goes_on : Round → Bool
goes_on lost = false
goes_on _ = true

-- The frame's new id and timeline.
abbrev pub stamp : ℕ → ℕ → Frame → Frame
stamp id now frame = record frame {
  frame_id = id;
  timeline = add capture now (record { frame_id = id; entries = [] });
}

-- The end of a round, with the decoded frame in hand.
unfoldable pub publish_frame : ℕ → ℕ → ℕ → Capture → Capture
publish_frame lane now frame c =
    let id = c.frame_counter + 1 in
    let p = set_frame c.pool frame (stamp id now (frame_of c.pool frame)) in
    let (old, b) = exchange lane (some frame) c.buffer in
    record { pool = release old p; buffer = b; frame_counter = id }

unfoldable pub capture_round : List ℕ → ℕ → CaptureEnv → Capture → Round × Capture
capture_round source lane env c =
    let (frame, p) = acquire c.pool in
    elim frame [
      | none ↦ (no_frame, record c { pool = p })
      | some f ↦
          if not env.grabbed
          then if is_local_file (detect_source_type source)
            then (rewound, record c { pool = release (some f) p })
            else (lost, record c { pool = release (some f) p })
          else if not env.retrieved
          then (not_decoded, record c { pool = release (some f) p })
          else (published, publish_frame lane env.stamped_ns f (record c { pool = p }))
    ]

-- The loop, as long as `running_` is seen true: one environment for each round.
unfoldable pub capture_loop : List ℕ → ℕ → List CaptureEnv → Capture → Capture
capture_loop source lane [] c = c
capture_loop source lane (env ∷ envs) c =
    let (r, d) = capture_round source lane env c in
    let rest = capture_loop source lane envs d in if goes_on r then rest else d

-- The first release that is not over yet: `while (nextReleaseNs + periodNs <= nowNs)`.
unfoldable pub catch_up : ℕ → ℕ → ℕ → ℕ → Option ℕ
catch_up zero release_ns period_ns now_ns = none
catch_up (suc fuel) release_ns period_ns now_ns =
    let rest = catch_up fuel (release_ns + period_ns) period_ns now_ns in
    if leb (release_ns + period_ns) now_ns then rest else some release_ns

-- The first release of a lane: the lanes share the period evenly.
abbrev pub lane_phase : ℕ → ℕ → ℕ
lane_phase period lane = period * lane / num_lanes

-- What the start of the thread meets: the bootstrap thread, the source, and grab() and retrieve() of
-- each warm-up frame.
pub record WarmUp : Type 0 where
  pub created : Bool
  pub joined : Bool
  pub opened : Bool
  pub decoded : List (Bool × Bool)

abbrev pub warmup_frames : ℕ
warmup_frames = 3

-- Three frames; none are missing here, since the loop asks for each.
abbrev pub all_decoded : ℕ → List (Bool × Bool) → Bool
all_decoded zero decoded = true
all_decoded (suc n) [] = false
all_decoded (suc n) ((grabbed, retrieved) ∷ decoded) =
    if not grabbed || not retrieved then false else all_decoded n decoded

-- Whether the thread comes to arriveAndWait(); if not, it cancels the gate.
abbrev pub is_ready : WarmUp → Bool
is_ready w =
    if not w.created
    then false
    else if not w.joined
    then false
    else if not w.opened
    then false
    else all_decoded warmup_frames w.decoded
