-- ===== src/Perception/Frames.antt =====
-- Frames and the places that hold them: traffic_perception/src/core/frame_pool.cpp,
-- src/ingestion/atomic_frame_buffer.cpp and the timelines of core/types.h. A `Frame*` is the index
-- of the frame in the pool, `none` is nullptr. The images, their memory locks and the mutex of the
-- pool are not modelled: each of acquire() and release() is one step.
pub mod Places
pub mod Conserved
use adaptive_traffic_light.Prelude.{
  ℕ, zero, suc, ◌+◌, Bool, true, false, not, if◌then◌else◌, ltb, Option, none, some, List, [], ◌∷◌,
  ◌++◌, length, get_or, set, replicate,
}

abbrev pub num_lanes : ℕ
num_lanes = 4

pub data TimelineStage : Type 0 where
  capture inference_begin inference_end analyzer_begin analyzer_end publish : TimelineStage

pub record TimelineEntry : Type 0 where
  pub stage : TimelineStage
  pub timestamp : ℕ

pub record Timeline : Type 0 where
  pub frame_id : ℕ
  pub entries : List TimelineEntry

-- Timeline::add(), at the time `now` of the steady clock.
abbrev pub add : TimelineStage → ℕ → Timeline → Timeline
add stage now t = record t {
  entries = t.entries ++ (record { stage = stage; timestamp = now } ∷ []);
}

pub record Frame : Type 0 where
  pub frame_id : ℕ
  pub timeline : Timeline

abbrev pub new_frame : Frame
new_frame = record { frame_id = 0; timeline = record { frame_id = 0; entries = [] } }

-- `free_list` has its last element first.
pub record FramePool : Type 0 where
  pub pool : List Frame
  pub free_list : List ℕ

abbrev pub empty_pool : FramePool
empty_pool = record { pool = []; free_list = [] }

abbrev pub frame_of : FramePool → ℕ → Frame
frame_of p f = get_or p.pool f new_frame

abbrev pub set_frame : FramePool → ℕ → Frame → FramePool
set_frame p f frame = record p { pool = set p.pool f frame }

-- One round of the loop of init() makes a frame and pushes it on both vectors.
unfoldable pub init : ℕ → FramePool → FramePool
init zero p = p
init (suc pool_size) p =
    init pool_size
      record { pool = p.pool ++ (new_frame ∷ []); free_list = length p.pool ∷ p.free_list }

unfoldable pub acquire : FramePool → Option ℕ × FramePool
acquire p = elim p.free_list [ [] ↦ (none, p) | f ∷ rest ↦ (some f, record p { free_list = rest }) ]

-- The timeline keeps its frame id, as in the code.
abbrev pub cleared : Frame → Frame
cleared frame = record frame { frame_id = 0; timeline = record frame.timeline { entries = [] } }

unfoldable pub release : Option ℕ → FramePool → FramePool
release none p = p
release (some f) p = record {
  pool = set p.pool f (cleared (frame_of p f));
  free_list = f ∷ p.free_list;
}

-- One atomic slot for each lane: of the frame buffer, and of the analyzer's render frames.
abbrev pub Slots : Type 0
Slots = List (Option ℕ)

abbrev pub no_frames : Slots
no_frames = replicate num_lanes none

-- std::atomic::exchange() on one slot.
abbrev pub swap : ℕ → Option ℕ → Slots → Option ℕ × Slots
swap lane frame slots = (get_or slots lane none, set slots lane frame)

unfoldable pub exchange : ℕ → Option ℕ → Slots → Option ℕ × Slots
exchange lane_id frame buffers =
    if not (ltb lane_id num_lanes) then (none, buffers) else swap lane_id frame buffers

unfoldable pub take : ℕ → Slots → Option ℕ × Slots
take lane_id buffers =
    if not (ltb lane_id num_lanes) then (none, buffers) else swap lane_id none buffers

unfoldable pub peek : ℕ → Slots → Option ℕ
peek lane_id buffers = if not (ltb lane_id num_lanes) then none else get_or buffers lane_id none
