-- ===== src/Perception/Frames/Conserved.antt =====
-- The threads of the perception process share the frames: each atomic operation on the pool, on the
-- frame buffer and on the render slots, by any thread, in any order.
use adaptive_traffic_light.Prelude.{
  ℕ, ◌+◌, ◌<◌, ◌≡◌, Bool, Option, none, some, List, [], ◌∷◌, length, get_or, set, sum_by, replicate,
  if◌then◌else◌,
}
use adaptive_traffic_light.Perception.Frames.{
  FramePool, empty_pool, init, acquire, release, Slots, no_frames, swap, exchange, take, num_lanes,
}
use adaptive_traffic_light.Perception.Frames.Places.{count, count_slots}

-- The stream workers are the threads 0 to 3; then come the pipeline and the viewer.
abbrev pub num_threads : ℕ
num_threads = 6

-- `hands`: the frames in the local variables of each thread. `lost`: those that no variable points to
-- any more, such as a frame of takeRenderFrames() with an empty image, which the viewer forgets.
pub record Sharing : Type 0 where
  pub pool : FramePool
  pub buffer : Slots
  pub render : Slots
  pub hands : List (List ℕ)
  pub lost : List ℕ

abbrev pub hand : ℕ → Sharing → List ℕ
hand i s = get_or s.hands i []

abbrev pub with_hand : ℕ → List ℕ → Sharing → Sharing
with_hand i h s = record s { hands = set s.hands i h }

abbrev pub picked : Option ℕ → List ℕ → List ℕ
picked none h = h
picked (some f) h = f ∷ h

abbrev pub first_of : List ℕ → Option ℕ
first_of [] = none
first_of (f ∷ h) = some f

abbrev pub rest_of : List ℕ → List ℕ
rest_of [] = []
rest_of (f ∷ h) = h

-- Thread and lane: `Pool->acquire()`, `frameBuffer.exchange()`, `buffer_.take()`, the exchange of a
-- render slot in accept() and in takeRenderFrames(), `release()`, and the end of a variable with a
-- frame in it. What a thread gives away is the frame that it picked last.
pub data Act : Type 0 where
  acquires : ℕ → Act
  publishes : ℕ → ℕ → Act
  takes : ℕ → ℕ → Act
  shows : ℕ → ℕ → Act
  takes_shown : ℕ → ℕ → Act
  releases : ℕ → Act
  drops : ℕ → Act

unfoldable pub act : Act → Sharing → Sharing
act (acquires i) s =
    let (f, p) = acquire s.pool in record (with_hand i (picked f (hand i s)) s) { pool = p }
act (publishes i lane) s = elim (hand i s) [
  | [] ↦ s
  | f ∷ rest ↦
      let (old, b) = exchange lane (some f) s.buffer in
      record (with_hand i (picked old rest) s) { buffer = b }
]
act (takes i lane) s =
    let (f, b) = take lane s.buffer in record (with_hand i (picked f (hand i s)) s) { buffer = b }
act (shows i lane) s = elim (hand i s) [
  | [] ↦ s
  | f ∷ rest ↦
      let (old, r) = swap lane (some f) s.render in
      record (with_hand i (picked old rest) s) { render = r }
]
act (takes_shown i lane) s =
    let (f, r) = swap lane none s.render in
    record (with_hand i (picked f (hand i s)) s) { render = r }
act (releases i) s = elim (hand i s) [
  | [] ↦ s
  | f ∷ rest ↦ record (with_hand i rest s) { pool = release (some f) s.pool }
]
act (drops i) s = elim (hand i s) [
  | [] ↦ s
  | f ∷ rest ↦ record (with_hand i rest s) { lost = f ∷ s.lost }
]

abbrev pub act_all : List Act → Sharing → Sharing
act_all [] s = s
act_all (a ∷ acts) s = act_all acts (act a s)

-- The thread and the lane exist.
abbrev pub IsValid : Act → Type 0
IsValid (acquires i) = i < num_threads
IsValid (publishes i lane) = (i < num_threads) × (lane < num_lanes)
IsValid (takes i lane) = i < num_threads
IsValid (shows i lane) = (i < num_threads) × (lane < num_lanes)
IsValid (takes_shown i lane) = (i < num_threads) × (lane < num_lanes)
IsValid (releases i) = i < num_threads
IsValid (drops i) = i < num_threads

abbrev pub AllValid : List Act → Type 0
AllValid [] = Unit
AllValid (a ∷ acts) = IsValid a × AllValid acts

pub record IsShaped (s : Sharing) : Type 0 where
  pub buffer : length s.buffer ≡ num_lanes
  pub render : length s.render ≡ num_lanes
  pub hands : length s.hands ≡ num_threads

abbrev pub count_hands : ℕ → List (List ℕ) → ℕ
count_hands f hs = sum_by (count f) hs

-- In how many places the frame is.
abbrev pub places : ℕ → Sharing → ℕ
places f s =
    count f s.pool.free_list
    + count_slots f s.buffer
    + count_slots f s.render
    + count_hands f s.hands
    + count f s.lost

-- What the process starts with: init() of the pool, empty slots, and no frame in any thread.
abbrev pub at_start : ℕ → Sharing
at_start n = record {
  pool = init n empty_pool;
  buffer = no_frames;
  render = no_frames;
  hands = replicate num_threads [];
  lost = [];
}

abbrev pub as_number : Bool → ℕ
as_number b = if b then 1 else 0
