-- ===== src/Perception/Frames/Places.antt =====
-- How often a frame occurs in the free list, in the slots and in the hands of the threads, and what
-- each operation on them does to that count.
use adaptive_traffic_light.Prelude.{
  ℕ, ◌+◌, ◌<◌, ◌≡◌, refl, ap, not, if◌then◌else◌, ltb, ◌==◌, Option, none, some, List, [], ◌∷◌,
  ◌++◌, length, get_or, set, length-set, sum_by, sum_by-set, get_or-set_self, get_or-set_ne,
  if-elim, ◌≢◌, arith,
}
use adaptive_traffic_light.Perception.Frames.{
  FramePool, acquire, release, cleared, frame_of, new_frame, Slots, exchange, take, num_lanes,
}

-- Whether it is the frame, as a number.
abbrev pub one : ℕ → ℕ → ℕ
one f g = if f == g then 1 else 0

abbrev pub in_slot : ℕ → Option ℕ → ℕ
in_slot f none = 0
in_slot f (some g) = one f g

abbrev pub count : ℕ → List ℕ → ℕ
count f [] = 0
count f (g ∷ gs) = one f g + count f gs

abbrev pub count_slots : ℕ → Slots → ℕ
count_slots f os = sum_by (in_slot f) os

pub count-append : (f : ℕ) (xs ys : List ℕ) → count f (xs ++ ys) ≡ count f xs + count f ys
count-append f [] ys = omega arith
count-append f (x ∷ xs) ys = omega (arith, count-append f xs ys)

pub count_slots-set :
    (f : ℕ) (os : Slots) (i : ℕ) (o : Option ℕ)
    → i < length os
    → count_slots f (set os i o) + in_slot f (get_or os i none) ≡ count_slots f os + in_slot f o
count_slots-set f os i o h = sum_by-set (in_slot f) os i o none h

pub count-acquire :
    (f : ℕ) (p : FramePool)
    → let (o, q) = acquire p in in_slot f o + count f q.free_list ≡ count f p.free_list
unfolding acquire
count-acquire f p = ground arith

pub count-release :
    (f : ℕ) (o : Option ℕ) (p : FramePool)
    → count f (release o p).free_list ≡ in_slot f o + count f p.free_list
unfolding release
count-release f none p = omega arith
count-release f (some g) p = refl

pub count-exchange :
    (f lane : ℕ) (o : Option ℕ) (b : Slots)
    → length b ≡ num_lanes
    → lane < num_lanes
    → let (old, c) = exchange lane o b in
      in_slot f old + count_slots f c ≡ in_slot f o + count_slots f b
unfolding exchange
count-exchange f lane o b h l = ground (arith, count_slots-set f b lane o)

pub count-take :
    (f lane : ℕ) (b : Slots)
    → length b ≡ num_lanes
    → let (old, c) = take lane b in in_slot f old + count_slots f c ≡ count_slots f b
unfolding take
count-take f lane b h = ground (arith, count_slots-set f b lane none)

pub length-exchange :
    (lane : ℕ) (o : Option ℕ) (b : Slots) → length (exchange lane o b).1 ≡ length b
unfolding exchange
length-exchange lane o b = ground (arith, length-set b lane o)

pub length-take : (lane : ℕ) (b : Slots) → length (take lane b).1 ≡ length b
unfolding take
length-take lane b = ground (arith, length-set b lane none)

pub take-IsSlot :
    (lane : ℕ) (b : Slots)
    → lane < num_lanes
    → length b ≡ num_lanes
    → ((take lane b).0 ≡ get_or b lane none) × (get_or (take lane b).1 lane none ≡ none)
unfolding take
take-IsSlot lane b l h = ground (arith, get_or-set_self b lane none none (omega (arith, l, h)))

pub take-others :
    (lane j : ℕ) (b : Slots) → lane ≢ j → get_or (take lane b).1 j none ≡ get_or b j none
unfolding take
take-others lane j b n =
    if-elim (λ (r : Option ℕ × Slots). get_or r.1 j none ≡ get_or b j none)
      (not (ltb lane num_lanes)) (λ _. refl) (λ _. get_or-set_ne b lane j none none n)

-- A frame that is not the one that comes back stays as it is, and no frame goes away.
pub release-untouched :
    (o : Option ℕ) (p : FramePool) (f : ℕ) → o ≢ some f → frame_of (release o p) f ≡ frame_of p f
unfolding release
release-untouched none p f n = refl
release-untouched (some g) p f n =
    get_or-set_ne p.pool g f (cleared (frame_of p g)) new_frame (λ e. n (ap some e))

pub length-release : (o : Option ℕ) (p : FramePool) → length (release o p).pool ≡ length p.pool
unfolding release
length-release none p = refl
length-release (some g) p = length-set p.pool g (cleared (frame_of p g))
