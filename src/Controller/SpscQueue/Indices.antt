-- ===== src/Controller/SpscQueue/Indices.antt =====
-- The arithmetic of indices that go round a ring.
use native.Mathlib.Nat.{mod-add-mod, mod-eq_of_lt, mod-eq-sub-mod}
use native.Mathlib.Decide.{dec_lt}
use adaptive_traffic_light.Prelude.{
  ℕ, suc, ◌+◌, ◌-◌, ◌%◌, ◌≤◌, ◌<◌, ◌≡◌, ◌≢◌, ◌⊎◌, inl, inr, if◌then◌else◌, leb, ap, arith,
}

-- An index less than twice the capacity wraps at most once.
wraps :
    (x cap : ℕ) → x < cap + cap → ((x < cap) × (x % cap ≡ x)) ⊎ ((cap ≤ x) × (x % cap + cap ≡ x))
wraps x cap h = elim (dec_lt x cap) [
  | yes p ↦ inl (p, mod-eq_of_lt p)
  | no p ↦ inr (
    omega arith,
    omega (
      arith,
      mod-eq-sub-mod {n = x} {m = cap} (omega arith),
      mod-eq_of_lt {n = x - cap} {m = cap} (omega arith),
    ),
  )
]

-- How many places there are from r on up to w, going round.
abbrev pub distance : ℕ → ℕ → ℕ → ℕ
distance cap r w = if leb r w then w - r else w + cap - r

pub distance_next :
    (cap r w : ℕ)
    → r < cap
    → w < cap
    → ((w + 1) % cap ≢ r → distance cap r ((w + 1) % cap) ≡ suc (distance cap r w))
      × ((w + 1) % cap ≡ r → suc (distance cap r w) ≡ cap)
      × ((w + 1) % cap < cap)
distance_next cap r w h l = ground (arith, wraps (w + 1) cap (omega arith))

pub distance_passed :
    (cap r w : ℕ)
    → r < cap
    → w < cap
    → r ≢ w
    → (suc (distance cap ((r + 1) % cap) w) ≡ distance cap r w) × ((r + 1) % cap < cap)
distance_passed cap r w h l n = ground (arith, wraps (r + 1) cap (omega arith))

pub distance-lt : (cap r w : ℕ) → r < cap → w < cap → distance cap r w < cap
distance-lt cap r w h l = ground arith

pub reached : (cap r w : ℕ) → r < cap → w < cap → (r + distance cap r w) % cap ≡ w
reached cap r w h l =
    ground (arith, wraps (r + distance cap r w) cap (omega (arith, distance-lt cap r w h l)))

pub not_reached : (cap r w k : ℕ) → r < cap → w < cap → k < distance cap r w → (r + k) % cap ≢ w
not_reached cap r w k h l m e =
    ground (arith, wraps (r + k) cap (omega (arith, distance-lt cap r w h l)))

pub first_slot : (r cap : ℕ) → r < cap → (r + 0) % cap ≡ r
first_slot r cap h = let e : r + 0 ≡ r = omega arith in rw e (mod-eq_of_lt h)

pub next_slot : (r n cap : ℕ) → (r + suc n) % cap ≡ ((r + 1) % cap + n) % cap
next_slot r n cap = rw mod-add-mod (ap (λ k. k % cap) (omega arith))
