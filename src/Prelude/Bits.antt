-- ===== src/Prelude/Bits.antt =====
-- Bit fields as arithmetic: a disjunction of disjoint fields is a sum, and a mask of ones is a
-- remainder.
use Prim.Native.Nat.{
  ℕ, zero, suc, ◌+◌, ◌-◌, ◌*◌, ◌/◌, ◌%◌, ◌^◌, ◌≤◌, ◌<◌, min, max, digits, bitwise, bit_and, bit_or,
  bit_and-bitwise, bit_or-bitwise,
}
use mathlib.Core.Path.{◌≡◌, refl, ap}
use native.Mathlib.Nat.{pow-suc, one-le-pow, mod-lt, div-add-mod'}
use native.Mathlib.Omega.{arith}

-- The count of digits to go does not matter, as long as it covers the first number.
digits_count :
    (z : ℕ → ℕ) (f : ℕ → ℕ → ℕ) (n m a b : ℕ) → a ≤ n → a ≤ m → digits z f n a b ≡ digits z f m a b
digits_count z f n m zero b h k = both n m
  where
    both : (n m : ℕ) → digits z f n zero b ≡ digits z f m zero b
    both zero zero = refl
    both zero (suc m) = refl
    both (suc n) zero = refl
    both (suc n) (suc m) = refl
digits_count z f zero m (suc a) b h k = absurd (omega arith)
digits_count z f (suc n) zero (suc a) b h k = absurd (omega arith)
digits_count z f (suc n) (suc m) (suc a) b h k =
    ap (λ (t : ℕ). t * 2 + f (suc a % 2) (b % 2))
      (digits_count z f n m (suc a / 2) (b / 2) (omega arith) (omega arith))

bitwise-suc :
    (z : ℕ → ℕ) (f : ℕ → ℕ → ℕ) (a b : ℕ)
    → bitwise z f (suc a) b ≡ bitwise z f (suc a / 2) (b / 2) * 2 + f (suc a % 2) (b % 2)
bitwise-suc z f a b =
    ap (λ (t : ℕ). t * 2 + f (suc a % 2) (b % 2))
      (digits_count z f a (suc a / 2) (suc a / 2) (b / 2) (omega arith) (omega arith))

or_lowest : (a b : ℕ) → bit_or a b ≡ bit_or (a / 2) (b / 2) * 2 + max (a % 2) (b % 2)
or_lowest zero b = omega (arith, bit_or-bitwise 0 b, bit_or-bitwise 0 (b / 2))
or_lowest (suc a) b = omega (
  arith,
  bit_or-bitwise (suc a) b,
  bit_or-bitwise (suc a / 2) (b / 2),
  bitwise-suc (λ y. y) max a b,
)

and_lowest : (a b : ℕ) → bit_and a b ≡ bit_and (a / 2) (b / 2) * 2 + min (a % 2) (b % 2)
and_lowest zero b = omega (arith, bit_and-bitwise 0 b, bit_and-bitwise 0 (b / 2))
and_lowest (suc a) b = omega (
  arith,
  bit_and-bitwise (suc a) b,
  bit_and-bitwise (suc a / 2) (b / 2),
  bitwise-suc (λ _. 0) min a b,
)

or_nothing : (n a : ℕ) → a ≤ n → bit_or a 0 ≡ a
or_nothing zero zero h = omega (arith, bit_or-bitwise 0 0)
or_nothing zero (suc a) h = absurd (omega arith)
or_nothing (suc n) zero h = omega (arith, bit_or-bitwise 0 0)
or_nothing (suc n) (suc a) h =
    omega (arith, or_lowest (suc a) 0, or_nothing n (suc a / 2) (omega arith))

and_nothing : (n a : ℕ) → a ≤ n → bit_and a 0 ≡ 0
and_nothing zero zero h = omega (arith, bit_and-bitwise 0 0)
and_nothing zero (suc a) h = absurd (omega arith)
and_nothing (suc n) zero h = omega (arith, bit_and-bitwise 0 0)
and_nothing (suc n) (suc a) h =
    omega (arith, and_lowest (suc a) 0, and_nothing n (suc a / 2) (omega arith))

shifted_twice : (k q : ℕ) → q * 2 ^ suc k ≡ q * 2 ^ k * 2
shifted_twice k q = omega (arith, ap (λ (t : ℕ). q * t) (pow-suc 2 k))

pub bit_or-shifted : (k q r : ℕ) → r < 2 ^ k → bit_or (q * 2 ^ k) r ≡ q * 2 ^ k + r
bit_or-shifted zero q r h = ground (arith, or_nothing q q)
bit_or-shifted (suc k) q r h = ground (
  arith,
  or_lowest (q * 2 ^ suc k) r,
  shifted_twice k q,
  bit_or-shifted k q (r / 2) (omega (arith, pow-suc 2 k)),
)

no_ones : (a : ℕ) → bit_and a (2 ^ 0 - 1) ≡ 0
no_ones a = and_nothing a a (omega arith)

ones_of_field : (k q r : ℕ) → r < 2 ^ k → bit_and (q * 2 ^ k + r) (2 ^ k - 1) ≡ r
ones_of_field zero q r h = omega (arith, no_ones (q * 2 ^ 0 + r))
ones_of_field (suc k) q r h = ground (
  arith,
  and_lowest (q * 2 ^ suc k + r) (2 ^ suc k - 1),
  shifted_twice k q,
  pow-suc 2 k,
  one-le-pow k 2,
  ones_of_field k q (r / 2) (omega (arith, pow-suc 2 k)),
)

pub bit_and-ones : (k a : ℕ) → bit_and a (2 ^ k - 1) ≡ a % 2 ^ k
bit_and-ones k a = ground (
  arith,
  one-le-pow k 2,
  div-add-mod' a (2 ^ k),
  ones_of_field k (a / 2 ^ k) (a % 2 ^ k) (mod-lt a (omega (arith, one-le-pow k 2))),
)
