-- ===== src/Prelude/Time.antt =====
-- Machine words and `struct timespec`. The clocks never go below zero, so both fields are
-- natural numbers; `time_t` overflow, which C++ leaves undefined, is not modelled.
use Prim.Native.Nat.{ℕ, ◌+◌, ◌*◌, ◌%◌, ◌^◌, ◌<◌}

-- Arithmetic of `std::uint32_t` and `std::uint64_t` wraps.
abbrev pub u8 : ℕ → ℕ
u8 n = n % 2 ^ 8

abbrev pub u32 : ℕ → ℕ
u32 n = n % 2 ^ 32

abbrev pub u64 : ℕ → ℕ
u64 n = n % 2 ^ 64

abbrev pub u32_max : ℕ
u32_max = 4294967295

abbrev pub u64_max : ℕ
u64_max = 18446744073709551615

pub record Timespec : Type 0 where
  pub tv_sec : ℕ
  pub tv_nsec : ℕ

abbrev pub zero_time : Timespec
zero_time = record { tv_sec = 0; tv_nsec = 0 }

-- The nanosecond field is in the range that the kernel accepts.
abbrev pub IsNormal : Timespec → Type 0
IsNormal t = t.tv_nsec < 1000000000

-- The instant, in nanoseconds, with no wrap.
abbrev pub instant : Timespec → ℕ
instant t = t.tv_sec * 1000000000 + t.tv_nsec
