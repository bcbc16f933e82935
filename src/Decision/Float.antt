-- ===== src/Decision/Float.antt =====
-- The 32-bit floating-point numbers and the operations that the decision process uses on them.
-- They are part of the platform, and the theorems hold for every choice of them.
use adaptive_traffic_light.Prelude.{ℕ, Bool}

-- `decimal m k` is the literal m / 10^k; `less` and `at_most` are `<` and `<=`.
pub record FloatOps : Type 1 where
  pub F : Type 0
  pub add : F → F → F
  pub mul : F → F → F
  pub less : F → F → Bool
  pub at_most : F → F → Bool
  pub is_finite : F → Bool
  pub of_u32 : ℕ → F
  pub decimal : ℕ → ℕ → F
