-- ===== src/Port/Core.antt =====
-- `DTCORE_HELPER_INC32` and `DTCORE_HELPER_ADD32` of dtcore, counters that stop at INT32_MAX.
use dtmc_zephyr.Prelude.{ℕ, ◌+◌, ◌≤◌, ◌≡◌, min}

abbrev pub int32_max : ℕ
int32_max = 2147483647

pub record CoreHelper : Type 0 where
  pub add32 : ℕ → ℕ → ℕ
  pub inc32 : ℕ → ℕ
  pub add32_clamps : (a b : ℕ) → a ≤ int32_max → add32 a b ≡ min (a + b) int32_max
  pub inc32_clamps : (a : ℕ) → a ≤ int32_max → inc32 a ≡ min (a + 1) int32_max
