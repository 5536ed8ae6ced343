-- ===== src/Port/Events.antt =====
-- `struct k_event`: a set of event bits.
use dtmc_zephyr.Prelude.{ℕ, ◌≡◌, Bool, false, ◌||◌, ◌==◌}

pub record EventFlags (E : Type 0) : Type 0 where
  -- whether a bit is set
  pub is_set : E → ℕ → Bool
  pub k_event_init : E
  -- `k_event_set(event, 0)`
  pub k_event_clear : E → E
  -- `k_event_post` of the bit with a number
  pub k_event_post : E → ℕ → E
  pub init-is_set : (i : ℕ) → is_set k_event_init i ≡ false
  pub clear-is_set : (e : E) (i : ℕ) → is_set (k_event_clear e) i ≡ false
  pub post-is_set : (e : E) (i j : ℕ) → is_set (k_event_post e i) j ≡ (i == j || is_set e j)
