-- ===== src/Adc/Time.antt =====
-- Timestamps: a counter value becomes nanoseconds since the start, and wraps are tracked.
use dtmc_zephyr.Prelude.{ℕ, ◌+◌, ◌*◌, ◌/◌, ◌%◌, ltb, if◌then◌else◌}

-- `counter_prev` and `counter_base`
pub record Wraps : Type 0 where
  pub counter_prev : ℕ
  pub counter_base : ℕ

-- The first half of `_counter_ticks_to_ns`: the new state, and `total`.
unfoldable pub track : ℕ → Wraps → ℕ → Wraps × ℕ
track top w now =
    let base =
      if ltb now w.counter_prev
      then (w.counter_base + (top + 1)) % 18446744073709551616
      else w.counter_base in
    (record { counter_prev = now; counter_base = base }, (base + now) % 18446744073709551616)

-- The second half, in `uint64_t`: whole seconds, and the rest.
unfoldable pub to_ns : ℕ → ℕ → ℕ
to_ns freq total =
    (total / freq * 1000000000 % 18446744073709551616
      + total % freq * 1000000000 % 18446744073709551616 / freq)
    % 18446744073709551616
