-- ===== src/Adc/Clock.antt =====
-- What the timestamps are worth.
use native.Mathlib.Nat.{
  mul-add-div, add-mul-mod_self_left, div-add-mod, mod-lt, mod-eq_of_lt, div-eq_of_lt,
}
use dtmc_zephyr.Prelude.{
  ℕ, ◌+◌, ◌-◌, ◌*◌, ◌/◌, ◌%◌, ◌≤◌, ◌<◌, ◌≡◌, refl, sym, ◌∙◌, ap, ap₂, true, false, List, [], ◌∷◌,
  arith, ltb, dec_lt,
}
use dtmc_zephyr.Adc.Time.{Wraps, track, to_ns}

-- Whole seconds and the rest make the exact number of nanoseconds, rounded down, as long as it fits
-- 64 bits.
pub to_ns_exact :
    (freq total : ℕ)
    → 0 < freq
    → freq < 4294967296
    → total * 1000000000 / freq < 18446744073709551616
    → to_ns freq total ≡ total * 1000000000 / freq
unfolding to_ns
to_ns_exact freq total lo hi h =
    let q = total / freq in
    let r = total % freq in
    let divided = ap (λ (n : ℕ). n * 1000000000) (div-add-mod total freq) in
    let shift : (freq * q + r) * 1000000000 ≡ freq * (q * 1000000000) + r * 1000000000 =
      grind arith in
    let whole : total * 1000000000 / freq ≡ q * 1000000000 + r * 1000000000 / freq =
      ap (λ (n : ℕ). n / freq) (sym divided ∙ shift)
      ∙ mul-add-div lo (q * 1000000000) (r * 1000000000) in
    let small : r < freq = mod-lt total lo in
    let rest : r * 1000000000 % 18446744073709551616 ≡ r * 1000000000 = omega arith in
    let seconds : q * 1000000000 % 18446744073709551616 ≡ q * 1000000000 = omega arith in
    ap₂ (λ (a b : ℕ). (a + b / freq) % 18446744073709551616) seconds rest ∙ omega arith

-- A state of the wrap tracking after a reading at the true time `t`, for a counter with top value
-- `top`.
pub record IsAt (top : ℕ) (w : Wraps) (t : ℕ) : Type 0 where
  pub prev : w.counter_prev ≡ t % (top + 1)
  pub base : w.counter_base ≡ (top + 1) * (t / (top + 1))

mod-of : (m q r : ℕ) → r < m → (m * q + r) % m ≡ r
mod-of m q r h = ap (λ (n : ℕ). n % m) (grind arith) ∙ add-mul-mod_self_left r m q ∙ mod-eq_of_lt h

div-of : (m q r : ℕ) → r < m → (m * q + r) / m ≡ q
div-of m q r h = mul-add-div (omega arith) q r ∙ omega (arith, div-eq_of_lt h)

-- Where a later time stands: in the same round of the counter, or in the next one.
pub data Later (m t u : ℕ) : Type 0 where
  same_round : u % m ≡ t % m + (u - t) → u / m ≡ t / m → Later m t u
  next_round : u % m + m ≡ t % m + (u - t) → u / m ≡ t / m + 1 → Later m t u

Later-intro : (m t u : ℕ) → 0 < m → t ≤ u → u < t + m → Later m t u
Later-intro m t u lo h k =
    let q = t / m in
    let r = t % m in
    let split = div-add-mod t m in
    let small = mod-lt t lo in
    elim (dec_lt (r + (u - t)) m) [
      | yes p ↦
          let e : m * q + (r + (u - t)) ≡ u = omega (arith, split) in
          same_round (ap (λ (n : ℕ). n % m) (sym e) ∙ mod-of m q (r + (u - t)) p)
            (ap (λ (n : ℕ). n / m) (sym e) ∙ div-of m q (r + (u - t)) p)
      | no p ↦
          let over : m * (q + 1) ≡ m * q + m = grind arith in
          let e : m * (q + 1) + (r + (u - t) - m) ≡ u = omega (arith, split, over) in
          let fits : r + (u - t) - m < m = omega arith in
          let rest = ap (λ (n : ℕ). n % m) (sym e) ∙ mod-of m (q + 1) (r + (u - t) - m) fits in
          next_round (omega (arith, rest))
            (ap (λ (n : ℕ). n / m) (sym e) ∙ div-of m (q + 1) (r + (u - t) - m) fits)
    ]

-- One more reading, less than a round of the counter later.
track-IsAt :
    (top t u : ℕ) (w : Wraps)
    → IsAt top w t
    → t ≤ u
    → u ≤ t + top
    → u < 18446744073709551616
    → ((track top w (u % (top + 1))).1 ≡ u) × IsAt top (track top w (u % (top + 1))).0 u
unfolding track
track-IsAt top t u w at h k fits =
    let m = top + 1 in
    let now = u % m in
    let whole = div-add-mod u m in
    elim (Later-intro m t u (omega arith) h (omega arith)) [
      | same_round r q ↦
          let test : ltb now w.counter_prev ≡ false = ground (arith, r, at.prev) in
          let base : w.counter_base ≡ m * (u / m) = at.base ∙ ap (λ (n : ℕ). m * n) (sym q) in
          rw test (omega (arith, base, whole), record { prev = refl; base = base })
      | next_round r q ↦
          let small = mod-lt t {m = m} (omega arith) in
          let test : ltb now w.counter_prev ≡ true = ground (arith, r, at.prev, small) in
          let over : m * (t / m) + m ≡ m * (t / m + 1) = grind arith in
          let sum : w.counter_base + m ≡ m * (u / m) =
            omega (arith, at.base, over, ap (λ (n : ℕ). m * n) q) in
          let base : (w.counter_base + m) % 18446744073709551616 ≡ m * (u / m) =
            omega (arith, sum, whole) in
          rw test (omega (arith, base, whole), record { prev = refl; base = base })
    ]

-- the totals of several readings, one after another
unfoldable pub totals : ℕ → Wraps → List ℕ → List ℕ
totals top w [] = []
totals top w (now ∷ later) = (track top w now).1 ∷ totals top (track top w now).0 later

-- True times, each less than a round of the counter after the one before, and all in 64 bits.
abbrev pub Paced : ℕ → ℕ → List ℕ → Type 0
Paced top t [] = Unit {0}
Paced top t (u ∷ later) = (t ≤ u) × (u ≤ t + top) × (u < 18446744073709551616) × Paced top u later

-- what the counter shows at a true time
abbrev pub shown : ℕ → List ℕ → List ℕ
shown top [] = []
shown top (t ∷ later) = (t % (top + 1)) ∷ shown top later

start : (top : ℕ) → IsAt top (record { counter_prev = 0; counter_base = 0 }) 0
start top =
    let m = top + 1 in
    let positive : 0 < m = omega arith in
    let none_over : 0 / m ≡ 0 = div-eq_of_lt positive in
    let times : m * (0 / m) ≡ m * 0 = ap (λ (n : ℕ). m * n) none_over in
    record { prev = sym (mod-eq_of_lt positive); base = omega (arith, times) }

totals_from :
    (top t : ℕ) (w : Wraps) (times : List ℕ)
    → IsAt top w t
    → Paced top t times
    → totals top w (shown top times) ≡ times
unfolding totals
totals_from top t w [] at p = refl
totals_from top t w (u ∷ later) at p =
    let now = track-IsAt top t u w at p.0 p.1 p.2 in
    ap₂ ◌∷◌ now.0 (totals_from top u (track top w (u % (top + 1))).0 later now.1 p.3)

-- From the values that a counter shows, which start again at 0 after its top value, the wrap
-- tracking gets back the true times since the start, when the first reading comes in the first round
-- of the counter, and each later one less than a round after the one before.
pub totals_exact :
    (top : ℕ) (times : List ℕ)
    → Paced top 0 times
    → totals top (record { counter_prev = 0; counter_base = 0 }) (shown top times) ≡ times
totals_exact top times p = totals_from top 0 _ times (start top) p
