-- ===== src/Gpio/Word.antt =====
-- `uint32_t` words of pins, as their bits from the lowest on, with the operations that the interrupt
-- does on them.
use dtmc_zephyr.Prelude.{ℕ, suc, Bool, true, false, ◌&&◌, ◌||◌, List, [], ◌∷◌}

-- whether a word is not 0
abbrev pub any : List Bool → Bool
any [] = false
any (b ∷ bits) = b || any bits

-- `__builtin_ctz`
abbrev pub ctz : List Bool → ℕ
ctz [] = 0
ctz (true ∷ bits) = 0
ctz (false ∷ bits) = suc (ctz bits)

-- `pins - 1`, with the borrow
abbrev pub minus_one : List Bool → List Bool
minus_one [] = []
minus_one (true ∷ bits) = false ∷ bits
minus_one (false ∷ bits) = true ∷ minus_one bits

abbrev pub and_bits : List Bool → List Bool → List Bool
and_bits [] bs = []
and_bits (a ∷ more) [] = []
and_bits (a ∷ more) (b ∷ bs) = (a && b) ∷ and_bits more bs
