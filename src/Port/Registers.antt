-- ===== src/Port/Registers.antt =====
-- A concrete register protocol, with one byte in a register and blobs of at most four bytes.
use dtmc_zephyr.Prelude.{ℕ, zero, suc, ◌≤◌, ◌≡◌, refl, ap, List, [], ◌∷◌, arith, length}
use dtmc_zephyr.Port.Modbus.{ModbusProtocol, AllBytes}

abbrev pub put_bytes : List ℕ → List ℕ → List ℕ
put_bytes bytes [] = []
put_bytes [] (r ∷ regs) = r ∷ put_bytes [] regs
put_bytes (b ∷ bytes) (r ∷ regs) = b ∷ put_bytes bytes regs

abbrev pub get_bytes : List ℕ → ℕ → List ℕ
get_bytes regs zero = []
get_bytes [] (suc n) = 0 ∷ get_bytes [] n
get_bytes (r ∷ regs) (suc n) = r ∷ get_bytes regs n

pub length-put_bytes : (bytes regs : List ℕ) → length (put_bytes bytes regs) ≡ length regs
length-put_bytes [] [] = refl
length-put_bytes (b ∷ bytes) [] = refl
length-put_bytes [] (r ∷ regs) = ap suc (length-put_bytes [] regs)
length-put_bytes (b ∷ bytes) (r ∷ regs) = ap suc (length-put_bytes bytes regs)

pub length-get_bytes : (regs : List ℕ) (n : ℕ) → length (get_bytes regs n) ≡ n
length-get_bytes [] zero = refl
length-get_bytes (r ∷ regs) zero = refl
length-get_bytes [] (suc n) = let rest = length-get_bytes [] n in omega arith
length-get_bytes (r ∷ regs) (suc n) = let rest = length-get_bytes regs n in omega arith

get_put_fits :
    (bytes regs : List ℕ)
    → length bytes ≤ length regs
    → get_bytes (put_bytes bytes regs) (length bytes) ≡ bytes
get_put_fits [] [] h = refl
get_put_fits [] (r ∷ regs) h = refl
get_put_fits (b ∷ bytes) [] h = absurd (omega arith)
get_put_fits (b ∷ bytes) (r ∷ regs) h = ap (λ bs. b ∷ bs) (get_put_fits bytes regs (omega arith))

pub get_put :
    (bytes regs : List ℕ)
    → length regs ≡ 4
    → length bytes ≤ 4
    → AllBytes bytes
    → get_bytes (put_bytes bytes regs) (length bytes) ≡ bytes
get_put bytes regs hr hb all = get_put_fits bytes regs (omega arith)

abbrev pub one_byte_regs : ModbusProtocol
one_byte_regs = record {
  m2s_cmd_reg = 0;
  m2s_data_reg = 2;
  s2m_status_reg = 100;
  s2m_data_reg = 102;
  put_blob = 1;
  give_me_any_data = 2;
  has_data = 1;
  no_data = 0;
  max_blob_bytes = 4;
  max_blob_regs = 4;
  blob_to_regs = λ n. n;
  pack_bytes_to_regs = put_bytes;
  unpack_regs_to_bytes = get_bytes;
  m2s_layout = omega arith;
  s2m_layout = omega arith;
  commands_differ = λ h. omega arith;
  blob_fits = λ n h. h;
  blob_needs_regs = λ n h. h;
  len_fits = omega arith;
  length-pack = length-put_bytes;
  length-unpack = length-get_bytes;
  unpack-pack = get_put;
}
