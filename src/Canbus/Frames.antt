-- ===== src/Canbus/Frames.antt =====
-- How `make_frame` lays bytes out in frames, and what a row of frames carries.
use dtmc_zephyr.Prelude.{
  ℕ, ◌-◌, ◌≤◌, ◌<◌, ◌≡◌, refl, ◌∙◌, ap, List, [], ◌∷◌, ◌++◌, arith, bit_or, length, take, replicate,
  length-append, take-append, take_all, if◌then◌else◌, zero, suc,
}
use dtmc_zephyr.Port.Can.{CanFrame, CanDriver}
use dtmc_zephyr.Canbus.Object.{Config}
use dtmc_zephyr.Canbus.Write.{make_frame}

length-replicate : (n a : ℕ) → length (replicate n a) ≡ n
length-replicate zero a = refl
length-replicate (suc n) a = ap suc (length-replicate n a)

module _ {B : Type 0} (driver : CanDriver B) where
  -- the data bytes that a receiver takes from the frames
  abbrev pub payload : List CanFrame → List ℕ
  payload [] = []
  payload (f ∷ fs) = take (driver.can_dlc_to_bytes f.dlc) f.bytes ++ payload fs

  -- A frame of the configured sender: its identifier and flags, 1 to 8 data bytes in a full array.
  pub record IsFrameOf (config : Config) (f : CanFrame) : Type 0 where
    pub id : f.id ≡ config.txid
    pub flags : f.flags ≡ (if config.use_extended_id then bit_or 0 driver.frame_ide else 0)
    pub full : length f.bytes ≡ 8
    pub some_data : 0 < driver.can_dlc_to_bytes f.dlc
    pub at_most_8 : driver.can_dlc_to_bytes f.dlc ≤ 8

  abbrev pub AllFramesOf : Config → List CanFrame → Type 0
  AllFramesOf config [] = Unit {0}
  AllFramesOf config (f ∷ fs) = IsFrameOf config f × AllFramesOf config fs

module _ {B : Type 0} (driver : CanDriver B) where
  pub make_frame-IsFrameOf :
      (config : Config) (chunk : List ℕ) (n : ℕ)
      → length chunk ≡ n
      → 0 < n
      → n ≤ 8
      → IsFrameOf driver config (make_frame driver config chunk n)
  unfolding make_frame
  make_frame-IsFrameOf config chunk n e lo hi = record {
    id = refl;
    flags = refl;
    full = length-append chunk (replicate (8 - n) 0) ∙ omega (arith, length-replicate (8 - n) 0);
    some_data = omega (arith, driver.dlc_exact n hi);
    at_most_8 = omega (arith, driver.dlc_exact n hi);
  }

  pub payload-make_frame :
      (config : Config) (chunk : List ℕ) (n : ℕ)
      → length chunk ≡ n
      → n ≤ 8
      → payload driver (make_frame driver config chunk n ∷ []) ≡ chunk ++ []
  unfolding make_frame
  payload-make_frame config chunk n e hi = rw (driver.dlc_exact n hi) (
      ap (λ r. r ++ [])
        (take-append n chunk (replicate (8 - n) 0) (omega arith) ∙ take_all n chunk (omega arith)))
