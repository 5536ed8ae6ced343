-- ===== src/Port/Ring.antt =====
-- `dtringfifo` of dtcore: a byte queue that takes what fits and gives what it has, in order.
use dtmc_zephyr.Prelude.{ℕ, ◌≡◌, min, List, [], ◌++◌, Option, length, take, drop}
use dtmc_zephyr.Err.{Dterr}

pub record RingFifo (F : Type 0) : Type 0 where
  -- the bytes held, oldest first, and the free space
  pub contents : F → List ℕ
  pub room : F → ℕ
  -- `dtringfifo_init`
  pub blank : F
  pub init : F → F × Option Dterr
  -- `dtringfifo_configure` with a buffer of so many bytes
  pub configure : F → ℕ → F × Option Dterr
  -- how many bytes were stored
  pub push : F → List ℕ → F × ℕ
  -- the bytes taken out
  pub pop : F → ℕ → F × List ℕ
  pub reset : F → F
  pub push_count : (f : F) (bytes : List ℕ) → (push f bytes).1 ≡ min (length bytes) (room f)
  pub push_contents :
      (f : F) (bytes : List ℕ)
      → contents (push f bytes).0 ≡ contents f ++ take (push f bytes).1 bytes
  pub pop_bytes : (f : F) (n : ℕ) → (pop f n).1 ≡ take n (contents f)
  pub pop_contents : (f : F) (n : ℕ) → contents (pop f n).0 ≡ drop n (contents f)
  pub reset_contents : (f : F) → contents (reset f) ≡ []
