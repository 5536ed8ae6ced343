-- ===== src/Port/Host.antt =====
-- Memory, the vtable registries and the buffers of dtcore: what each call of them answers.
use dtmc_zephyr.Prelude.{ℕ, Bool, Option}
use dtmc_zephyr.Err.{Dterr}

pub record Host : Type 0 where
  -- whether `malloc` or `calloc` gives an object
  pub has_memory : Bool
  -- `dtiox_set_vtable` and `dtobject_set_vtable` for a model number
  pub dtiox_set_vtable : ℕ → Option Dterr
  pub dtobject_set_vtable : ℕ → Option Dterr
  -- `dtbuffer_create` of a buffer with so many bytes
  pub dtbuffer_create : ℕ → Option Dterr
