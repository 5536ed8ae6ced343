-- ===== src/Err.antt =====
-- Errors and return codes. `dterr_t*` is `Option Dterr`, NULL being `none`; the message texts and
-- source locations of `dterr_new` are left out. The codes are those that the library's sources name.
use dtmc_zephyr.Prelude.{ℕ, suc, Bool, true, false, Option, none, some}

-- Negated `errno` values that the code tests for, and the rest.
pub data Errno : Type 0 where
  eagain ebusy enomsg einval eperm eio : Errno
  other : ℕ → Errno

-- A Zephyr `int` result: 0, a positive number, or a negated errno.
pub data Rc : Type 0 where
  success : Rc
  positive : ℕ → Rc
  negative : Errno → Rc

pub data ErrCode : Type 0 where
  argument_null badarg badconfig busy fail nomem notfound notready overflow state timeout : ErrCode
  negerror : Errno → ErrCode

-- `dterr_new(code, …, inner, …)`: with no inner error, or round one.
pub data Dterr : Type 0 where
  leaf : ErrCode → Dterr
  wrap : ErrCode → Dterr → Dterr

abbrev pub error_code : Dterr → ErrCode
error_code (leaf c) = c
error_code (wrap c e) = c

abbrev pub is_success : Rc → Bool
is_success success = true
is_success _ = false

abbrev pub is_eagain : Rc → Bool
is_eagain (negative eagain) = true
is_eagain _ = false

abbrev pub is_positive : Rc → Bool
is_positive (positive n) = true
is_positive _ = false

abbrev pub is_negative : Rc → Bool
is_negative (negative e) = true
is_negative _ = false

-- The number that a result which is not negative stands for.
abbrev pub rc_value : Rc → ℕ
rc_value (positive n) = suc n
rc_value _ = 0

-- `DTERR_NEGERROR_C`: an error for a negated errno.
abbrev pub negerror_c : Rc → Option Dterr
negerror_c (negative e) = some (leaf (negerror e))
negerror_c _ = none

-- An error put round an inner one, with its code.
abbrev pub rewrap : Option Dterr → Option Dterr
rewrap none = none
rewrap (some e) = some (wrap (error_code e) e)

-- Two calls under `DTERR_C`: the second is made if the first gives no error.
abbrev pub or_else : Option Dterr → Option Dterr → Option Dterr
or_else none next = next
or_else (some e) next = some e
