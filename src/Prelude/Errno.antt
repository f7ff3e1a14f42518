-- ===== src/Prelude/Errno.antt =====
-- The errors that the C code returns as negative numbers, and the results of functions whose
-- `int` is a count or 0 on success and a negative errno on failure.
use Prim.Native.Nat.{ℕ}
use mathlib.Core.Option.{Option, some}
use mathlib.Core.Path.{◌≡◌, refl}
use mathlib.Core.Logic.{◌⊎◌, inl, inr}
use mathlib.Core.Bool.{Bool, true, false}

pub data Errno : Type 0 where
  einval enoent eexist enomem eio eproto eopnotsupp enotconn eshutdown : Errno

-- The numbers of <errno.h> on Linux.
abbrev pub errno_number : Errno → ℕ
errno_number enoent = 2
errno_number eio = 5
errno_number enomem = 12
errno_number eexist = 17
errno_number einval = 22
errno_number eproto = 71
errno_number eopnotsupp = 95
errno_number enotconn = 107
errno_number eshutdown = 108

pub data Ret : Type 0 where
  ok : ℕ → Ret
  err : Errno → Ret

-- The GNU `a ?: b` on results: the first that is not 0.
abbrev pub or_else : Ret → Ret → Ret
or_else (ok n) b = elim n [ ℕ.zero ↦ b | ℕ.suc m ↦ ok (ℕ.suc m) ]
or_else (err e) b = err e

-- abs() of the `int`.
abbrev pub abs : Ret → ℕ
abs (ok n) = n
abs (err e) = errno_number e

-- `ret < 0`.
abbrev pub is_err : Ret → Bool
is_err (ok n) = false
is_err (err e) = true

-- The error of a result, or else the earlier one.
abbrev pub errno_of : Ret → Option Errno → Option Errno
errno_of (ok n) before = before
errno_of (err e) before = some e

pub Ret-cases : (r : Ret) → ((e : Errno) × (r ≡ err e)) ⊎ ((n : ℕ) × (r ≡ ok n))
Ret-cases (err e) = inl (e, refl)
Ret-cases (ok n) = inr (n, refl)
