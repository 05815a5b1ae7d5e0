-- ===== src/Prelude/Status.antt =====
-- What a C function that returns an `int` status tells its caller: a value that is not negative,
-- or a negative error number.
use Prim.Native.Nat.{ℕ}
use mathlib.Core.Path.{◌≡◌, refl}
use mathlib.Core.Bool.{Bool, false}
use akira_os.Prelude.Tests.{◌==◌}

-- `failed` is -1 where the source writes the number; `raw n` is another negative number, -n.
pub data Errno : Type 0 where
  failed einval enodev enomem eexist enoent eacces eagain edquot eperm enametoolong enotsup : Errno
  raw : ℕ → Errno

pub data Ret : Type 0 where
  ok : ℕ → Ret
  err : Errno → Ret

-- A signed handle argument: `negsuc n` is -(n + 1).
pub data ℤ : Type 0 where
  pos : ℕ → ℤ
  negsuc : ℕ → ℤ

-- `x == n` for a signed `x` and an index `n`.
abbrev pub is_pos : ℤ → ℕ → Bool
is_pos (pos m) n = m == n
is_pos (negsuc m) n = false

-- To prove a property of a match on a status, prove it of both branches, each with its equation.
pub ret_case {κ ν} :
    {B : Type κ} (P : B → Type ν) (r : Ret) {f : ℕ → B} {g : Errno → B}
    → ((n : ℕ) → r ≡ ok n → P (f n))
    → ((e : Errno) → r ≡ err e → P (g e))
    → P (elim r [ ok n ↦ f n | err e ↦ g e ])
ret_case P (ok n) h k = h n refl
ret_case P (err e) h k = k e refl
