-- ===== src/Prelude/Status.antt =====
-- The integers that the kernel's functions return, and the status codes of
-- kernel/include/kernel.h.
use Prim.Native.Nat.{ℕ, zero, suc}
use mathlib.Core.Bool.{Bool, true, false}

-- `negsuc n` is -(n + 1).
pub data ℤ : Type 0 where
  pos : ℕ → ℤ
  negsuc : ℕ → ℤ

abbrev pub success : ℤ
success = pos 0

abbrev pub error : ℤ
error = negsuc 0

abbrev pub error_invalid_arg : ℤ
error_invalid_arg = negsuc 1

abbrev pub error_no_memory : ℤ
error_no_memory = negsuc 2

abbrev pub error_not_found : ℤ
error_not_found = negsuc 3

abbrev pub error_busy : ℤ
error_busy = negsuc 5

abbrev pub error_not_supported : ℤ
error_not_supported = negsuc 8

abbrev pub error_overflow : ℤ
error_overflow = negsuc 9

-- `ret == CK_SUCCESS`.
abbrev pub is_success : ℤ → Bool
is_success (pos zero) = true
is_success (pos (suc n)) = false
is_success (negsuc n) = false
