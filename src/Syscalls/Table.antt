-- ===== src/Syscalls/Table.antt =====
-- The table of kernel/core/syscalls.c, `register_syscall` and `syscall_dispatch`.
use Prim.Native.String.{String}
use cellkernelqwen.Prelude.{ℕ, Option, none, some, List, get_or, set, leb, if◌then◌else◌}
use cellkernelqwen.Prelude.Status.{ℤ, success, error_invalid_arg, error_not_supported}

-- The six argument registers.
pub record Args : Type 0 where
  pub arg1 : ℕ
  pub arg2 : ℕ
  pub arg3 : ℕ
  pub arg4 : ℕ
  pub arg5 : ℕ
  pub arg6 : ℕ

-- `syscall_handler_t`, for handlers that only answer.
abbrev pub Handler : Type 0
Handler = Args → ℤ

abbrev pub max_syscalls : ℕ
max_syscalls = 512

-- `g_syscall_table` and `g_syscall_names`, with `none` for NULL.
pub record Table : Type 0 where
  pub handlers : List (Option Handler)
  pub names : List (Option String)

unfoldable pub register_syscall : ℕ → Option Handler → Option String → Table → ℤ × Table
register_syscall nr handler name t =
    if leb max_syscalls nr
    then (error_invalid_arg, t)
    else (success, record { handlers = set t.handlers nr handler; names = set t.names nr name })

unfoldable pub call : Option Handler → Args → ℤ
call none args = error_not_supported
call (some handler) args = handler args

unfoldable pub syscall_dispatch : ℕ → Args → Table → ℤ
syscall_dispatch nr args t =
    if leb max_syscalls nr then error_not_supported else call (get_or t.handlers nr none) args
