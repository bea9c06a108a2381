-- ===== src/Syscalls/Start.antt =====
-- The handlers of kernel/core/syscalls.c, `syscall_init` and the registers that it writes.
use Prim.Native.String.{String}
use cellkernelqwen.Prelude.{ℕ, none, some, List, [], ◌∷◌, replicate, bit_and, bit_or, ◌>>>◌}
use cellkernelqwen.Prelude.Status.{ℤ, pos, error_not_supported}
use cellkernelqwen.Syscalls.Table.{Handler, Table, max_syscalls, register_syscall}

unfoldable pub sys_read : ℕ → ℕ → ℕ → ℤ
sys_read fd buf count = error_not_supported

unfoldable pub sys_write : ℕ → ℕ → ℕ → ℤ
sys_write fd buf count = error_not_supported

unfoldable pub sys_exit : ℕ → ℤ
sys_exit status = pos 0

unfoldable pub sys_getpid : ℤ
sys_getpid = pos 1

unfoldable pub sys_cell_create : ℕ → ℕ → ℤ
sys_cell_create config flags = error_not_supported

unfoldable pub sys_ipc_send : ℕ → ℕ → ℕ → ℤ
sys_ipc_send channel msg size = error_not_supported

unfoldable pub sys_ipc_recv : ℕ → ℕ → ℕ → ℤ
sys_ipc_recv channel msg size = error_not_supported

unfoldable pub empty_table : Table
empty_table = record { handlers = replicate max_syscalls none; names = replicate max_syscalls none }

abbrev install : ℕ → Handler → String → Table → Table
install nr handler name t = (register_syscall nr (some handler) (some name) t).1

-- The table after `syscall_init`, which ignores what register_syscall returns.
unfoldable pub syscall_init : Table
syscall_init =
    install 304 (λ a. sys_ipc_recv a.arg1 a.arg2 a.arg3) "ipc_recv"
      (install 303 (λ a. sys_ipc_send a.arg1 a.arg2 a.arg3) "ipc_send"
        (install 300 (λ a. sys_cell_create a.arg1 a.arg2) "cell_create"
          (install 39 (λ a. sys_getpid) "getpid"
            (install 60 (λ a. sys_exit a.arg1) "exit"
              (install 1 (λ a. sys_write a.arg1 a.arg2 a.arg3) "write"
                (install 0 (λ a. sys_read a.arg1 a.arg2 a.arg3) "read" empty_table))))))

-- A `wrmsr`: the register with the low and the high half of the value.
pub record Write : Type 0 where
  pub register : ℕ
  pub low : ℕ
  pub high : ℕ

unfoldable pub write_halves : ℕ → ℕ → Write
write_halves register value = record {
  register = register;
  low = bit_and value 0xFFFFFFFF;
  high = value >>> 32;
}

-- The writes of `syscall_init`, from the address of the entry point and from what was read of EFER.
unfoldable pub msr_writes : ℕ → ℕ → List Write
msr_writes entry efer =
    write_halves 0xC0000082 entry
    ∷ record { register = 0xC0000084; low = 0x00200200; high = 0 }
    ∷ record { register = 0xC0000102; low = 0; high = 0 }
    ∷ write_halves 0xC0000080 (bit_or efer 1)
    ∷ []
