-- ===== src/Syscalls/Tests.antt =====
-- The system call table of kernel/core/syscalls.c on single calls.
use cellkernelqwen.Prelude.{◌≡◌, refl}
use cellkernelqwen.Prelude.Status.{pos, error_not_supported}
use cellkernelqwen.Syscalls.Table.{Args, Handler, syscall_dispatch}
use cellkernelqwen.Syscalls.Start.{syscall_init}
use cellkernelqwen.Syscalls.Answers.{answer, syscall_dispatch-syscall_init}

abbrev some_args : Args
some_args = record { arg1 = 3; arg2 = 0; arg3 = 16; arg4 = 0; arg5 = 0; arg6 = 0 }

abbrev first_argument : Handler
first_argument a = pos a.arg1

syscall_dispatch-syscall_init_example : syscall_dispatch 303 some_args syscall_init ≡ answer 303
syscall_dispatch-syscall_init_example = syscall_dispatch-syscall_init 303 some_args

send_unsupported : answer 303 ≡ error_not_supported
unfolding answer
send_unsupported = refl
