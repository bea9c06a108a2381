-- ===== src/Panic/Dump.antt =====
-- The crash dump of kernel/core/panic.c.
use cellkernelqwen.Prelude.{ℕ, ◌-◌, Option, none, some, List, ◌++◌, take, replicate}

abbrev pub panic_magic : ℕ
panic_magic = 0xDEADBEEF

abbrev pub crash_dump_version : ℕ
crash_dump_version = 1

abbrev pub message_size : ℕ
message_size = 256

-- What the processor holds when the dump is saved.
pub record Cpu : Type 0 where
  pub id : ℕ
  pub cr0 : ℕ
  pub cr2 : ℕ
  pub cr3 : ℕ
  pub cr4 : ℕ
  pub rsp : ℕ
  pub rip : ℕ
  pub rflags : ℕ

-- The general registers that the code sets to 0 are one field each in C; here they are the list of
-- rax, rbx, rcx, rdx, rsi, rdi, rbp and r8 to r15.
pub record CrashDump : Type 0 where
  pub magic : ℕ
  pub version : ℕ
  pub timestamp : ℕ
  pub panic_cpu : ℕ
  pub cr0 : ℕ
  pub cr2 : ℕ
  pub cr3 : ℕ
  pub cr4 : ℕ
  pub general : List ℕ
  pub rsp : ℕ
  pub rip : ℕ
  pub cs : ℕ
  pub rflags : ℕ
  pub error_code : ℕ
  pub message : List ℕ

-- `strncpy` of one byte less than the buffer into zeros, of the bytes of a message before its NUL.
unfoldable pub copy_message : Option (List ℕ) → List ℕ
copy_message none = replicate message_size 0
copy_message (some msg) =
    take message_size (take (message_size - 1) msg ++ replicate message_size 0)

-- After `memset`.
abbrev pub zero_dump : CrashDump
zero_dump = record {
  magic = 0;
  version = 0;
  timestamp = 0;
  panic_cpu = 0;
  cr0 = 0;
  cr2 = 0;
  cr3 = 0;
  cr4 = 0;
  general = replicate 15 0;
  rsp = 0;
  rip = 0;
  cs = 0;
  rflags = 0;
  error_code = 0;
  message = replicate message_size 0;
}

unfoldable pub save_crash_dump : Cpu → Option (List ℕ) → ℕ → CrashDump
save_crash_dump cpu msg error_code = record {
  magic = panic_magic;
  version = crash_dump_version;
  timestamp = 0;
  panic_cpu = cpu.id;
  cr0 = cpu.cr0;
  cr2 = cpu.cr2;
  cr3 = cpu.cr3;
  cr4 = cpu.cr4;
  general = replicate 15 0;
  rsp = cpu.rsp;
  rip = cpu.rip;
  cs = 0;
  rflags = cpu.rflags;
  error_code = error_code;
  message = copy_message msg;
}
