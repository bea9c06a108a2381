-- ===== src/Panic/Report.antt =====
-- `print_hexdump` and `kernel_panic` of kernel/core/panic.c.
use cellkernelqwen.Prelude.{
  ℕ, zero, suc, ◌+◌, ◌-◌, ◌/◌, Bool, true, Option, none, some, List, [], ◌∷◌, ◌++◌, map, replicate,
  get_or, ◌==◌, ◌&&◌, leb, ltb, min, bit_and, if◌then◌else◌,
}
use cellkernelqwen.Kernel.Console.{
  Event, put, blank, colon, gap, report, register, recursive_panic, serial_putc, serial_print,
  serial_print_hex, serial_println,
}
use cellkernelqwen.Panic.Dump.{Cpu, CrashDump, message_size, zero_dump, save_crash_dump}

-- The bytes of memory.
abbrev pub Bytes : Type 0
Bytes = ℕ → ℕ

unfoldable pub print_byte : ℕ → List Event
print_byte b =
    (if bit_and b 0xF0 == 0 then serial_putc 48 else []) ++ serial_print_hex b ++ serial_putc 32

-- `count` bytes from an address on, in hexadecimal and as characters.
unfoldable pub print_bytes : ℕ → ℕ → Bytes → List Event
print_bytes zero at memory = []
print_bytes (suc count) at memory = print_byte (memory at) ++ print_bytes count (at + 1) memory

unfoldable pub print_chars : ℕ → ℕ → Bytes → List Event
print_chars zero at memory = []
print_chars (suc count) at memory =
    let c = memory at in
    serial_putc (if leb 32 c && ltb c 127 then c else 46) ++ print_chars count (at + 1) memory

unfoldable pub print_row : ℕ → ℕ → Bytes → List Event
print_row count at memory =
    serial_print_hex at
    ++ serial_print colon
    ++ print_bytes count at memory
    ++ serial_print gap
    ++ print_chars count at memory
    ++ serial_putc 13
    ++ serial_putc 10

-- Rows of 16 bytes, the last with what is left.
unfoldable pub print_rows : ℕ → ℕ → ℕ → Bytes → List Event
print_rows zero at left memory = []
print_rows (suc rows) at left memory =
    print_row (min 16 left) at memory ++ print_rows rows (at + 16) (left - 16) memory

unfoldable pub print_hexdump : ℕ → ℕ → Bytes → List Event
print_hexdump addr len memory = print_rows ((len + 15) / 16) addr len memory

-- One register: its label, by its place in the report, and its value.
unfoldable pub print_register : ℕ → ℕ → List Event
print_register label value = serial_print (register label) ++ serial_print_hex value

unfoldable pub print_general : ℕ → ℕ → CrashDump → List Event
print_general first label d =
    print_register label (get_or d.general first 0)
    ++ print_register (label + 1) (get_or d.general (first + 1) 0)
    ++ print_register (label + 2) (get_or d.general (first + 2) 0)

unfoldable pub print_registers : CrashDump → List Event
print_registers d =
    serial_println (report 5)
    ++ print_general 0 0 d
    ++ print_register 3 (get_or d.general 3 0)
    ++ serial_putc 13
    ++ serial_putc 10
    ++ print_general 4 4 d
    ++ print_register 7 d.rsp
    ++ serial_putc 13
    ++ serial_putc 10
    ++ print_general 7 8 d
    ++ print_register 11 (get_or d.general 10 0)
    ++ serial_putc 13
    ++ serial_putc 10
    ++ print_general 11 12 d
    ++ print_register 15 (get_or d.general 14 0)
    ++ serial_putc 13
    ++ serial_putc 10
    ++ print_register 16 d.rip
    ++ print_register 17 d.cs
    ++ print_register 18 d.rflags
    ++ serial_putc 13
    ++ serial_putc 10
    ++ serial_println blank
    ++ serial_println (report 6)
    ++ print_register 19 d.cr0
    ++ print_register 20 d.cr2
    ++ serial_putc 13
    ++ serial_putc 10
    ++ print_register 21 d.cr3
    ++ print_register 22 d.cr4
    ++ serial_putc 13
    ++ serial_putc 10

unfoldable pub print_reason : Option (List ℕ) → List Event
print_reason none = []
print_reason (some msg) =
    serial_print (report 4)
    ++ map put msg
    ++ serial_putc 13
    ++ serial_putc 10
    ++ serial_println blank

-- What is printed before the dump is saved.
unfoldable pub print_opening : Option (List ℕ) → List Event
print_opening msg =
    serial_println blank
    ++ serial_println (report 1)
    ++ serial_println (report 2)
    ++ serial_println (report 1)
    ++ serial_println blank
    ++ print_reason msg

-- What is printed of the saved dump.
unfoldable pub print_rest : CrashDump → Bytes → List Event
print_rest d memory =
    print_registers d
    ++ serial_println blank
    ++ serial_println (report 7)
    ++ print_hexdump d.rsp 256 memory
    ++ serial_println blank
    ++ serial_println (report 1)
    ++ serial_println (report 3)
    ++ serial_println (report 1)

-- A call of kernel_panic: the processor, the message and the memory.
pub record Call : Type 0 where
  pub cpu : Cpu
  pub msg : Option (List ℕ)
  pub memory : Bytes

-- One step of kernel_panic: the test of `g_in_panic`, its setting, a character or literal printed, a
-- part of the dump written, and the report of the dump.
pub data Action : Type 0 where
  test : Call → Action
  set_flag : Action
  print : Event → Action
  save : CrashDump → Action
  show : Bytes → Action

abbrev pub prints : List Event → List Action
prints events = map (λ e. print e) events

-- `g_in_panic` and `g_crash_dump`, what was printed, and the steps that the innermost call has left.
-- At none the processor halts for ever.
pub record Panic : Type 0 where
  pub in_panic : Bool
  pub crash_dump : CrashDump
  pub log : List Event
  pub left : List Action

-- The dump cleared, then filled but for the message, then with the message.
abbrev pub saves : Call → List Action
saves c =
    let d = save_crash_dump c.cpu c.msg 0 in
    save zero_dump ∷ save (record d { message = replicate message_size 0 }) ∷ save d ∷ []

-- The steps of a call past the test of `g_in_panic`.
abbrev pub report_steps : Call → List Action
report_steps c = prints (print_opening c.msg) ++ (saves c ++ (show c.memory ∷ []))

unfoldable pub perform : Action → List Action → Panic → Panic
perform (test c) rest s = record s {
  left = if s.in_panic then prints (serial_println recursive_panic) else set_flag ∷ report_steps c;
}
perform set_flag rest s = record s { in_panic = true; left = rest }
perform (print e) rest s = record s { log = s.log ++ (e ∷ []); left = rest }
perform (save d) rest s = record s { crash_dump = d; left = rest }
perform (show memory) rest s = record s { left = prints (print_rest s.crash_dump memory) ++ rest }

-- The next step of the innermost call, none once it halts.
unfoldable pub step : List Action → Panic → Panic
step [] s = s
step (a ∷ rest) s = perform a rest s

-- A call, also from a fault inside another, which is never taken up again.
unfoldable pub kernel_panic : Call → Panic → Panic
kernel_panic c s = record s { left = test c ∷ [] }
