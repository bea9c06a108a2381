-- ===== src/Panic/Tests.antt =====
-- The report of kernel/core/panic.c on a concrete machine.
use cellkernelqwen.Prelude.{
  ℕ, ◌≡◌, refl, false, none, some, List, [], ◌∷◌, length, get_or, ltb, if◌then◌else◌,
}
use cellkernelqwen.Kernel.Console.{
  serial_print_hex, fill_hex, serial_putc, serial_println, serial_print,
}
use cellkernelqwen.Panic.Dump.{Cpu, save_crash_dump}
use cellkernelqwen.Panic.Report.{Panic, Call, kernel_panic, perform, step, print_byte}
use cellkernelqwen.Panic.Message.{byte_of}
use cellkernelqwen.Panic.Steps.{Move, tick, fault, run, dump_of, Reaches, halted}
use cellkernelqwen.Panic.Kept.{IsKept}
use cellkernelqwen.Panic.First.{flag_set, kernel_panic_first}

abbrev cpu : ℕ → Cpu
cpu rsp = record {
  id = 0;
  cr0 = 1;
  cr2 = 0;
  cr3 = 4096;
  cr4 = 32;
  rsp = rsp;
  rip = 0x100000;
  rflags = 2;
}

-- The message is "no".
abbrev first_call : Call
first_call = record { cpu = cpu 0x8000; msg = some (110 ∷ 111 ∷ []); memory = λ a. 0 }

abbrev second_call : Call
second_call = record { cpu = cpu 0x7000; msg = none; memory = λ a. 1 }

abbrev calm : Panic
calm = record { in_panic = false; crash_dump = save_crash_dump (cpu 0) none 0; log = []; left = [] }

-- One step, a fault, the line on recursion begun, another fault.
abbrev faults : List Move
faults = tick ∷ fault second_call ∷ tick ∷ tick ∷ fault first_call ∷ tick ∷ []

kernel_panic_first_example :
    Reaches (kernel_panic first_call calm) (halted first_call [])
    × (length (dump_of first_call).message ≡ 256)
    × ((i : ℕ)
        → get_or (dump_of first_call).message i 0
          ≡ (if ltb i 255 then byte_of (some (110 ∷ 111 ∷ [])) i else 0))
    × IsKept first_call (save_crash_dump (cpu 0) none 0) [] (run faults (flag_set first_call calm))
kernel_panic_first_example = kernel_panic_first first_call calm faults refl

-- A second panic before the report leaves the dump of before.
keeps_dump :
    (run (fault second_call ∷ tick ∷ tick ∷ []) (flag_set first_call calm)).crash_dump
    ≡ save_crash_dump (cpu 0) none 0
unfolding kernel_panic step perform serial_println save_crash_dump serial_print
keeps_dump = refl

-- A small byte takes 18 characters.
small_byte : length (print_byte 7) ≡ 18
unfolding print_byte serial_print_hex fill_hex serial_putc
small_byte = refl
