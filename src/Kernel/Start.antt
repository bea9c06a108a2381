-- ===== src/Kernel/Start.antt =====
-- `kernel_main` of kernel/core/main.c and what it runs.
use cellkernelqwen.Prelude.{
  ℕ, zero, suc, ◌+◌, ◌/◌, Bool, Option, none, some, List, [], ◌∷◌, ◌++◌, map, ◌==◌, if◌then◌else◌,
}
use cellkernelqwen.Frames.Init.{Descriptor}
use cellkernelqwen.Kernel.Console.{
  Service, Event, put, call, blank, banner, loaded_at, to, map_title, map_columns, indent, gap,
  early_start, main_start, initialized, all_initialized, booted, starting_cell, idle_loop, stub,
  panic_title, halted, hal_early, memory_manager, scheduler, interrupt_controller, syscall,
  cell_subsystem, ipc_subsystem, capability_system, security_subsystem, driver_framework, vfs,
  serial_putc, serial_print, serial_print_hex, serial_println,
}

-- The eleven lines from the empty one to the empty one.
unfoldable pub print_banner : List Event
print_banner =
    serial_println blank
    ++ serial_println (banner 1)
    ++ serial_println (banner 2)
    ++ serial_println (banner 3)
    ++ serial_println (banner 4)
    ++ serial_println (banner 5)
    ++ serial_println blank
    ++ serial_println (banner 6)
    ++ serial_println (banner 7)
    ++ serial_println (banner 8)
    ++ serial_println blank

unfoldable pub print_descriptor : Descriptor → List Event
print_descriptor d =
    serial_print indent
    ++ serial_print_hex d.type
    ++ serial_print gap
    ++ serial_print_hex d.physical_start
    ++ serial_print gap
    ++ serial_print_hex d.num_pages
    ++ serial_print gap
    ++ serial_print_hex d.attribute
    ++ serial_putc 13
    ++ serial_putc 10

-- The memory that the boot loader left, as the descriptor that starts at an address.
abbrev pub Descriptors : Type 0
Descriptors = ℕ → Descriptor

unfoldable pub print_entries : ℕ → ℕ → ℕ → Descriptors → List Event
print_entries zero desc size memory = []
print_entries (suc rounds) desc size memory =
    print_descriptor (memory desc) ++ print_entries rounds (desc + size) size memory

-- `g_memory_map`, `g_memory_map_size` and `g_descriptor_size`.
pub record MemoryMap : Type 0 where
  pub start : ℕ
  pub size : ℕ
  pub descriptor_size : ℕ

-- `none` when the division by the size of a descriptor faults.
unfoldable pub print_memory_map : MemoryMap → Descriptors → Option (List Event)
print_memory_map m memory =
    if m.descriptor_size == 0
    then none
    else some (
        serial_println map_title
        ++ serial_println map_columns
        ++ print_entries (m.size / m.descriptor_size) m.start m.descriptor_size memory)

-- A function that no other file defines is the weak one of main.c, which prints a line.
unfoldable pub init : (Service → Bool) → Service → List Event
init strong service = if strong service then call service ∷ [] else serial_println (stub service)

-- A subsystem is initialised and the log says so.
unfoldable pub bring_up : (Service → Bool) → Service → List Event
bring_up strong service = init strong service ++ serial_println (initialized service)

unfoldable pub kernel_early_init : (Service → Bool) → List Event
kernel_early_init strong = serial_println early_start ++ bring_up strong hal_early

unfoldable pub kernel_main_init : (Service → Bool) → List Event
kernel_main_init strong =
    serial_println main_start
    ++ bring_up strong memory_manager
    ++ bring_up strong interrupt_controller
    ++ bring_up strong scheduler
    ++ bring_up strong syscall
    ++ bring_up strong capability_system
    ++ bring_up strong cell_subsystem
    ++ bring_up strong ipc_subsystem
    ++ bring_up strong security_subsystem
    ++ bring_up strong driver_framework
    ++ bring_up strong vfs
    ++ serial_println all_initialized

-- What is printed before the memory map, between the addresses of the kernel's two symbols.
unfoldable pub opening : ℕ → ℕ → List Event
opening kernel_start kernel_end =
    print_banner
    ++ serial_print loaded_at
    ++ serial_print_hex kernel_start
    ++ serial_print to
    ++ serial_print_hex kernel_end
    ++ serial_println blank

-- What follows the memory map, up to the idle loop.
unfoldable pub start_up : (Service → Bool) → List Event
start_up strong =
    kernel_early_init strong
    ++ kernel_main_init strong
    ++ serial_println blank
    ++ serial_println booted
    ++ serial_println starting_cell
    ++ serial_println idle_loop

unfoldable pub around : List Event → Option (List Event) → List Event → Option (List Event)
around before none after = none
around before (some events) after = some (before ++ events ++ after)

-- `kernel_main` up to the idle loop, which halts for ever; `none` when it stops at a fault.
unfoldable pub kernel_main :
    (Service → Bool) → ℕ → ℕ → MemoryMap → Descriptors → Option (List Event)
kernel_main strong kernel_start kernel_end m memory =
    around (opening kernel_start kernel_end) (print_memory_map m memory) (start_up strong)

-- The static `kernel_panic` up to the loop that halts, for a message of bytes. Nothing calls it.
unfoldable pub kernel_panic : List ℕ → List Event
kernel_panic msg =
    serial_println blank
    ++ serial_println panic_title
    ++ map put msg
    ++ serial_println blank
    ++ serial_println halted
