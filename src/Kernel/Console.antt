-- ===== src/Kernel/Console.antt =====
-- What kernel/core/main.c writes to the serial console, and the calls that it makes.
use cellkernelqwen.Prelude.{ℕ, zero, suc, List, [], ◌∷◌, ◌++◌, map, get_or, bit_and, ◌>>>◌}

-- The initialisation functions, in the order of their declarations.
pub data Service : Type 0 where
  hal_early : Service
  memory_manager : Service
  scheduler : Service
  interrupt_controller : Service
  syscall : Service
  cell_subsystem : Service
  ipc_subsystem : Service
  capability_system : Service
  security_subsystem : Service
  driver_framework : Service
  vfs : Service

-- The literals that are printed, by what they say.
pub data Text : Type 0 where
  blank : Text
  banner : ℕ → Text
  loaded_at : Text
  to : Text
  map_title : Text
  map_columns : Text
  indent : Text
  gap : Text
  early_start : Text
  main_start : Text
  initialized : Service → Text
  all_initialized : Text
  booted : Text
  starting_cell : Text
  idle_loop : Text
  stub : Service → Text
  panic_title : Text
  halted : Text
  report : ℕ → Text
  register : ℕ → Text
  recursive_panic : Text
  colon : Text

-- A text that is printed, a character, or the call of a function outside the file.
pub data Event : Type 0 where
  say : Text → Event
  put : ℕ → Event
  call : Service → Event

-- The wait for the port is left out.
unfoldable pub serial_putc : ℕ → List Event
serial_putc c = put c ∷ []

unfoldable pub serial_print : Text → List Event
serial_print text = say text ∷ []

-- "0123456789ABCDEF".
abbrev pub hex : List ℕ
hex = 48 ∷ 49 ∷ 50 ∷ 51 ∷ 52 ∷ 53 ∷ 54 ∷ 55 ∷ 56 ∷ 57 ∷ 65 ∷ 66 ∷ 67 ∷ 68 ∷ 69 ∷ 70 ∷ []

-- The loop fills the buffer from its end, `rounds` being the places that are left.
unfoldable pub fill_hex : ℕ → ℕ → List ℕ → List ℕ
fill_hex zero val buf = buf
fill_hex (suc rounds) val buf = fill_hex rounds (val >>> 4) (get_or hex (bit_and val 0xF) 0 ∷ buf)

unfoldable pub serial_print_hex : ℕ → List Event
serial_print_hex val = map put (fill_hex 16 val [])

unfoldable pub serial_println : Text → List Event
serial_println text = serial_print text ++ serial_putc 13 ++ serial_putc 10
