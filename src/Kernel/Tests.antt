-- ===== src/Kernel/Tests.antt =====
-- The start of the kernel, kernel/core/main.c, with the subsystems that the repository defines.
use cellkernelqwen.Prelude.{
  ℕ, ◌+◌, ◌^◌, ◌≤◌, ◌≡◌, refl, Bool, true, false, arith, none, some, Option, ap, ◌∙◌, ◌==◌,
  if◌then◌else◌, replicate, List, [], ◌∷◌, length, map,
}
use cellkernelqwen.Frames.Init.{Descriptor}
use cellkernelqwen.Slab.Cache.{Slab, Slabs}
use cellkernelqwen.Slab.General.{kmalloc}
use cellkernelqwen.Slab.Dry.{start_state}
use cellkernelqwen.Ipc.Create.{ipc_subsystem_init, ipc_channel_create}
use cellkernelqwen.Prelude.Status.{pos}
use cellkernelqwen.Frames.Zone.{Frames, empty_area, empty_zone}
use cellkernelqwen.Frames.Alloc.{
  alloc_pages, alloc_pages_zone, alloc_levels, pop_block, zone_index, split_found,
}
use cellkernelqwen.Slab.Layout.{start_caches}
use cellkernelqwen.Slab.General.{order_from, order_for, take_pages}
use cellkernelqwen.Slab.Pages.{IsUnlisted, kmalloc-take_pages}
use cellkernelqwen.Ipc.Channel.{Channel, queue_size}
use cellkernelqwen.Ipc.Create.{
  channel_size, zero_message, new_channel, alloc_nodes, fill_channel, destroy,
}
use cellkernelqwen.Ipc.Spec.{Op, sends, receives}
use cellkernelqwen.Ipc.Kept.{after}
use cellkernelqwen.Kernel.Leak.{destroy-after-create}
use cellkernelqwen.Kernel.Console.{
  Service, Event, put, scheduler, interrupt_controller, syscall, ipc_subsystem, vfs, fill_hex,
  serial_print_hex,
}
use cellkernelqwen.Kernel.Start.{MemoryMap, Descriptors, kernel_main}
use cellkernelqwen.Kernel.Hex.{read_events, read_events-serial_print_hex}
use cellkernelqwen.Kernel.NoMemory.{answer, slab_allocator, ipc_channel_create-start_state}
use cellkernelqwen.Kernel.Calls.{calls, reports, filter, start_order, kernel_main-Runs}

-- The functions that some other file of the kernel defines.
abbrev linked : Service → Bool
linked scheduler = true
linked interrupt_controller = true
linked syscall = true
linked ipc_subsystem = true
linked vfs = true
linked _ = false

abbrev no_slab : Slab
no_slab = record {
  cache = 0;
  magic = 0;
  inuse = 0;
  total = 0;
  freelist = 0;
  objects = 0;
  next = 0;
  prev = 0;
}

abbrev one_entry : MemoryMap
one_entry = record { start = 0x9000; size = 48; descriptor_size = 48 }

abbrev low_memory : Descriptors
low_memory a = record {
  type = 7;
  physical_start = 0x100000;
  virtual_start = 0;
  num_pages = 256;
  attribute = 15;
}

kernel_main-Runs_example :
    (es : List Event) × (kernel_main linked 0x100000 0x140000 one_entry low_memory ≡ some es)
    × (calls es ≡ filter linked start_order)
    × (reports es ≡ start_order)
kernel_main-Runs_example =
    kernel_main-Runs linked 0x100000 0x140000 one_entry low_memory (λ e. omega (arith, e))

-- The memory manager is not among them.
called_subsystems :
    filter linked start_order
    ≡ interrupt_controller ∷ scheduler ∷ syscall ∷ ipc_subsystem ∷ vfs ∷ []
called_subsystems = refl

read_events-serial_print_hex_example :
    (length (serial_print_hex 0xDEADBEEF) ≡ 16)
    × (read_events 0 (serial_print_hex 0xDEADBEEF) ≡ some 0xDEADBEEF)
read_events-serial_print_hex_example = read_events-serial_print_hex 0xDEADBEEF (omega arith)

printed_number :
    serial_print_hex 0x1F
    ≡ map put (48 ∷ 48 ∷ 48 ∷ 48 ∷ 48 ∷ 48 ∷ 48 ∷ 48 ∷ 48 ∷ 48 ∷ 48 ∷ 48 ∷ 48 ∷ 48 ∷ 49 ∷ 70 ∷ [])
unfolding serial_print_hex fill_hex
printed_number = refl

abbrev one_range : List Descriptor
one_range = low_memory 0 ∷ []

ipc_channel_create-start_state_example :
    let s = start_state (λ a. 0) (λ a. no_slab) one_range in
    ((size : ℕ) → size + 4096 ≤ 2 ^ 63 → (after : Slabs) × (kmalloc size s ≡ some (0, after)))
    × ((ipc_channel_create slab_allocator ipc_subsystem_init 1 2 0 s).0 ≡ none)
ipc_channel_create-start_state_example =
    ipc_channel_create-start_state (λ a. 0) (λ a. no_slab) one_range ipc_subsystem_init 1 2 0

-- The DMA zone lists 2000 blocks of four pages, one after the other.
abbrev many_blocks : Frames
many_blocks = record {
  zones =
      record {
        areas =
            empty_area
            ∷ empty_area
            ∷ record { nr_free = 2000; free_list = 0x2000000 }
            ∷ replicate 9 empty_area;
        start_pfn = 0x2000;
        size = 8000;
      }
      ∷ replicate 2 empty_zone;
  total_pages = 8000;
  free_pages_count = 8000;
  memory = λ a. a + 0x4000;
}

abbrev stocked : Slabs
stocked = record { caches = start_caches; heap = λ a. no_slab; frames = many_blocks }

abbrev without_first : Slabs
without_first = record {
  caches = start_caches;
  heap = λ a. no_slab;
  frames = (alloc_pages 2 (pos 0) many_blocks).1;
}

abbrev made : Channel
made = new_channel 0x2000000 3 4 50 (alloc_nodes slab_allocator queue_size without_first).0

four_pages : order_for channel_size ≡ some 2
unfolding order_for order_from
four_pages = refl

first_block : (alloc_pages 2 (pos 0) many_blocks).0 ≡ 0x2000000
unfolding alloc_pages alloc_pages_zone alloc_levels pop_block zone_index split_found
first_block = refl

first_answer : answer (kmalloc channel_size stocked) stocked ≡ (some 0x2000000, without_first)
unfolding take_pages
first_answer =
    ap (λ q. answer q stocked)
      (kmalloc-take_pages channel_size 2 stocked refl (omega arith) four_pages)
    ∙ ap (λ (p : ℕ). ((if p == 0 then none else some p), without_first)) first_block

made_lem : (ipc_channel_create slab_allocator ipc_subsystem_init 3 4 50 stocked).0 ≡ some made
unfolding ipc_channel_create ipc_subsystem_init fill_channel
made_lem =
    ap
      (λ (q : Option ℕ × Slabs).
        (fill_channel slab_allocator (record ipc_subsystem_init { counter = 1 }) 1 3 4 50 q).0)
      first_answer

unlisted : (p : ℕ) → IsUnlisted stocked.heap p stocked.caches
unlisted p = (
  ([], omega arith, refl),
  (
    ([], omega arith, refl),
    (
      ([], omega arith, refl),
      (
        ([], omega arith, refl),
        (([], omega arith, refl), (([], omega arith, refl), (([], omega arith, refl), tt))),
      ),
    ),
  ),
)

abbrev calls_of_client : List Op
calls_of_client = sends 60 zero_message ∷ receives ∷ receives ∷ []

destroy-after-create_example :
    let left = (ipc_channel_create slab_allocator ipc_subsystem_init 3 4 50 stocked).2 in
    (0x2000000 ≡ (alloc_pages 2 (pos 0) many_blocks).0)
    × (left.caches ≡ start_caches)
    × (left.heap ≡ stocked.heap)
    × (destroy slab_allocator (after made calls_of_client) left ≡ (none, left))
destroy-after-create_example =
    destroy-after-create ipc_subsystem_init 3 4 50 stocked calls_of_client made refl made_lem
      (λ p within. unlisted p)
