-- ===== src/Kernel/Calls.antt =====
-- What `kernel_main` of kernel/core/main.c calls and what it reports.
use cellkernelqwen.Prelude.{
  ℕ, zero, suc, ◌+◌, ◌/◌, ◌≡◌, ◌≢◌, refl, sym, ap, ◌∙◌, inl, inr, Bool, Bool-cases, some, List, [],
  ◌∷◌, ◌++◌, append-nil, append_assoc, drop, map, ne→==, if◌then◌else◌,
}
use cellkernelqwen.Frames.Init.{Descriptor}
use cellkernelqwen.Kernel.Console.{
  Service, Text, Event, say, put, call, initialized, hal_early, memory_manager, scheduler,
  interrupt_controller, syscall, cell_subsystem, ipc_subsystem, capability_system,
  security_subsystem, driver_framework, vfs, serial_putc, serial_print, fill_hex, serial_print_hex,
  serial_println, all_initialized, blank, booted, starting_cell, idle_loop, loaded_at, to, indent,
  gap, main_start, early_start, map_title, map_columns,
}
use cellkernelqwen.Kernel.Start.{
  MemoryMap, Descriptors, print_banner, print_descriptor, print_entries, print_memory_map, init,
  bring_up, kernel_early_init, kernel_main_init, around, kernel_main, opening, start_up,
}

-- The functions that are called, in order.
abbrev pub calls : List Event → List Service
calls [] = []
calls (say t ∷ es) = calls es
calls (put c ∷ es) = calls es
calls (call s ∷ es) = s ∷ calls es

-- The subsystems that the log calls initialised, in order.
abbrev pub reports : List Event → List Service
reports [] = []
reports (say (initialized s) ∷ es) = s ∷ reports es
reports (say _ ∷ es) = reports es
reports (put c ∷ es) = reports es
reports (call s ∷ es) = reports es

abbrev pub filter : (Service → Bool) → List Service → List Service
filter strong [] = []
filter strong (s ∷ ss) = if strong s then s ∷ filter strong ss else filter strong ss

-- The order in which the subsystems are brought up.
abbrev pub start_order : List Service
start_order =
    hal_early ∷ memory_manager ∷ interrupt_controller ∷ scheduler ∷ syscall ∷ capability_system
    ∷ cell_subsystem ∷ ipc_subsystem ∷ security_subsystem ∷ driver_framework ∷ vfs ∷ []

filter-append :
    (strong : Service → Bool) (ss ts us : List Service)
    → filter strong (ss ++ ts) ++ us ≡ filter strong ss ++ (filter strong ts ++ us)
filter-append strong [] ts us = refl
filter-append strong (s ∷ ss) ts us = elim (Bool-cases (strong s)) [
  | inl e ↦ rw e (ap (λ rs. s ∷ rs) (filter-append strong ss ts us))
  | inr e ↦ rw e (filter-append strong ss ts us)
]

module _ (strong : Service → Bool) where
  -- The events bring up some subsystems, in order: those that are there are called, and all are
  -- reported.
  pub record Runs (es : List Event) (ss : List Service) : Type 0 where
    pub called : (fs : List Event) → calls (es ++ fs) ≡ filter strong ss ++ calls fs
    pub reported : (fs : List Event) → reports (es ++ fs) ≡ ss ++ reports fs

  infixl 20 ◌▷◌
  ◌▷◌ :
      {es fs : List Event} {ss ts : List Service}
      → Runs es ss
      → Runs fs ts
      → Runs (es ++ fs) (ss ++ ts)
  ◌▷◌ {es} {fs} {ss} {ts} p q = record {
    called = λ gs.
        ap calls (append_assoc es fs gs)
        ∙ p.called (fs ++ gs)
        ∙ ap (λ rs. filter strong ss ++ rs) (q.called gs)
        ∙ sym (filter-append strong ss ts (calls gs));
    reported = λ gs.
        ap reports (append_assoc es fs gs)
        ∙ p.reported (fs ++ gs)
        ∙ ap (λ rs. ss ++ rs) (q.reported gs)
        ∙ sym (append_assoc ss ts (reports gs));
  }

  Runs-put : (cs : List ℕ) → Runs (map put cs) []
  Runs-put [] = record { called = λ fs. refl; reported = λ fs. refl }
  Runs-put (c ∷ cs) = record { called = (Runs-put cs).called; reported = (Runs-put cs).reported }

  Runs-hex : (v : ℕ) → Runs (serial_print_hex v) []
  unfolding serial_print_hex
  Runs-hex v = Runs-put (fill_hex 16 v [])

  -- A text that is no report.
  Runs-text :
      (t : Text)
      → ((fs : List Event) → reports (say t ∷ fs) ≡ reports fs)
      → Runs (serial_print t) []
  unfolding serial_print
  Runs-text t other = record { called = λ fs. refl; reported = other }

  Runs-line :
      (t : Text)
      → ((fs : List Event) → reports (say t ∷ fs) ≡ reports fs)
      → Runs (serial_println t) []
  unfolding serial_println serial_print serial_putc
  Runs-line t other = record { called = λ fs. refl; reported = λ fs. other (put 13 ∷ put 10 ∷ fs) }

  Runs-putc : (c : ℕ) → Runs (serial_putc c) []
  unfolding serial_putc
  Runs-putc c = record { called = λ fs. refl; reported = λ fs. refl }

  Runs-descriptor : (d : Descriptor) → Runs (print_descriptor d) []
  unfolding print_descriptor
  Runs-descriptor d =
      (Runs-text indent (λ fs. refl))
      ▷ (Runs-hex d.type)
      ▷ (Runs-text gap (λ fs. refl))
      ▷ (Runs-hex d.physical_start)
      ▷ (Runs-text gap (λ fs. refl))
      ▷ (Runs-hex d.num_pages)
      ▷ (Runs-text gap (λ fs. refl))
      ▷ (Runs-hex d.attribute)
      ▷ Runs-putc 13
      ▷ Runs-putc 10

  Runs-entries :
      (rounds desc size : ℕ) (memory : Descriptors)
      → Runs (print_entries rounds desc size memory) []
  unfolding print_entries
  Runs-entries zero desc size memory = record { called = λ fs. refl; reported = λ fs. refl }
  Runs-entries (suc rounds) desc size memory =
      (Runs-descriptor (memory desc)) ▷ (Runs-entries rounds (desc + size) size memory)

  Runs-up : (s : Service) → Runs (bring_up strong s) (s ∷ [])
  unfolding bring_up init serial_println serial_print serial_putc
  Runs-up s = elim (Bool-cases (strong s)) [
    | inl e ↦ record { called = λ fs. rw e refl; reported = λ fs. rw e refl }
    | inr e ↦ record { called = λ fs. rw e refl; reported = λ fs. rw e refl }
  ]

  Runs-early : Runs (kernel_early_init strong) (hal_early ∷ [])
  unfolding kernel_early_init
  Runs-early = (Runs-line early_start (λ fs. refl)) ▷ Runs-up hal_early

  Runs-main : Runs (kernel_main_init strong) (drop 1 start_order)
  unfolding kernel_main_init
  Runs-main =
      (Runs-line main_start (λ fs. refl))
      ▷ Runs-up memory_manager
      ▷ Runs-up interrupt_controller
      ▷ Runs-up scheduler
      ▷ Runs-up syscall
      ▷ Runs-up capability_system
      ▷ Runs-up cell_subsystem
      ▷ Runs-up ipc_subsystem
      ▷ Runs-up security_subsystem
      ▷ Runs-up driver_framework
      ▷ Runs-up vfs
      ▷ (Runs-line all_initialized (λ fs. refl))

  Runs-after : Runs (start_up strong) start_order
  unfolding start_up
  Runs-after =
      Runs-early
      ▷ Runs-main
      ▷ (Runs-line blank (λ fs. refl))
      ▷ (Runs-line booted (λ fs. refl))
      ▷ (Runs-line starting_cell (λ fs. refl))
      ▷ (Runs-line idle_loop (λ fs. refl))

  Runs-map :
      (m : MemoryMap) (memory : Descriptors)
      → m.descriptor_size ≢ 0
      → (es : List Event) × (print_memory_map m memory ≡ some es) × Runs es []
  unfolding print_memory_map
  Runs-map m memory real =
      let entries = Runs-entries (m.size / m.descriptor_size) m.start m.descriptor_size memory in
      rw (ne→== m.descriptor_size 0 real) (
        _,
        refl,
        (Runs-line map_title (λ fs. refl)) ▷ (Runs-line map_columns (λ fs. refl)) ▷ entries,
      )

  Runs-banner : Runs print_banner []
  unfolding print_banner serial_println serial_print serial_putc
  Runs-banner = record { called = λ fs. refl; reported = λ fs. refl }

  Runs-before : (kernel_start kernel_end : ℕ) → Runs (opening kernel_start kernel_end) []
  unfolding opening
  Runs-before kernel_start kernel_end =
      Runs-banner
      ▷ (Runs-text loaded_at (λ fs. refl))
      ▷ Runs-hex kernel_start
      ▷ (Runs-text to (λ fs. refl))
      ▷ Runs-hex kernel_end
      ▷ (Runs-line blank (λ fs. refl))

  -- With a memory map whose descriptors have a size, kernel_main calls those of the subsystems that
  -- are linked, in the order HAL, memory manager, interrupt controller, scheduler, system calls,
  -- capabilities, cells, IPC, security, drivers, VFS, and it reports all eleven as initialised, in that
  -- order, the missing ones as well.
  pub kernel_main-Runs :
      (kernel_start kernel_end : ℕ) (m : MemoryMap) (memory : Descriptors)
      → m.descriptor_size ≢ 0
      → (es : List Event) × (kernel_main strong kernel_start kernel_end m memory ≡ some es)
        × (calls es ≡ filter strong start_order)
        × (reports es ≡ start_order)
  unfolding kernel_main around
  kernel_main-Runs kernel_start kernel_end m memory real =
      let (es, printed, quiet) = Runs-map m memory real in
      let all = Runs-before kernel_start kernel_end ▷ quiet ▷ Runs-after in
      let events = opening kernel_start kernel_end ++ es ++ start_up strong in
      (
        events,
        ap (λ o. around (opening kernel_start kernel_end) o (start_up strong)) printed,
        ap calls (sym (append-nil events)) ∙ all.called [] ∙ append-nil (filter strong start_order),
        ap reports (sym (append-nil events)) ∙ all.reported [] ∙ append-nil start_order,
      )
