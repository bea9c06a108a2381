-- ===== src/Paging/NoFrames.antt =====
-- The paging of kernel/memory/paging.c over the frame allocator of kernel/memory/frame_alloc.c.
use cellkernelqwen.Prelude.{ℕ, ◌≡◌, refl, List, eq→==}
use cellkernelqwen.Prelude.Status.{pos}
use cellkernelqwen.Frames.Zone.{Memory, Frames}
use cellkernelqwen.Frames.Init.{Descriptor, frame_allocator_init}
use cellkernelqwen.Frames.Alloc.{alloc_page}
use cellkernelqwen.Frames.Exhausted.{at_boot, init_exhausted}
use cellkernelqwen.Paging.Tables.{Platform, Space}
use cellkernelqwen.Paging.Start.{Cpu, paging_init_from, paging_init, enable_paging}

-- Pages of the DMA zone, with the two conversions of addresses.
abbrev pub frame_platform : (ℕ → ℕ) → (ℕ → ℕ) → Platform
frame_platform phys_to_virt virt_to_phys = record {
  Frames = Frames;
  alloc_page = alloc_page (pos 0);
  phys_to_virt = phys_to_virt;
  virt_to_phys = virt_to_phys;
}

module _ (phys_to_virt virt_to_phys : ℕ → ℕ) (memory : Memory) (ds : List Descriptor) where
  -- The state in which paging starts: the allocator has read the memory map.
  abbrev pub start_space : (ℕ → ℕ → ℕ) → List ℕ → Space (frame_platform phys_to_virt virt_to_phys)
  start_space tables flushed = record {
    tables = tables;
    frames = frame_allocator_init ds (at_boot memory);
    flushed = flushed;
  }

  null_page : (alloc_page (pos 0) (frame_allocator_init ds (at_boot memory))).0 ≡ 0
  unfolding alloc_page
  null_page = (init_exhausted memory ds).1 0 (pos 0)

  -- Once frame_allocator_init has read a memory map, paging_init leaves the root NULL and all tables
  -- as they were, for every map, and enable_paging with that root changes no register.
  pub paging_init-frame_allocator_init :
      (tables : ℕ → ℕ → ℕ) (flushed : List ℕ) (kernel_start kernel_end ecx : ℕ) (cpu : Cpu)
      → let P = frame_platform phys_to_virt virt_to_phys in
        let r = paging_init P kernel_start kernel_end (start_space tables flushed) in
        (r.0 ≡ 0) × (r.1.tables ≡ tables) × (enable_paging P r.0 ecx cpu ≡ cpu)
  unfolding paging_init paging_init_from enable_paging
  paging_init-frame_allocator_init tables flushed kernel_start kernel_end ecx cpu =
      rw (eq→== _ 0 null_page) (refl, refl, refl)
