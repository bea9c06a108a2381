-- ===== src/Allocator.antt =====
-- The interface between the kernel's allocator (kernel/memory/slab.c, `kmalloc` and `kfree`) and
-- its clients, which declare the two as external functions. A heap is whatever state the allocator
-- keeps; NULL is `none`.
use cellkernelqwen.Prelude.{ℕ, Option}

pub record Allocator : Type 1 where
  pub Heap : Type 0
  pub kmalloc : Heap → ℕ → Option ℕ × Heap
  pub kfree : Heap → ℕ → Heap
