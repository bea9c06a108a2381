-- ===== src/Kernel/NoMemory.antt =====
-- The kernel's allocators together: kernel/memory/frame_alloc.c, kernel/memory/slab.c, and
-- `ipc_channel_create` of kernel/ipc/message.c as their client.
use cellkernelqwen.Prelude.{
  ℕ, ◌+◌, ◌^◌, ◌≤◌, ◌≡◌, refl, ap, inl, inr, arith, Bool-cases, Option, none, some, List, ◌==◌, leb,
  u32, add64, if◌then◌else◌,
}
use cellkernelqwen.Allocator.{Allocator}
use cellkernelqwen.Frames.Zone.{Memory}
use cellkernelqwen.Frames.Init.{Descriptor}
use cellkernelqwen.Slab.Cache.{Heap, Slabs}
use cellkernelqwen.Slab.General.{kmalloc, kfree}
use cellkernelqwen.Slab.Dry.{start_state, start_state-IsDry, kmalloc-IsNull}
use cellkernelqwen.Ipc.Create.{
  Registry, channel_size, max_channels, fill_channel, ipc_channel_create,
}

-- What a client sees of `kmalloc`; a request whose loop does not end counts as refused.
abbrev pub answer : Option (ℕ × Slabs) → Slabs → Option ℕ × Slabs
answer none s = (none, s)
answer (some (p, after)) s = (if p == 0 then none else some p, after)

abbrev pub slab_allocator : Allocator
slab_allocator = record {
  Heap = Slabs;
  kmalloc = λ s size. answer (kmalloc size s) s;
  kfree = λ s p. kfree p s;
}

refused :
    (g : Registry) (id sender receiver now : ℕ) (r : Option (ℕ × Slabs)) (s after : Slabs)
    → r ≡ some (0, after)
    → (fill_channel slab_allocator g id sender receiver now (answer r s)).0 ≡ none
unfolding fill_channel
refused g id sender receiver now r s after e =
    ap
      (λ (q : Option (ℕ × Slabs)).
        (fill_channel slab_allocator g id sender receiver now (answer q s)).0)
      e

-- Once frame_allocator_init has read any memory map and slab_init_subsystem has made its caches,
-- kmalloc returns NULL for every size up to 2^63 - 4096, and ipc_channel_create returns NULL.
pub ipc_channel_create-start_state :
    (memory : Memory) (heap : Heap) (ds : List Descriptor) (g : Registry) (sender receiver now : ℕ)
    → let s = start_state memory heap ds in
      ((size : ℕ) → size + 4096 ≤ 2 ^ 63 → (after : Slabs) × (kmalloc size s ≡ some (0, after)))
      × ((ipc_channel_create slab_allocator g sender receiver now s).0 ≡ none)
unfolding ipc_channel_create
ipc_channel_create-start_state memory heap ds g sender receiver now =
    let s = start_state memory heap ds in
    let dry = start_state-IsDry memory heap ds in
    let (after, null) = kmalloc-IsNull channel_size s dry (omega arith) in
    (
      λ size h. kmalloc-IsNull size s dry h,
      elim (Bool-cases (leb max_channels (u32 (add64 g.counter 1)))) [
        | inl full ↦ rw full refl
        | inr room ↦ rw room (refused _ _ sender receiver now (kmalloc channel_size s) s after null)
      ],
    )
