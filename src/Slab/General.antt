-- ===== src/Slab/General.antt =====
-- `kmalloc` and `kfree` of kernel/memory/slab.c.
use cellkernelqwen.Prelude.{
  ℕ, zero, suc, ◌+◌, ◌*◌, ◌^◌, Option, none, some, List, [], ◌∷◌, ◌==◌, leb, ltb, if◌then◌else◌,
  u64,
}
use cellkernelqwen.Prelude.Status.{pos}
use cellkernelqwen.Frames.Alloc.{alloc_pages}
use cellkernelqwen.Slab.Cache.{Cache, Slabs, page_size, max_object_size}
use cellkernelqwen.Slab.Lists.{find_slab, max_slabs}
use cellkernelqwen.Slab.Alloc.{kmem_cache_alloc}
use cellkernelqwen.Slab.Free.{kmem_cache_free}

-- The first cache, from number `i` on, whose objects are large enough.
unfoldable pub first_cache : ℕ → ℕ → List Cache → Option ℕ
first_cache size i [] = none
first_cache size i (c ∷ cs) =
    let rest = first_cache size (i + 1) cs in if leb size c.object_size then some i else rest

-- The loop that raises the order, over the orders that a shift of a 64-bit word allows; `none` when
-- it passes all of them.
unfoldable pub order_from : ℕ → ℕ → ℕ → Option ℕ
order_from zero order alloc_size = none
order_from (suc rounds) order alloc_size =
    let rest = order_from rounds (order + 1) alloc_size in
    if ltb (u64 (2 ^ order * page_size)) alloc_size then rest else some order

unfoldable pub order_for : ℕ → Option ℕ
order_for size = order_from 64 0 (u64 (size + page_size))

unfoldable pub take_pages : Option ℕ → Slabs → Option (ℕ × Slabs)
take_pages none s = none
take_pages (some order) s =
    let (page, frames) = alloc_pages order (pos 0) s.frames in
    some (page, record { caches = s.caches; heap = s.heap; frames = frames })

unfoldable pub kmalloc_from : Option ℕ → ℕ → Slabs → Option (ℕ × Slabs)
kmalloc_from (some i) size s = some (kmem_cache_alloc (some i) s)
kmalloc_from none size s =
    if ltb max_object_size size then take_pages (order_for size) s else some (0, s)

-- The block, 0 for NULL; `none` when the loop over the orders does not end.
unfoldable pub kmalloc : ℕ → Slabs → Option (ℕ × Slabs)
kmalloc size s = kmalloc_from (first_cache size 0 s.caches) size s

-- The caches from number `i` on.
unfoldable pub kfree_from : ℕ → List Cache → ℕ → Slabs → Slabs
kfree_from i [] ptr s = s
kfree_from i (c ∷ cs) ptr s =
    let rest = kfree_from (i + 1) cs ptr s in
    if find_slab max_slabs c.slabs_partial c.aligned_size ptr s.heap == 0
    then rest
    else kmem_cache_free (some i) ptr s

unfoldable pub kfree : ℕ → Slabs → Slabs
kfree ptr s = if ptr == 0 then s else kfree_from 0 s.caches ptr s
