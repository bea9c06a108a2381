-- ===== src/Slab/Free.antt =====
-- `kmem_cache_free` of kernel/memory/slab.c.
use cellkernelqwen.Prelude.{
  ℕ, ◌+◌, ◌-◌, ◌%◌, ◌^◌, Option, none, some, set, ◌==◌, ◌||◌, sub64, not, if◌then◌else◌,
}
use cellkernelqwen.Frames.Zone.{store}
use cellkernelqwen.Slab.Cache.{Cache, Heap, Slabs, cache_at, slab_magic}
use cellkernelqwen.Slab.Lists.{
  put_slab, with_objects, push, drop_head, unlink, find_slab, max_slabs,
}
use cellkernelqwen.Slab.Alloc.{with_lists, with_counts, with_memory, with_cache}

-- The slab of an object: on the partial list or else on the full one.
unfoldable pub holder : Cache → ℕ → Heap → ℕ
holder c obj heap =
    let slab = find_slab max_slabs c.slabs_partial c.aligned_size obj heap in
    let full = find_slab max_slabs c.slabs_full c.aligned_size obj heap in
    if slab == 0 then full else slab

-- A slab without objects in use goes to the free list.
unfoldable pub retire : ℕ → ℕ → Slabs → Slabs
retire i slab s =
    let c = cache_at i s in
    let (head, out) = unlink slab c.slabs_partial s.heap in
    with_cache i
      (with_counts c.nr_objects (sub64 c.nr_slabs 1) (with_lists head c.slabs_full slab c))
      (push slab c.slabs_free out) s

-- The first slab of the full list goes to the partial list.
unfoldable pub reopen : ℕ → ℕ → Slabs → Slabs
reopen i slab s =
    let c = cache_at i s in
    let rest = (s.heap slab).next in
    with_cache i (with_lists slab rest c.slabs_free c)
      (push slab c.slabs_partial (drop_head rest s.heap)) s

unfoldable pub relist : ℕ → ℕ → Slabs → Slabs
relist i slab s =
    if (s.heap slab).inuse == 0
    then retire i slab s
    else if slab == (cache_at i s).slabs_full
    then reopen i slab s
    else s

-- The object goes back in front of the free objects of its slab.
unfoldable pub put_object : ℕ → ℕ → ℕ → Slabs → Slabs
put_object i slab obj s =
    let b = s.heap slab in
    let c = cache_at i s in
    record {
      caches = set s.caches i (with_counts (sub64 c.nr_objects 1) c.nr_slabs c);
      heap = put_slab slab (with_objects obj ((b.inuse + (2 ^ 32 - 1)) % 2 ^ 32) b) s.heap;
      frames = with_memory (store obj b.freelist s.frames.memory) s.frames;
    }

unfoldable pub free_in : ℕ → ℕ → ℕ → Slabs → Slabs
free_in i obj slab s =
    if slab == 0 || not ((s.heap slab).magic == slab_magic)
    then s
    else relist i slab (put_object i slab obj s)

unfoldable pub kmem_cache_free : Option ℕ → ℕ → Slabs → Slabs
kmem_cache_free none obj s = s
kmem_cache_free (some i) obj s =
    if obj == 0 then s else free_in i obj (holder (cache_at i s) obj s.heap) s
