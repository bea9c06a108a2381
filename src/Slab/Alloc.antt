-- ===== src/Slab/Alloc.antt =====
-- `kmem_cache_alloc` of kernel/memory/slab.c.
use cellkernelqwen.Prelude.{
  ℕ, ◌+◌, ◌%◌, ◌^◌, Option, none, some, set, ◌==◌, ◌&&◌, leb, ltb, bit_and, add64, if◌then◌else◌,
}
use cellkernelqwen.Prelude.Status.{pos}
use cellkernelqwen.Frames.Zone.{Memory, Frames}
use cellkernelqwen.Frames.Alloc.{alloc_page}
use cellkernelqwen.Slab.Cache.{
  Cache, Heap, Slabs, cache_at, align_up, slab_init, slab_bytes, flag_poison,
}
use cellkernelqwen.Slab.Lists.{put_slab, with_objects, push, drop_head, unlink}

-- The heads of the three lists and the two counters are what the operations change.
abbrev pub with_lists : ℕ → ℕ → ℕ → Cache → Cache
with_lists partial full free c = record {
  object_size = c.object_size;
  aligned_size = c.aligned_size;
  slab_size = c.slab_size;
  objects_per_slab = c.objects_per_slab;
  flags = c.flags;
  color = c.color;
  slabs_partial = partial;
  slabs_full = full;
  slabs_free = free;
  nr_objects = c.nr_objects;
  nr_slabs = c.nr_slabs;
}

abbrev pub with_counts : ℕ → ℕ → Cache → Cache
with_counts nr_objects nr_slabs c = record {
  object_size = c.object_size;
  aligned_size = c.aligned_size;
  slab_size = c.slab_size;
  objects_per_slab = c.objects_per_slab;
  flags = c.flags;
  color = c.color;
  slabs_partial = c.slabs_partial;
  slabs_full = c.slabs_full;
  slabs_free = c.slabs_free;
  nr_objects = nr_objects;
  nr_slabs = nr_slabs;
}

abbrev pub with_memory : Memory → Frames → Frames
with_memory memory f = record {
  zones = f.zones;
  total_pages = f.total_pages;
  free_pages_count = f.free_pages_count;
  memory = memory;
}

abbrev pub with_cache : ℕ → Cache → Heap → Slabs → Slabs
with_cache i c heap s = record { caches = set s.caches i c; heap = heap; frames = s.frames }

-- Move the first free slab to the partial list.
unfoldable pub reuse_slab : ℕ → Slabs → ℕ × Slabs
reuse_slab i s =
    let c = cache_at i s in
    let slab = c.slabs_free in
    let rest = (s.heap slab).next in
    (
      slab,
      with_cache i (with_lists slab c.slabs_full rest c)
          (push slab c.slabs_partial (drop_head rest s.heap)) s,
    )

-- Make a slab in a page that was given out and put it in front of the partial list.
unfoldable pub make_slab : ℕ → ℕ × Frames → Slabs → ℕ × Slabs
make_slab i (page, frames) s =
    let c = cache_at i s in
    let got : Slabs = record { caches = s.caches; heap = s.heap; frames = frames } in
    let made = slab_init page i c (page + align_up slab_bytes c.aligned_size) got in
    if page == 0 then (0, got) else (
      page,
      with_cache i
          (with_counts c.nr_objects (add64 c.nr_slabs 1)
            (with_lists page c.slabs_full c.slabs_free c))
          (push page c.slabs_partial made.heap) made,
    )

-- The slab to take an object from, 0 when there is no page.
unfoldable pub pick_slab : ℕ → Slabs → ℕ × Slabs
pick_slab i s =
    let c = cache_at i s in
    if c.slabs_partial == 0
    then if c.slabs_free == 0 then make_slab i (alloc_page (pos 0) s.frames) s else reuse_slab i s
    else (c.slabs_partial, s)

-- A full slab leaves the partial list for the full one.
unfoldable pub move_full : ℕ → ℕ → Slabs → Slabs
move_full i slab s =
    let c = cache_at i s in
    let (head, out) = unlink slab c.slabs_partial s.heap in
    if (s.heap slab).inuse == (s.heap slab).total
    then with_cache i (with_lists head slab c.slabs_free c) (push slab c.slabs_full out) s
    else s

-- `memset(obj, 0xCC, ...)` by words; the sizes of the caches are multiples of 8.
unfoldable pub poison : Cache → ℕ → Memory → Memory
poison c obj memory a =
    if bit_and c.flags flag_poison == 0
    then memory a
    else if leb obj a && ltb a (obj + c.object_size)
    then 0xCCCCCCCCCCCCCCCC
    else memory a

unfoldable pub take_object : ℕ → ℕ × Slabs → ℕ × Slabs
take_object i (slab, s) =
    let b = s.heap slab in
    let obj = b.freelist in
    let popped : Slabs = record {
      caches = s.caches;
      heap = put_slab slab (with_objects (s.frames.memory obj) ((b.inuse + 1) % 2 ^ 32) b) s.heap;
      frames = s.frames;
    } in
    let moved = move_full i slab popped in
    let c = cache_at i moved in
    if slab == 0 then (0, s) else if obj == 0 then (0, s) else (
      obj,
      record {
        caches = set moved.caches i (with_counts (add64 c.nr_objects 1) c.nr_slabs c);
        heap = moved.heap;
        frames = with_memory (poison c obj moved.frames.memory) moved.frames;
      },
    )

-- The object, 0 for NULL.
unfoldable pub kmem_cache_alloc : Option ℕ → Slabs → ℕ × Slabs
kmem_cache_alloc none s = (0, s)
kmem_cache_alloc (some i) s = take_object i (pick_slab i s)
