-- ===== src/Slab/Cache.antt =====
-- The caches and slabs of kernel/memory/slab.c, `slab_init` and `kmem_cache_create`.
use cellkernelqwen.Prelude.{
  ℕ, zero, suc, ◌+◌, ◌-◌, ◌*◌, ◌/◌, ◌%◌, Option, none, some, List, [], ◌∷◌, ◌++◌, length, get_or,
  ◌==◌, ◌||◌, leb, ltb, bit_and, if◌then◌else◌,
}
use cellkernelqwen.Frames.Zone.{Memory, Frames, store}

abbrev pub page_size : ℕ
page_size = 4096

abbrev pub slab_magic : ℕ
slab_magic = 0xDEADBEEFCAFEBABE

abbrev pub flag_hwcache : ℕ
flag_hwcache = 0x01

abbrev pub flag_poison : ℕ
flag_poison = 0x02

abbrev pub max_caches : ℕ
max_caches = 64

abbrev pub min_object_size : ℕ
min_object_size = 32

abbrev pub max_object_size : ℕ
max_object_size = 2048

-- `sizeof(slab_t)`.
abbrev pub slab_bytes : ℕ
slab_bytes = 64

-- Pointers are addresses, 0 for NULL; `cache` is the number of the cache. The bitmap, which is
-- never read, is left out.
pub record Slab : Type 0 where
  pub cache : ℕ
  pub magic : ℕ
  pub inuse : ℕ
  pub total : ℕ
  pub freelist : ℕ
  pub objects : ℕ
  pub next : ℕ
  pub prev : ℕ

-- The name, which is never read, is left out.
pub record Cache : Type 0 where
  pub object_size : ℕ
  pub aligned_size : ℕ
  pub slab_size : ℕ
  pub objects_per_slab : ℕ
  pub flags : ℕ
  pub color : ℕ
  pub slabs_partial : ℕ
  pub slabs_full : ℕ
  pub slabs_free : ℕ
  pub nr_objects : ℕ
  pub nr_slabs : ℕ

-- The slab descriptors by address.
abbrev pub Heap : Type 0
Heap = ℕ → Slab

-- The caches in use are the first `g_cache_count` of `g_caches`. The links of free objects stand in
-- the memory of the frame allocator.
pub record Slabs : Type 0 where
  pub caches : List Cache
  pub heap : Heap
  pub frames : Frames

abbrev pub no_cache : Cache
no_cache = record {
  object_size = 0;
  aligned_size = 0;
  slab_size = 0;
  objects_per_slab = 0;
  flags = 0;
  color = 0;
  slabs_partial = 0;
  slabs_full = 0;
  slabs_free = 0;
  nr_objects = 0;
  nr_slabs = 0;
}

abbrev pub cache_at : ℕ → Slabs → Cache
cache_at i s = get_or s.caches i no_cache

-- `x & ~(align - 1)` after adding `align - 1`.
unfoldable pub align_up : ℕ → ℕ → ℕ
align_up x align = x + (align - 1) - bit_and (x + (align - 1)) (align - 1)

-- `rounds` links from `obj` on, and the last is NULL.
unfoldable pub build_freelist : ℕ → ℕ → ℕ → Memory → Memory
build_freelist zero obj step memory = store obj 0 memory
build_freelist (suc rounds) obj step memory =
    build_freelist rounds (obj + step) step (store obj (obj + step) memory)

unfoldable pub slab_init : ℕ → ℕ → Cache → ℕ → Slabs → Slabs
slab_init slab number cache memory s =
    let objects = memory + cache.color in
    record {
      caches = s.caches;
      heap = λ (a : ℕ).
          if a == slab
          then record {
            cache = number;
            magic = slab_magic;
            inuse = 0;
            total = cache.objects_per_slab;
            freelist = objects;
            objects = objects;
            next = 0;
            prev = 0;
          }
          else s.heap a;
      frames = record {
        zones = s.frames.zones;
        total_pages = s.frames.total_pages;
        free_pages_count = s.frames.free_pages_count;
        memory =
            build_freelist (cache.objects_per_slab - 1) objects cache.aligned_size s.frames.memory;
      };
    }

-- The cache for objects of a size, `count` being `g_cache_count` after it was raised.
unfoldable pub new_cache : ℕ → ℕ → ℕ → Cache
new_cache size flags count =
    let aligned = align_up size 64 in
    record {
      object_size = size;
      aligned_size = aligned;
      slab_size = page_size;
      objects_per_slab = (page_size - slab_bytes) / aligned;
      flags = flags;
      color = if bit_and flags flag_hwcache == 0 then 0 else count % 8 * 64;
      slabs_partial = 0;
      slabs_full = 0;
      slabs_free = 0;
      nr_objects = 0;
      nr_slabs = 0;
    }

abbrev pub with_caches : List Cache → Slabs → Slabs
with_caches caches s = record { caches = caches; heap = s.heap; frames = s.frames }

-- The number of the new cache, `none` for NULL.
unfoldable pub kmem_cache_create : ℕ → ℕ → Slabs → Option ℕ × Slabs
kmem_cache_create size flags s =
    if leb max_caches (length s.caches)
    then (none, s)
    else if ltb size min_object_size || ltb max_object_size size
    then (none, s)
    else (
      some (length s.caches),
      with_caches (s.caches ++ new_cache size flags (length s.caches + 1) ∷ []) s,
    )

unfoldable pub slab_init_subsystem : Slabs → Slabs
slab_init_subsystem s0 =
    let s1 = (kmem_cache_create 32 flag_hwcache s0).1 in
    let s2 = (kmem_cache_create 64 flag_hwcache s1).1 in
    let s3 = (kmem_cache_create 128 flag_hwcache s2).1 in
    let s4 = (kmem_cache_create 256 flag_hwcache s3).1 in
    let s5 = (kmem_cache_create 512 flag_hwcache s4).1 in
    let s6 = (kmem_cache_create 1024 flag_hwcache s5).1 in (kmem_cache_create 2048 flag_poison s6).1
