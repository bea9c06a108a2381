-- ===== src/Slab/Tests.antt =====
-- The slab allocator of kernel/memory/slab.c on concrete states.
use mathlib.Core.Path.{subst}
use cellkernelqwen.Prelude.{
  ℕ, ◌+◌, ◌≡◌, refl, arith, some, [], ◌∷◌, drop, sym, replicate, ◌==◌, if◌then◌else◌,
}
use cellkernelqwen.Prelude.Status.{pos}
use cellkernelqwen.Frames.Zone.{Frames, empty_area, empty_zone}
use cellkernelqwen.Frames.Alloc.{
  alloc_pages, alloc_page, alloc_pages_zone, alloc_levels, pop_block, split_found, zone_index,
}
use cellkernelqwen.Slab.Cache.{Slab, Heap, Slabs, cache_at, slab_magic, slab_init_subsystem}
use cellkernelqwen.Slab.Lists.{contains}
use cellkernelqwen.Slab.Alloc.{
  with_counts, with_lists, make_slab, pick_slab, take_object, kmem_cache_alloc,
}
use cellkernelqwen.Slab.Free.{kmem_cache_free}
use cellkernelqwen.Slab.General.{order_from, order_for, kmalloc, kfree}
use cellkernelqwen.Slab.Order.{IsLeast, order_for-IsLeast}
use cellkernelqwen.Slab.Classes.{IsClass, kmalloc-IsClass, slab_init_subsystem-sizes}
use cellkernelqwen.Slab.Layout.{fresh, start_caches, excess, objects_end, make_slab_end}
use cellkernelqwen.Slab.Overrun.{past_page, kmem_cache_alloc_past}
use cellkernelqwen.Slab.Back.{IsPartial, kmem_cache_free-kmem_cache_alloc}
use cellkernelqwen.Slab.Lost.{IsFullHead, kmem_cache_alloc-kmem_cache_free}
use cellkernelqwen.Slab.Pages.{IsUnlisted, kfree-kmalloc}

abbrev blank : Slab
blank = record {
  cache = 0;
  magic = 0;
  inuse = 0;
  total = 0;
  freelist = 0;
  objects = 0;
  next = 0;
  prev = 0;
}

-- The DMA zone holds a page at 16 MB, a block of two pages at 8 MB and one of four at 32 MB.
abbrev some_blocks : Frames
some_blocks = record {
  zones =
      record {
        areas =
            record { nr_free = 1; free_list = 0x1000000 }
            ∷ record { nr_free = 1; free_list = 0x800000 }
            ∷ record { nr_free = 1; free_list = 0x2000000 }
            ∷ replicate 9 empty_area;
        start_pfn = 0;
        size = 16384;
      }
      ∷ empty_zone
      ∷ empty_zone
      ∷ [];
  total_pages = 7;
  free_pages_count = 7;
  memory = λ a. if a == 0x1001000 then 77 else 0;
}

abbrev at_start : Slabs
at_start = record { caches = []; heap = λ a. blank; frames = some_blocks }

abbrev booted : Slabs
booted = slab_init_subsystem at_start

kmalloc-IsClass_example :
    (i : ℕ) × (kmalloc 100 booted ≡ some (kmem_cache_alloc (some i) booted)) × IsClass 100 i
kmalloc-IsClass_example =
    kmalloc-IsClass 100 booted (slab_init_subsystem-sizes at_start refl) (omega arith)

order_for-IsLeast_example :
    (order : ℕ) × (order_for 8280 ≡ some order) × IsLeast (8280 + 4096) order
order_for-IsLeast_example = order_for-IsLeast 8280 (omega arith)

four_pages : order_for 8280 ≡ some 2
unfolding order_for order_from
four_pages = refl

make_slab_end_example :
    objects_end
      (cache_at 0 booted).aligned_size
      ((make_slab 0 (0x1000000, some_blocks) booted).1.heap 0x1000000)
    ≡ 0x1000000 + 4096 + excess 0
make_slab_end_example =
    make_slab_end 0 0x1000000 some_blocks at_start refl (omega arith) (λ e. omega (arith, e))

one_page : (alloc_page (pos 0) some_blocks).0 ≡ 0x1000000
unfolding alloc_page alloc_pages alloc_pages_zone alloc_levels pop_block zone_index
one_page = refl

kmem_cache_alloc_past_example :
    (kmem_cache_alloc (some 0) booted).1.frames.memory
      ((alloc_page (pos 0) some_blocks).0 + (4096 + past_page 0))
    ≡ 0
kmem_cache_alloc_past_example =
    kmem_cache_alloc_past 0 at_start refl (omega arith) (λ e. omega (arith, e, one_page))

-- One object of 32 bytes is in use, in a slab at 64 KB.
abbrev one_slab : Heap
one_slab a =
    if a == 0x10000
    then record {
      cache = 0;
      magic = slab_magic;
      inuse = 1;
      total = 63;
      freelist = 0x100c0;
      objects = 0x10080;
      next = 0;
      prev = 0;
    }
    else blank

abbrev in_use : Slabs
in_use = record {
  caches = with_counts 1 1 (with_lists 0x10000 0 0 (fresh 32 64 63 1 64)) ∷ drop 1 start_caches;
  heap = one_slab;
  frames = some_blocks;
}

unlisted : IsUnlisted one_slab 0x2000000 in_use.caches
unfolding contains
unlisted = (
  (0x10000 ∷ [], omega arith, (refl, λ e. omega (arith, e), refl, refl)),
  (
    ([], omega arith, refl),
    (
      ([], omega arith, refl),
      (
        ([], omega arith, refl),
        (([], omega arith, refl), (([], omega arith, refl), (([], omega arith, refl), tt))),
      ),
    ),
  ),
)

four_pages_taken : (alloc_pages 2 (pos 0) some_blocks).0 ≡ 0x2000000
unfolding alloc_pages alloc_pages_zone alloc_levels pop_block zone_index split_found
four_pages_taken = refl

kfree-kmalloc_example :
    let (page, frames) = alloc_pages 2 (pos 0) in_use.frames in
    let taken : Slabs = record { caches = in_use.caches; heap = one_slab; frames = frames } in
    (kmalloc 8280 in_use ≡ some (page, taken)) × (kfree page taken ≡ taken)
kfree-kmalloc_example =
    kfree-kmalloc 8280 2 in_use refl (omega arith) four_pages
      (subst (λ (p : ℕ). IsUnlisted one_slab p in_use.caches) (sym four_pages_taken) unlisted)

in_use-IsPartial : IsPartial 0 in_use
unfolding contains
in_use-IsPartial = record {
  real = λ e. omega (arith, e);
  room = record {
    some_free = λ e. omega (arith, e);
    not_last = omega arith;
    in_range = omega arith;
  };
  used = λ e. omega (arith, e);
  good = refl;
  within = refl;
  not_full = λ e. omega (arith, e);
  counted = omega arith;
  present = omega arith;
}

kmem_cache_free-kmem_cache_alloc_example :
    let r = kmem_cache_alloc (some 0) in_use in
    let back = kmem_cache_free (some 0) r.0 r.1 in
    (r.0 ≡ 0x100c0)
    × (back.caches ≡ in_use.caches)
    × ((a : ℕ) → back.heap a ≡ one_slab a)
    × ((a : ℕ) → back.frames.memory a ≡ some_blocks.memory a)
kmem_cache_free-kmem_cache_alloc_example =
    kmem_cache_free-kmem_cache_alloc 0 in_use in_use-IsPartial refl

-- Two full slabs of one object of 2048 bytes each.
abbrev full_slab : ℕ → ℕ → ℕ → Slab
full_slab objects next prev = record {
  cache = 0;
  magic = slab_magic;
  inuse = 1;
  total = 1;
  freelist = 0;
  objects = objects;
  next = next;
  prev = prev;
}

abbrev two_full : Slabs
two_full = record {
  caches = with_counts 2 2 (with_lists 0 0x20000 0 (fresh 2048 2048 1 2 0)) ∷ [];
  heap = λ a.
      if a == 0x20000
      then full_slab 0x20800 0x30000 0
      else if a == 0x30000
      then full_slab 0x30800 0 0x20000
      else blank;
  frames = some_blocks;
}

two_full-IsFullHead : IsFullHead 0 0x20800 two_full
unfolding contains
two_full-IsFullHead = record {
  present = omega arith;
  no_partial = refl;
  real = λ e. omega (arith, e);
  real_obj = λ e. omega (arith, e);
  within = refl;
  good = refl;
  single = refl;
  first = refl;
  second = λ e. omega (arith, e);
  apart = λ e. omega (arith, e);
  second_full = refl;
}

kmem_cache_alloc-kmem_cache_free_example :
    let r = kmem_cache_free (some 0) 0x20800 two_full in
    ((cache_at 0 r).slabs_free ≡ 0x20000)
    × ((cache_at 0 r).slabs_full ≡ 0x20000)
    × ((cache_at 0 r).slabs_partial ≡ 0x30000)
    × ((kmem_cache_alloc (some 0) r).0 ≡ 0)
kmem_cache_alloc-kmem_cache_free_example =
    kmem_cache_alloc-kmem_cache_free 0 0x20800 two_full two_full-IsFullHead

-- A second object of the slab at 64 KB.
second_object : (kmem_cache_alloc (some 0) in_use).0 ≡ 0x100c0
unfolding kmem_cache_alloc take_object pick_slab
second_object = refl
