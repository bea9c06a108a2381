-- ===== src/Slab/Taken.antt =====
-- An object that `kmem_cache_alloc` of kernel/memory/slab.c takes from a slab that stays partial.
use cellkernelqwen.Prelude.{
  ℕ, ◌+◌, ◌%◌, ◌^◌, ◌<◌, ◌≡◌, ◌≢◌, refl, ap, ◌∙◌, false, arith, some, set, ◌==◌, ne→==, eq→==,
  add64,
}
use cellkernelqwen.Frames.Zone.{Memory}
use cellkernelqwen.Slab.Cache.{Slab, Slabs, cache_at}
use cellkernelqwen.Slab.Lists.{put_slab, with_objects}
use cellkernelqwen.Slab.Alloc.{
  with_counts, with_memory, pick_slab, move_full, poison, take_object, kmem_cache_alloc,
}

-- The slab keeps a free object after one is taken.
pub record HasRoom (b : Slab) : Type 0 where
  pub some_free : b.freelist ≢ 0
  pub not_last : b.inuse + 1 < b.total
  pub in_range : b.total < 2 ^ 32

abbrev pub taken_slab : Memory → Slab → Slab
taken_slab memory b = with_objects (memory b.freelist) ((b.inuse + 1) % 2 ^ 32) b

-- The state once an object of the slab was taken.
abbrev pub taken_state : ℕ → ℕ → Slabs → Slabs
taken_state i slab s =
    let c = cache_at i s in
    let b = s.heap slab in
    record {
      caches = set s.caches i (with_counts (add64 c.nr_objects 1) c.nr_slabs c);
      heap = put_slab slab (taken_slab s.frames.memory b) s.heap;
      frames = with_memory (poison c b.freelist s.frames.memory) s.frames;
    }

kept_partial :
    (i slab : ℕ) (s : Slabs)
    → ((s.heap slab).inuse == (s.heap slab).total) ≡ false
    → move_full i slab s ≡ s
unfolding move_full
kept_partial i slab s e = rw e refl

pub take_object_lem :
    (i slab : ℕ) (s : Slabs)
    → slab ≢ 0
    → HasRoom (s.heap slab)
    → take_object i (slab, s) ≡ ((s.heap slab).freelist, taken_state i slab s)
unfolding take_object
take_object_lem i slab s real room =
    let b = s.heap slab in
    let popped : Slabs = record {
      caches = s.caches;
      heap = put_slab slab (taken_slab s.frames.memory b) s.heap;
      frames = s.frames;
    } in
    let stays : move_full i slab popped ≡ popped = kept_partial i slab popped (
      rw (eq→== slab slab refl)
        (ne→== _ _ (λ e. omega (arith, e, room.not_last, room.in_range)))) in
    rw (ne→== slab 0 real, ne→== b.freelist 0 room.some_free, stays) refl

-- The first slab of the partial list is taken.
pub pick_slab_partial :
    (i : ℕ) (s : Slabs)
    → (cache_at i s).slabs_partial ≢ 0
    → pick_slab i s ≡ ((cache_at i s).slabs_partial, s)
unfolding pick_slab
pick_slab_partial i s real = rw (ne→== _ 0 real) refl

pub kmem_cache_alloc_partial :
    (i : ℕ) (s : Slabs)
    → (cache_at i s).slabs_partial ≢ 0
    → HasRoom (s.heap (cache_at i s).slabs_partial)
    → kmem_cache_alloc (some i) s ≡ (
      (s.heap (cache_at i s).slabs_partial).freelist,
      taken_state i (cache_at i s).slabs_partial s,
    )
unfolding kmem_cache_alloc
kmem_cache_alloc_partial i s real room =
    ap (take_object i) (pick_slab_partial i s real)
    ∙ take_object_lem i (cache_at i s).slabs_partial s real room
