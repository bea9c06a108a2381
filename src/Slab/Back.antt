-- ===== src/Slab/Back.antt =====
-- `kmem_cache_alloc` and then `kmem_cache_free` of kernel/memory/slab.c on one object.
use cellkernelqwen.Prelude.{
  ℕ, zero, suc, ◌+◌, ◌-◌, ◌%◌, ◌^◌, ◌<◌, ◌≡◌, ◌≢◌, refl, sym, ap, ◌∙◌, inl, inr, Bool, true, false,
  arith, Bool-cases, some, List, [], ◌∷◌, length, set, get_or, get_or-set_self, ◌==◌, ==→eq, ne→==,
  eq→==, add64, sub64, bit_and,
}
use cellkernelqwen.Slab.Cache.{Slab, Cache, Heap, Slabs, cache_at, no_cache, slab_magic}
use cellkernelqwen.Slab.Lists.{contains, find_slab, max_slabs}
use cellkernelqwen.Slab.Alloc.{with_counts, poison, kmem_cache_alloc}
use cellkernelqwen.Slab.Free.{holder, relist, put_object, free_in, kmem_cache_free}
use cellkernelqwen.Slab.Taken.{HasRoom, taken_slab, taken_state, kmem_cache_alloc_partial}

-- A partial slab at the head of its list, with an object in use and one to take.
pub record IsPartial (i : ℕ) (s : Slabs) : Type 0 where
  pub real : (cache_at i s).slabs_partial ≢ 0
  pub room : HasRoom (s.heap (cache_at i s).slabs_partial)
  pub used : (s.heap (cache_at i s).slabs_partial).inuse ≢ 0
  pub good : (s.heap (cache_at i s).slabs_partial).magic ≡ slab_magic
  pub within :
      contains
        (cache_at i s).aligned_size
        (s.heap (cache_at i s).slabs_partial).freelist
        (s.heap (cache_at i s).slabs_partial)
      ≡ true
  pub not_full : (cache_at i s).slabs_partial ≢ (cache_at i s).slabs_full
  pub counted : (cache_at i s).nr_objects < 2 ^ 64
  pub present : i < length s.caches

pub find_slab_head :
    (rounds slab size obj : ℕ) (heap : Heap)
    → 0 < rounds
    → slab ≢ 0
    → contains size obj (heap slab) ≡ true
    → find_slab rounds slab size obj heap ≡ slab
unfolding find_slab
find_slab_head zero slab size obj heap more real here = absurd (omega arith)
find_slab_head (suc rounds) slab size obj heap more real here =
    ap
      (λ (null : Bool). elim null [
        | true ↦ 0
        | false ↦ elim (contains size obj (heap slab)) [
          | true ↦ slab
          | false ↦ find_slab rounds (heap slab).next size obj heap
        ]
      ])
      (ne→== slab 0 real)
    ∙ ap
        (λ (holds : Bool). elim holds [
          | true ↦ slab
          | false ↦ find_slab rounds (heap slab).next size obj heap
        ])
        here

set_back :
    (cs : List Cache) (i : ℕ) (c : Cache)
    → i < length cs
    → c ≡ get_or cs i no_cache
    → set cs i c ≡ cs
set_back [] i c h e = refl
set_back (x ∷ cs) zero c h e = ap (λ (y : Cache). y ∷ cs) e
set_back (x ∷ cs) (suc i) c h e =
    ap (λ (ys : List Cache). x ∷ ys) (set_back cs i c (omega (arith, h)) e)

set_again : (cs : List Cache) (i : ℕ) (c d : Cache) → set (set cs i c) i d ≡ set cs i d
set_again [] i c d = refl
set_again (x ∷ cs) zero c d = refl
set_again (x ∷ cs) (suc i) c d = ap (λ (ys : List Cache). x ∷ ys) (set_again cs i c d)

module _ (i : ℕ) (s : Slabs) (p : IsPartial i s) where
  abbrev c : Cache
  c = cache_at i s

  abbrev slab : ℕ
  slab = c.slabs_partial

  abbrev b : Slab
  b = s.heap slab

  abbrev obj : ℕ
  obj = b.freelist

  abbrev t : Slabs
  t = taken_state i slab s

  cache_taken : cache_at i t ≡ with_counts (add64 c.nr_objects 1) c.nr_slabs c
  cache_taken = get_or-set_self s.caches i _ no_cache p.present

  slab_taken : t.heap slab ≡ taken_slab s.frames.memory b
  slab_taken = rw (eq→== slab slab refl) refl

  holder_taken : holder (cache_at i t) obj t.heap ≡ slab
  unfolding holder contains
  holder_taken = rw cache_taken (
      rw
        (
          find_slab_head max_slabs slab c.aligned_size obj t.heap (omega arith) p.real
              (ap (contains c.aligned_size obj) slab_taken ∙ p.within),
          ne→== slab 0 p.real,
        )
        refl)

  abbrev u : Slabs
  u = put_object i slab obj t

  heap_back : (a : ℕ) → u.heap a ≡ s.heap a
  unfolding put_object
  heap_back a = elim (Bool-cases (a == slab)) [
    | inl e ↦ rw (e, eq→== slab slab refl, less) (sym (ap s.heap (==→eq a slab e)))
    | inr e ↦ rw e refl
  ]
    where
      less : ((b.inuse + 1) % 2 ^ 32 + (2 ^ 32 - 1)) % 2 ^ 32 ≡ b.inuse
      less = omega (arith, p.room.not_last, p.room.in_range)

  caches_back : u.caches ≡ s.caches
  unfolding put_object
  caches_back = rw cache_taken (
      set_again s.caches i _ _
      ∙ set_back s.caches i _ p.present (
          ap (λ (n : ℕ). with_counts n c.nr_slabs c) {x = sub64 (add64 c.nr_objects 1) 1}
            {y = c.nr_objects} (omega (arith, p.counted))))

  still_used : ((u.heap slab).inuse == 0) ≡ false
  still_used = rw (heap_back slab) (ne→== _ 0 p.used)

  no_move : relist i slab u ≡ u
  unfolding relist
  no_move = rw (still_used, caches_back, ne→== slab c.slabs_full p.not_full) refl

  freed : kmem_cache_free (some i) obj t ≡ u
  unfolding kmem_cache_free free_in
  freed =
      rw
        (
          ne→== obj 0 p.room.some_free,
          holder_taken,
          ne→== slab 0 p.real,
          slab_taken,
          eq→== _ _ p.good,
        )
        no_move

  memory_back : (a : ℕ) → (bit_and c.flags 2 == 0) ≡ true → u.frames.memory a ≡ s.frames.memory a
  unfolding put_object poison
  memory_back a off = elim (Bool-cases (a == obj)) [
    | inl e ↦ rw (e, slab_taken) (sym (ap s.frames.memory (==→eq a obj e)))
    | inr e ↦ rw (e, off) refl
  ]

  -- A cache without poisoning whose first partial slab has objects in use and more than one to take:
  -- kmem_cache_alloc gives the first free object, and kmem_cache_free of it leaves all caches, slabs and
  -- words of memory as they were before.
  pub kmem_cache_free-kmem_cache_alloc :
      (bit_and c.flags 2 == 0) ≡ true
      → let r = kmem_cache_alloc (some i) s in
        let back = kmem_cache_free (some i) r.0 r.1 in
        (r.0 ≡ obj)
        × (back.caches ≡ s.caches)
        × ((a : ℕ) → back.heap a ≡ s.heap a)
        × ((a : ℕ) → back.frames.memory a ≡ s.frames.memory a)
  kmem_cache_free-kmem_cache_alloc off =
      rw (kmem_cache_alloc_partial i s p.real p.room, freed)
        (refl, caches_back, heap_back, λ a. memory_back a off)
