-- ===== src/Slab/Dry.antt =====
-- The slab allocator of kernel/memory/slab.c without a slab and without a page.
use cellkernelqwen.Prelude.{
  ℕ, zero, suc, ◌+◌, ◌^◌, ◌≤◌, ◌≡◌, refl, ap, ◌∙◌, inl, inr, Bool-cases, Option, none, some,
  Option-cases, List, [], get_or, ltb, eq→==,
}
use cellkernelqwen.Prelude.Status.{pos}
use cellkernelqwen.Frames.Zone.{Memory, Frames}
use cellkernelqwen.Frames.Init.{Descriptor, frame_allocator_init}
use cellkernelqwen.Frames.Alloc.{alloc_pages, alloc_page}
use cellkernelqwen.Frames.Exhausted.{at_boot, init_exhausted}
use cellkernelqwen.Slab.Cache.{Heap, Slabs, cache_at, no_cache, slab_init_subsystem}
use cellkernelqwen.Slab.Alloc.{make_slab, pick_slab, take_object, kmem_cache_alloc}
use cellkernelqwen.Slab.General.{first_cache, order_for, take_pages, kmalloc_from, kmalloc}
use cellkernelqwen.Slab.Order.{order_for-IsLeast}
use cellkernelqwen.Slab.Layout.{start_caches, slab_init_subsystem_lem, slab_init_subsystem-frames}

-- No cache has a partial or a free slab, and no request for pages is met.
pub record IsDry (s : Slabs) : Type 0 where
  pub no_partial : (i : ℕ) → (cache_at i s).slabs_partial ≡ 0
  pub no_free : (i : ℕ) → (cache_at i s).slabs_free ≡ 0
  pub no_pages : (order : ℕ) → (alloc_pages order (pos 0) s.frames).0 ≡ 0

-- NULL is returned.
abbrev IsNull : Option (ℕ × Slabs) → Type 0
IsNull r = (after : Slabs) × (r ≡ some (0, after))

no_object : (i : ℕ) (q : ℕ × Slabs) → q.0 ≡ 0 → (take_object i q).0 ≡ 0
unfolding take_object
no_object i (slab, s) e = rw (eq→== slab 0 e) refl

no_slab : (i : ℕ) (q : ℕ × Frames) (s : Slabs) → q.0 ≡ 0 → (make_slab i q s).0 ≡ 0
unfolding make_slab
no_slab i (page, f) s e = rw (eq→== page 0 e) refl

kmem_cache_alloc_null : (i : ℕ) (s : Slabs) → IsDry s → (kmem_cache_alloc (some i) s).0 ≡ 0
unfolding kmem_cache_alloc pick_slab alloc_page
kmem_cache_alloc_null i s dry =
    rw (dry.no_partial i, dry.no_free i)
      (no_object i _ (no_slab i (alloc_pages 0 (pos 0) s.frames) s (dry.no_pages 0)))

take_pages-IsNull :
    (o : Option ℕ) (order : ℕ) (s : Slabs) → IsDry s → o ≡ some order → IsNull (take_pages o s)
unfolding take_pages
take_pages-IsNull none order s dry e = absurd (cc)
take_pages-IsNull (some n) order s dry e =
    let after : Slabs = record {
      caches = s.caches;
      heap = s.heap;
      frames = (alloc_pages n (pos 0) s.frames).1;
    } in
    (after, ap (λ (p : ℕ). some (p, after)) (dry.no_pages n))

pub kmalloc-IsNull :
    (size : ℕ) (s : Slabs) → IsDry s → size + 4096 ≤ 2 ^ 63 → IsNull (kmalloc size s)
unfolding kmalloc kmalloc_from
kmalloc-IsNull size s dry h = elim (Option-cases (first_cache size 0 s.caches)) [
  | inl e ↦ rw e (elim (Bool-cases (ltb 2048 size)) [
    | inl big ↦
        let (order, found, least) = order_for-IsLeast size h in
        rw big (take_pages-IsNull (order_for size) order s dry found)
    | inr small ↦ rw small (s, refl)
  ])
  | inr (i, e) ↦ rw e (
    (kmem_cache_alloc (some i) s).1,
    ap (λ (p : ℕ). some (p, (kmem_cache_alloc (some i) s).1)) (kmem_cache_alloc_null i s dry),
  )
]

-- The state after both initialisations, from zeroed globals.
abbrev pub start_state : Memory → Heap → List Descriptor → Slabs
start_state memory heap ds =
    slab_init_subsystem
      (record { caches = []; heap = heap; frames = frame_allocator_init ds (at_boot memory) })

fresh_cache :
    (i : ℕ)
    → ((get_or start_caches i no_cache).slabs_partial ≡ 0)
      × ((get_or start_caches i no_cache).slabs_free ≡ 0)
fresh_cache zero = (refl, refl)
fresh_cache (suc zero) = (refl, refl)
fresh_cache (suc (suc zero)) = (refl, refl)
fresh_cache (suc (suc (suc zero))) = (refl, refl)
fresh_cache (suc (suc (suc (suc zero)))) = (refl, refl)
fresh_cache (suc (suc (suc (suc (suc zero))))) = (refl, refl)
fresh_cache (suc (suc (suc (suc (suc (suc zero)))))) = (refl, refl)
fresh_cache (suc (suc (suc (suc (suc (suc (suc i))))))) = (refl, refl)

pub start_state-IsDry :
    (memory : Memory) (heap : Heap) (ds : List Descriptor) → IsDry (start_state memory heap ds)
start_state-IsDry memory heap ds =
    let s : Slabs = record {
      caches = [];
      heap = heap;
      frames = frame_allocator_init ds (at_boot memory);
    } in
    let caches = slab_init_subsystem_lem s refl in
    record {
      no_partial = λ i. ap (λ cs. (get_or cs i no_cache).slabs_partial) caches ∙ (fresh_cache i).0;
      no_free = λ i. ap (λ cs. (get_or cs i no_cache).slabs_free) caches ∙ (fresh_cache i).1;
      no_pages = λ order.
          ap (λ f. (alloc_pages order (pos 0) f).0) (slab_init_subsystem-frames s)
          ∙ (init_exhausted memory ds).1 order (pos 0);
    }
