-- ===== src/Slab/Lost.antt =====
-- A full slab of kernel/memory/slab.c whose only object is freed.
use cellkernelqwen.Prelude.{
  ℕ, zero, suc, ◌<◌, ◌≡◌, ◌≢◌, refl, sym, ap, ◌∙◌, inl, inr, true, arith, Bool-cases, some, length,
  get_or-set_self, length-set, ◌==◌, ==→eq, ne→==, eq→==, sub64,
}
use cellkernelqwen.Slab.Cache.{Slab, Cache, Heap, Slabs, cache_at, no_cache, slab_magic}
use cellkernelqwen.Slab.Lists.{
  put_slab, with_links, with_prev, push, unlink, contains, find_slab, max_slabs,
}
use cellkernelqwen.Slab.Alloc.{with_counts, take_object, kmem_cache_alloc}
use cellkernelqwen.Slab.Free.{holder, retire, relist, put_object, free_in, kmem_cache_free}
use cellkernelqwen.Slab.Taken.{pick_slab_partial}
use cellkernelqwen.Slab.Back.{find_slab_head}

-- No list operation changes the free objects of a slab.
put_kept :
    (at a : ℕ) (slab : Slab) (heap : Heap)
    → slab.freelist ≡ (heap at).freelist
    → (put_slab at slab heap a).freelist ≡ (heap a).freelist
put_kept at a slab heap e = elim (Bool-cases (a == at)) [
  | inl h ↦ rw h (e ∙ sym (ap (λ (t : ℕ). (heap t).freelist) (==→eq a at h)))
  | inr h ↦ rw h refl
]

push_kept : (x head a : ℕ) (heap : Heap) → (push x head heap a).freelist ≡ (heap a).freelist
unfolding push
push_kept x head a heap =
    let linked = put_slab x (with_links head 0 (heap x)) heap in
    let first = put_kept x a (with_links head 0 (heap x)) heap refl in
    elim (Bool-cases (head == 0)) [
      | inl e ↦ rw e first
      | inr e ↦ rw e (put_kept head a (with_prev x (linked head)) linked refl ∙ first)
    ]

unlink_front :
    (x head : ℕ) (heap : Heap) → (heap x).prev ≡ 0 → (unlink x head heap).0 ≡ (heap x).next
unfolding unlink
unlink_front x head heap e = rw e refl

unlink_kept :
    (x head a : ℕ) (heap : Heap)
    → (heap x).prev ≡ 0
    → ((unlink x head heap).1 a).freelist ≡ (heap a).freelist
unfolding unlink
unlink_kept x head a heap e = elim (Bool-cases ((heap x).next == 0)) [
  | inl h ↦ rw (e, h) refl
  | inr h ↦ rw (e, h) (put_kept (heap x).next a (with_prev 0 (heap (heap x).next)) heap refl)
]

-- Two full slabs, the first with one object, and no partial one.
pub record IsFullHead (i obj : ℕ) (s : Slabs) : Type 0 where
  pub present : i < length s.caches
  pub no_partial : (cache_at i s).slabs_partial ≡ 0
  pub real : (cache_at i s).slabs_full ≢ 0
  pub real_obj : obj ≢ 0
  pub within : contains (cache_at i s).aligned_size obj (s.heap (cache_at i s).slabs_full) ≡ true
  pub good : (s.heap (cache_at i s).slabs_full).magic ≡ slab_magic
  pub single : (s.heap (cache_at i s).slabs_full).inuse ≡ 1
  pub first : (s.heap (cache_at i s).slabs_full).prev ≡ 0
  pub second : (s.heap (cache_at i s).slabs_full).next ≢ 0
  pub apart : (s.heap (cache_at i s).slabs_full).next ≢ (cache_at i s).slabs_full
  pub second_full : (s.heap (s.heap (cache_at i s).slabs_full).next).freelist ≡ 0

module _ (i obj : ℕ) (s : Slabs) (p : IsFullHead i obj s) where
  abbrev c : Cache
  c = cache_at i s

  abbrev slab : ℕ
  slab = c.slabs_full

  abbrev after : ℕ
  after = (s.heap slab).next

  abbrev u : Slabs
  u = put_object i slab obj s

  no_slab : (rounds size : ℕ) (heap : Heap) → find_slab rounds 0 size obj heap ≡ 0
  unfolding find_slab
  no_slab zero size heap = refl
  no_slab (suc rounds) size heap = refl

  holder_full : holder c obj s.heap ≡ slab
  unfolding holder
  holder_full =
      rw (p.no_partial, no_slab max_slabs c.aligned_size s.heap)
        (find_slab_head max_slabs slab c.aligned_size obj s.heap (omega arith) p.real p.within)

  cache_u : cache_at i u ≡ with_counts (sub64 c.nr_objects 1) c.nr_slabs c
  unfolding put_object
  cache_u = get_or-set_self s.caches i _ no_cache p.present

  slab_u : ((u.heap slab).inuse ≡ 0) × ((u.heap slab).prev ≡ 0) × ((u.heap slab).next ≡ after)
  unfolding put_object
  slab_u = rw (eq→== slab slab refl, p.single, p.first) (refl, refl, refl)

  freed : kmem_cache_free (some i) obj s ≡ retire i slab u
  unfolding kmem_cache_free free_in relist
  freed =
      rw (ne→== obj 0 p.real_obj, holder_full, ne→== slab 0 p.real, eq→== _ _ p.good, slab_u.0) refl

  after_u : (u.heap after).freelist ≡ 0
  unfolding put_object
  after_u = rw (ne→== after slab p.apart) p.second_full

  u_length : i < length u.caches
  unfolding put_object
  u_length =
      omega
        (arith, length-set s.caches i (with_counts (sub64 c.nr_objects 1) c.nr_slabs c), p.present)

  retired :
      ((cache_at i (retire i slab u)).slabs_partial ≡ after)
      × ((cache_at i (retire i slab u)).slabs_full ≡ slab)
      × ((cache_at i (retire i slab u)).slabs_free ≡ slab)
      × (((retire i slab u).heap after).freelist ≡ 0)
  unfolding retire
  retired =
      let short = u_length in
      (
        rw (get_or-set_self u.caches i _ no_cache short)
            (unlink_front slab (cache_at i u).slabs_partial u.heap slab_u.1 ∙ slab_u.2),
        rw (get_or-set_self u.caches i _ no_cache short) (ap (λ (d : Cache). d.slabs_full) cache_u),
        rw (get_or-set_self u.caches i _ no_cache short) refl,
        push_kept slab (cache_at i u).slabs_free after _
            ∙ unlink_kept slab (cache_at i u).slabs_partial after u.heap slab_u.1
            ∙ after_u,
      )

  nothing_left : (q : ℕ × Slabs) → (q.1.heap q.0).freelist ≡ 0 → (take_object i q).0 ≡ 0
  unfolding take_object
  nothing_left (x, v) e = elim (Bool-cases (x == 0)) [
    | inl h ↦ rw h refl
    | inr h ↦ rw (h, eq→== _ 0 e) refl
  ]

  -- Without partial slabs and with two full ones, the first of one object: kmem_cache_free of that
  -- object puts its slab on the free list and leaves it at the head of the full one, the second full slab
  -- becomes the partial list, and the next kmem_cache_alloc returns NULL.
  pub kmem_cache_alloc-kmem_cache_free :
      let r = kmem_cache_free (some i) obj s in
      ((cache_at i r).slabs_free ≡ slab)
      × ((cache_at i r).slabs_full ≡ slab)
      × ((cache_at i r).slabs_partial ≡ after)
      × ((kmem_cache_alloc (some i) r).0 ≡ 0)
  unfolding kmem_cache_alloc
  kmem_cache_alloc-kmem_cache_free =
      let (partial, full, free, empty) = retired in
      let v = retire i slab u in
      rw freed (
        free,
        full,
        partial,
        ap (λ (q : ℕ × Slabs). (take_object i q).0)
              (pick_slab_partial i v (λ z. p.second (sym partial ∙ z)))
            ∙ nothing_left _ (ap (λ (t : ℕ). (v.heap t).freelist) partial ∙ empty),
      )
