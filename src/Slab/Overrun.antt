-- ===== src/Slab/Overrun.antt =====
-- What the first objects of kernel/memory/slab.c overwrite.
use cellkernelqwen.Prelude.{
  ℕ, zero, suc, ◌+◌, ◌-◌, ◌*◌, ◌^◌, ◌<◌, ◌≡◌, ◌≢◌, refl, sym, ap, ◌∙◌, true, arith, some, [],
  get_or, get_or-set_self, length, ◌||◌, bit_and, ◌==◌, ne→==, eq→==, if◌then◌else◌,
}
use cellkernelqwen.Prelude.Status.{pos}
use cellkernelqwen.Frames.Zone.{Memory, Frames}
use cellkernelqwen.Frames.Alloc.{alloc_page}
use cellkernelqwen.Slab.Cache.{
  Cache, Slabs, cache_at, no_cache, align_up, slab_init_subsystem, build_freelist, slab_init,
}
use cellkernelqwen.Slab.Lists.{push}
use cellkernelqwen.Slab.Alloc.{make_slab, pick_slab, take_object, poison, kmem_cache_alloc}
use cellkernelqwen.Slab.Taken.{HasRoom, take_object_lem}
use cellkernelqwen.Slab.Chain.{build_freelist_last}
use cellkernelqwen.Slab.Layout.{start_caches, slab_init_subsystem_lem, slab_init_subsystem-frames}

poison_off :
    (c : Cache) (obj a : ℕ) (memory : Memory)
    → (bit_and c.flags 2 == 0) ≡ true
    → poison c obj memory a ≡ memory a
unfolding poison
poison_off c obj a memory off = rw off refl

-- The first slab of a cache, made in a page `p`.
made_slab :
    (i p : ℕ) (f : Frames) (c : Cache) (s : Slabs)
    → p ≢ 0
    → cache_at i s ≡ c
    → c.slabs_partial ≡ 0
    → i < length s.caches
    → let r = make_slab i (p, f) s in
      let objects = p + align_up 64 c.aligned_size + c.color in
      (r.0 ≡ p)
      × (r.1.frames.memory
          ≡ build_freelist (c.objects_per_slab - 1) objects c.aligned_size f.memory)
      × ((r.1.heap p).freelist ≡ objects)
      × ((r.1.heap p).inuse ≡ 0)
      × ((r.1.heap p).total ≡ c.objects_per_slab)
      × ((cache_at i r.1).flags ≡ c.flags)
unfolding make_slab slab_init push
made_slab i p f c s real e empty short =
    rw (ne→== p 0 real, e, empty, eq→== p p refl, get_or-set_self s.caches i _ no_cache short)
      (refl, refl, refl, refl, refl, refl)

-- Where the last object of a first slab starts, from the start of its page.
abbrev pub last_object : Cache → ℕ
last_object c = align_up 64 c.aligned_size + c.color + (c.objects_per_slab - 1) * c.aligned_size

first_object :
    (i p : ℕ) (f : Frames) (c : Cache) (s : Slabs)
    → p ≢ 0
    → cache_at i s ≡ c
    → c.slabs_partial ≡ 0
    → i < length s.caches
    → (bit_and c.flags 2 == 0) ≡ true
    → 1 < c.objects_per_slab
    → c.objects_per_slab < 2 ^ 32
    → (take_object i (make_slab i (p, f) s)).1.frames.memory (p + last_object c) ≡ 0
first_object i p f c s real e empty short off many few =
    let m = (make_slab i (p, f) s).1 in
    let (page, memory, freelist, inuse, total, flags) = made_slab i p f c s real e empty short in
    let room : HasRoom (m.heap p) = record {
      some_free = λ z. real (omega (arith, sym freelist ∙ z));
      not_last = omega (arith, inuse, total, many);
      in_range = omega (arith, total, few);
    } in
    let a = p + last_object c in
    let objects = p + align_up 64 c.aligned_size + c.color in
    ap (λ (q : ℕ). (take_object i (q, m)).1.frames.memory a) page
    ∙ ap (λ (q : ℕ × Slabs). q.1.frames.memory a) (take_object_lem i p m real room)
    ∙ poison_off (cache_at i m) (m.heap p).freelist a m.frames.memory
        (ap (λ (t : ℕ). bit_and t 2 == 0) flags ∙ off)
    ∙ ap (λ (g : Memory). g a) memory
    ∙ ap (build_freelist (c.objects_per_slab - 1) objects c.aligned_size f.memory) {x = a}
        {y = objects + (c.objects_per_slab - 1) * c.aligned_size} (omega arith)
    ∙ build_freelist_last (c.objects_per_slab - 1) objects c.aligned_size f.memory

-- The last objects of the first four caches start past the page.
abbrev pub past_page : ℕ → ℕ
past_page i = if i == 1 || i == 2 then 64 else 0

past :
    (i : ℕ)
    → i < 4
    → let c = get_or start_caches i no_cache in
      (c.slabs_partial ≡ 0)
      × (c.slabs_free ≡ 0)
      × ((bit_and c.flags 2 == 0) ≡ true)
      × (1 < c.objects_per_slab)
      × (c.objects_per_slab < 2 ^ 32)
      × (last_object c ≡ 4096 + past_page i)
unfolding align_up
past zero h = (refl, refl, refl, omega arith, omega arith, refl)
past (suc zero) h = (refl, refl, refl, omega arith, omega arith, refl)
past (suc (suc zero)) h = (refl, refl, refl, omega arith, omega arith, refl)
past (suc (suc (suc zero))) h = (refl, refl, refl, omega arith, omega arith, refl)
past (suc (suc (suc (suc i)))) h = absurd (omega (arith, h))

first_pick :
    (i : ℕ) (c : Cache) (s : Slabs)
    → cache_at i s ≡ c
    → c.slabs_partial ≡ 0
    → c.slabs_free ≡ 0
    → pick_slab i s ≡ make_slab i (alloc_page (pos 0) s.frames) s
unfolding pick_slab
first_pick i c s e empty none_free = rw (e, empty, none_free) refl

-- Once slab_init_subsystem has made its caches, the first object that is taken from one of the caches
-- number 0 to 3 clears a word of the page after the one that alloc_page gave, whatever it held: its
-- first word, or the one at byte 64 for caches number 1 and 2.
pub kmem_cache_alloc_past :
    (i : ℕ) (s : Slabs)
    → s.caches ≡ []
    → i < 4
    → (alloc_page (pos 0) s.frames).0 ≢ 0
    → let r = kmem_cache_alloc (some i) (slab_init_subsystem s) in
      r.1.frames.memory ((alloc_page (pos 0) s.frames).0 + (4096 + past_page i)) ≡ 0
unfolding kmem_cache_alloc
kmem_cache_alloc_past i s e small real =
    let t = slab_init_subsystem s in
    let caches = slab_init_subsystem_lem s e in
    let at : cache_at i t ≡ get_or start_caches i no_cache =
      ap (λ cs. get_or cs i no_cache) caches in
    let c = get_or start_caches i no_cache in
    let (empty, none_free, off, many, few, last) = past i small in
    let p = (alloc_page (pos 0) s.frames).0 in
    let f = (alloc_page (pos 0) s.frames).1 in
    let frames : t.frames ≡ s.frames = slab_init_subsystem-frames s in
    let short : i < length t.caches = omega (arith, ap length caches, small) in
    ap (λ (q : ℕ × Slabs). (take_object i q).1.frames.memory (p + (4096 + past_page i)))
      (first_pick i c t at empty none_free
        ∙ ap (λ (g : Frames). make_slab i (alloc_page (pos 0) g) t) frames)
    ∙ ap (take_object i (make_slab i (p, f) t)).1.frames.memory {x = p + (4096 + past_page i)}
        {y = p + last_object c} (omega (arith, last))
    ∙ first_object i p f c t real at empty short off many few
