-- ===== src/Slab/Layout.antt =====
-- The caches that `slab_init_subsystem` of kernel/memory/slab.c makes, and their first slabs.
use cellkernelqwen.Prelude.{
  ℕ, zero, suc, ◌+◌, ◌*◌, ◌<◌, ◌≡◌, ◌≢◌, refl, ap, ◌∙◌, arith, Bool-cases, leb, inl, inr, List, [],
  ◌∷◌, get_or, length, ◌||◌, ne→==, eq→==, ltb, if◌then◌else◌,
}
use cellkernelqwen.Frames.Zone.{Frames}
use cellkernelqwen.Slab.Cache.{
  Slab, Cache, Slabs, cache_at, no_cache, max_caches, min_object_size, max_object_size, align_up,
  new_cache, kmem_cache_create, slab_init_subsystem, slab_init,
}
use cellkernelqwen.Slab.Lists.{push}
use cellkernelqwen.Slab.Alloc.{make_slab}

-- A cache of `slab_init_subsystem`, before anything was allocated from it.
abbrev pub fresh : ℕ → ℕ → ℕ → ℕ → ℕ → Cache
fresh size aligned count flags color = record {
  object_size = size;
  aligned_size = aligned;
  slab_size = 4096;
  objects_per_slab = count;
  flags = flags;
  color = color;
  slabs_partial = 0;
  slabs_full = 0;
  slabs_free = 0;
  nr_objects = 0;
  nr_slabs = 0;
}

abbrev pub start_caches : List Cache
start_caches =
    fresh 32 64 63 1 64
    ∷ fresh 64 64 63 1 128
    ∷ fresh 128 128 31 1 192
    ∷ fresh 256 256 15 1 256
    ∷ fresh 512 512 7 1 320
    ∷ fresh 1024 1024 3 1 384
    ∷ fresh 2048 2048 1 2 0
    ∷ []

pub slab_init_subsystem_lem :
    (s : Slabs) → s.caches ≡ [] → (slab_init_subsystem s).caches ≡ start_caches
unfolding slab_init_subsystem kmem_cache_create new_cache align_up
slab_init_subsystem_lem s e = rw e refl

kmem_cache_create-frames :
    (size flags : ℕ) (s : Slabs) → (kmem_cache_create size flags s).1.frames ≡ s.frames
unfolding kmem_cache_create
kmem_cache_create-frames size flags s = elim (Bool-cases (leb max_caches (length s.caches))) [
  | inl full ↦ rw full refl
  | inr room ↦ elim (Bool-cases (ltb size min_object_size || ltb max_object_size size)) [
    | inl out ↦ rw (room, out) refl
    | inr fits ↦ rw (room, fits) refl
  ]
]

pub slab_init_subsystem-frames : (s : Slabs) → (slab_init_subsystem s).frames ≡ s.frames
unfolding slab_init_subsystem
slab_init_subsystem-frames s =
    rw
      (
        kmem_cache_create-frames 2048 2 _,
        kmem_cache_create-frames 1024 1 _,
        kmem_cache_create-frames 512 1 _,
        kmem_cache_create-frames 256 1 _,
        kmem_cache_create-frames 128 1 _,
        kmem_cache_create-frames 64 1 _,
        kmem_cache_create-frames 32 1 s,
      )
      refl

-- How far the objects of the cache run past the page.
abbrev pub excess : ℕ → ℕ
excess i = if ltb i 6 then 64 * (i + 1) else 0

-- The end of the last object of a slab.
abbrev pub objects_end : ℕ → Slab → ℕ
objects_end size b = b.objects + b.total * size

end_of :
    (i : ℕ) (c : Cache) (p : ℕ) (f : Frames) (s : Slabs)
    → p ≢ 0
    → cache_at i s ≡ c
    → c.slabs_partial ≡ 0
    → objects_end c.aligned_size ((make_slab i (p, f) s).1.heap p)
      ≡ p + align_up 64 c.aligned_size + c.color + c.objects_per_slab * c.aligned_size
unfolding make_slab slab_init push
end_of i c p f s real e empty = rw (ne→== p 0 real, e, empty, eq→== p p refl) refl

-- What the arithmetic of the caches gives.
laid :
    (i : ℕ)
    → i < 7
    → let c = get_or start_caches i no_cache in
      (c.slabs_partial ≡ 0)
      × (align_up 64 c.aligned_size + c.color + c.objects_per_slab * c.aligned_size
          ≡ 4096 + excess i)
unfolding align_up
laid zero h = (refl, refl)
laid (suc zero) h = (refl, refl)
laid (suc (suc zero)) h = (refl, refl)
laid (suc (suc (suc zero))) h = (refl, refl)
laid (suc (suc (suc (suc zero)))) h = (refl, refl)
laid (suc (suc (suc (suc (suc zero))))) h = (refl, refl)
laid (suc (suc (suc (suc (suc (suc zero)))))) h = (refl, refl)
laid (suc (suc (suc (suc (suc (suc (suc i))))))) h = absurd (omega (arith, h))

-- The first slab of each cache that slab_init_subsystem makes, in a page that is not NULL: the
-- objects of caches number 0 to 5 end 64 * (i + 1) bytes past the end of the page, those of cache
-- number 6 at its end.
pub make_slab_end :
    (i p : ℕ) (f : Frames) (s : Slabs)
    → s.caches ≡ []
    → i < 7
    → p ≢ 0
    → let t = slab_init_subsystem s in
      objects_end (cache_at i t).aligned_size ((make_slab i (p, f) t).1.heap p)
      ≡ p + 4096 + excess i
make_slab_end i p f s e small real =
    let t = slab_init_subsystem s in
    let caches = slab_init_subsystem_lem s e in
    let at : cache_at i t ≡ get_or start_caches i no_cache =
      ap (λ cs. get_or cs i no_cache) caches in
    let (empty, ends) = laid i small in
    ap (λ (c : Cache). objects_end c.aligned_size ((make_slab i (p, f) t).1.heap p)) at
    ∙ end_of i (get_or start_caches i no_cache) p f t real at empty
    ∙ omega (arith, ends)
