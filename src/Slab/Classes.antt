-- ===== src/Slab/Classes.antt =====
-- Which cache of kernel/memory/slab.c `kmalloc` takes an object from.
use native.Mathlib.Nat.{pow-suc}
use mathlib.Core.Path.{subst}
use cellkernelqwen.Prelude.{
  ℕ, zero, suc, ◌+◌, ◌*◌, ◌^◌, ◌<◌, ◌≤◌, ◌≡◌, ◌⊎◌, refl, ap, ◌∙◌, inl, inr, false, arith,
  Bool-cases, Option, none, some, List, [], ◌∷◌, map, leb, leb→le, le→leb, lt→leb, if◌then◌else◌,
}
use cellkernelqwen.Slab.Cache.{Cache, Slabs, kmem_cache_create, new_cache, slab_init_subsystem}
use cellkernelqwen.Slab.Alloc.{kmem_cache_alloc}
use cellkernelqwen.Slab.General.{first_cache, kmalloc, kmalloc_from}

-- The object sizes of the caches.
abbrev pub sizes : List Cache → List ℕ
sizes cs = map (λ c. c.object_size) cs

abbrev pub start_sizes : List ℕ
start_sizes = 32 ∷ 64 ∷ 128 ∷ 256 ∷ 512 ∷ 1024 ∷ 2048 ∷ []

abbrev first_size : ℕ → ℕ → List ℕ → Option ℕ
first_size size i [] = none
first_size size i (n ∷ ns) =
    let rest = first_size size (i + 1) ns in if leb size n then some i else rest

first_cache-sizes :
    (size i : ℕ) (cs : List Cache) → first_cache size i cs ≡ first_size size i (sizes cs)
unfolding first_cache
first_cache-sizes size i [] = refl
first_cache-sizes size i (c ∷ cs) =
    ap (λ (r : Option ℕ). if leb size c.object_size then some i else r)
      (first_cache-sizes size (i + 1) cs)

-- The first class, from `32 * 2 ^ i` on, that holds the size.
abbrev pub IsClass : ℕ → ℕ → Type 0
IsClass size i = (i < 7) × (size ≤ 32 * 2 ^ i) × ((i ≡ 0) ⊎ (32 * 2 ^ i < 2 * size))

-- `rounds + 1` sizes, each the double of the one before.
abbrev doubling : ℕ → ℕ → List ℕ
doubling zero n = n ∷ []
doubling (suc rounds) n = n ∷ doubling rounds (2 * n)

out_of : (a b : ℕ) → leb a b ≡ false → b < a
out_of a b e = ground arith

doubling-IsClass :
    (rounds i n size : ℕ)
    → i + rounds ≡ 6
    → n ≡ 32 * 2 ^ i
    → size ≤ 2048
    → (i ≡ 0) ⊎ (n < 2 * size)
    → (j : ℕ) × (first_size size i (doubling rounds n) ≡ some j) × IsClass size j
doubling-IsClass zero i n size last e h before =
    let at : i ≡ 6 = omega (arith, last) in
    let top : n ≡ 2048 = e ∙ ap (λ (t : ℕ). 32 * 2 ^ t) at in
    rw (le→leb size n (omega (arith, top, h))) (
      i,
      refl,
      (
        omega (arith, at),
        omega (arith, e, top, h),
        subst (λ (t : ℕ). (i ≡ 0) ⊎ (t < 2 * size)) e before,
      ),
    )
doubling-IsClass (suc rounds) i n size last e h before = elim (Bool-cases (leb size n)) [
  | inl fits ↦ rw fits (
    i,
    refl,
    (
      omega (arith, last),
      omega (arith, e, leb→le _ _ fits),
      subst (λ (t : ℕ). (i ≡ 0) ⊎ (t < 2 * size)) e before,
    ),
  )
  | inr more ↦ rw more (
      doubling-IsClass rounds (i + 1) (2 * n) size (omega (arith, last))
        (omega (arith, e, pow-suc 2 i, ap (λ (t : ℕ). 2 ^ t) {x = i + 1} {y = suc i} (omega arith)))
        h (inr (omega (arith, out_of size n more))))
]

-- While the sizes are those of slab_init_subsystem, a request of at most 2048 bytes takes an object
-- from cache number i, whose objects have 32 * 2^i bytes, where i is the least with enough bytes.
pub kmalloc-IsClass :
    (size : ℕ) (s : Slabs)
    → sizes s.caches ≡ start_sizes
    → size ≤ 2048
    → (i : ℕ) × (kmalloc size s ≡ some (kmem_cache_alloc (some i) s)) × IsClass size i
unfolding kmalloc kmalloc_from
kmalloc-IsClass size s e h =
    let (i, found, class) = doubling-IsClass 6 0 32 size refl refl h (inl refl) in
    let first = first_cache-sizes size 0 s.caches ∙ ap (first_size size 0) e ∙ found in
    (i, ap (λ (o : Option ℕ). kmalloc_from o size s) first, class)

pub slab_init_subsystem-sizes :
    (s : Slabs) → s.caches ≡ [] → sizes (slab_init_subsystem s).caches ≡ start_sizes
unfolding slab_init_subsystem kmem_cache_create new_cache
slab_init_subsystem-sizes s e = rw e refl

-- No cache has objects of more than 2048 bytes.
pub no_class :
    (size : ℕ) (s : Slabs)
    → sizes s.caches ≡ start_sizes
    → 2048 < size
    → first_cache size 0 s.caches ≡ none
no_class size s e big =
    first_cache-sizes size 0 s.caches
    ∙ ap (first_size size 0) e
    ∙ rw
        (
          lt→leb size 32 (omega (arith, big)),
          lt→leb size 64 (omega (arith, big)),
          lt→leb size 128 (omega (arith, big)),
          lt→leb size 256 (omega (arith, big)),
          lt→leb size 512 (omega (arith, big)),
          lt→leb size 1024 (omega (arith, big)),
          lt→leb size 2048 big,
        )
        refl
