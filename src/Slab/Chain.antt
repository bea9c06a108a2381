-- ===== src/Slab/Chain.antt =====
-- The free objects of a slab of kernel/memory/slab.c as a chain of links.
use mathlib.Core.Path.{subst}
use cellkernelqwen.Prelude.{
  ℕ, zero, suc, ◌+◌, ◌-◌, ◌*◌, ◌<◌, ◌≡◌, ◌≢◌, refl, sym, ap, ◌∙◌, arith, List, [], ◌∷◌, ne→==,
  eq→==,
}
use cellkernelqwen.Frames.Zone.{Memory, store}
use cellkernelqwen.Slab.Cache.{Cache, Slabs, build_freelist, slab_init}

-- The addresses that the links from `at` on pass, in order, the last link being NULL.
abbrev pub IsChain : Memory → ℕ → List ℕ → Type 0
IsChain memory at [] = at ≡ 0
IsChain memory at (x ∷ xs) = (at ≡ x) × (x ≢ 0) × IsChain memory (memory x) xs

-- `rounds + 1` addresses a step apart.
abbrev pub spaced : ℕ → ℕ → ℕ → List ℕ
spaced zero obj step = obj ∷ []
spaced (suc rounds) obj step = obj ∷ spaced rounds (obj + step) step

-- What lies below the first object is not written.
pub build_freelist-below :
    (rounds obj step a : ℕ) (memory : Memory)
    → a < obj
    → build_freelist rounds obj step memory a ≡ memory a
unfolding build_freelist
build_freelist-below zero obj step a memory h = rw (ne→== a obj (λ e. omega (arith, e, h))) refl
build_freelist-below (suc rounds) obj step a memory h =
    build_freelist-below rounds (obj + step) step a (store obj (obj + step) memory) (omega arith)
    ∙ rw (ne→== a obj (λ e. omega (arith, e, h))) refl

build_freelist-IsChain :
    (rounds obj step : ℕ) (memory : Memory)
    → 0 < step
    → 0 < obj
    → IsChain (build_freelist rounds obj step memory) obj (spaced rounds obj step)
unfolding build_freelist
build_freelist-IsChain zero obj step memory apart real =
    (refl, λ e. omega (arith, e, real), rw (eq→== obj obj refl) refl)
build_freelist-IsChain (suc rounds) obj step memory apart real =
    let after = build_freelist rounds (obj + step) step (store obj (obj + step) memory) in
    let here : after obj ≡ obj + step =
      build_freelist-below rounds (obj + step) step obj (store obj (obj + step) memory)
        (omega arith)
      ∙ rw (eq→== obj obj refl) refl in
    (
      refl,
      λ e. omega (arith, e, real),
      subst (λ (t : ℕ). IsChain after t (spaced rounds (obj + step) step)) (sym here)
          (build_freelist-IsChain rounds (obj + step) step (store obj (obj + step) memory) apart
            (omega arith)),
    )

-- The last link is NULL.
pub build_freelist_last :
    (rounds obj step : ℕ) (memory : Memory)
    → build_freelist rounds obj step memory (obj + rounds * step) ≡ 0
unfolding build_freelist
build_freelist_last zero obj step memory = rw (eq→== (obj + 0 * step) obj (omega arith)) refl
build_freelist_last (suc rounds) obj step memory =
    ap (build_freelist rounds (obj + step) step (store obj (obj + step) memory))
      {x = obj + suc rounds * step} {y = obj + step + rounds * step} (omega arith)
    ∙ build_freelist_last rounds (obj + step) step (store obj (obj + step) memory)

-- After slab_init the free objects of the slab are its objects_per_slab objects, one aligned size
-- apart, from its memory and the color on, and none is in use.
pub slab_init-IsChain :
    (slab number : ℕ) (c : Cache) (memory : ℕ) (s : Slabs)
    → 0 < c.objects_per_slab
    → 0 < c.aligned_size
    → 0 < memory
    → let r = slab_init slab number c memory s in
      IsChain r.frames.memory
        (r.heap slab).freelist
        (spaced (c.objects_per_slab - 1) (memory + c.color) c.aligned_size)
      × ((r.heap slab).total ≡ c.objects_per_slab)
      × ((r.heap slab).inuse ≡ 0)
unfolding slab_init
slab_init-IsChain slab number c memory s some apart real = rw (eq→== slab slab refl) (
  build_freelist-IsChain (c.objects_per_slab - 1) (memory + c.color) c.aligned_size s.frames.memory
      apart (omega arith),
  refl,
  refl,
)
