-- ===== src/Slab/Pages.antt =====
-- What `kfree` of kernel/memory/slab.c does with blocks that are not in a partial slab.
use cellkernelqwen.Prelude.{
  ℕ, zero, suc, ◌+◌, ◌<◌, ◌≡◌, ◌≢◌, refl, ap, ◌∙◌, inl, inr, Bool, true, false, arith, Bool-cases,
  some, List, [], ◌∷◌, length, ◌==◌, ne→==, eq→==, lt→ltb,
}
use cellkernelqwen.Prelude.Status.{pos}
use cellkernelqwen.Frames.Alloc.{alloc_pages}
use cellkernelqwen.Slab.Cache.{Cache, Heap, Slabs}
use cellkernelqwen.Slab.Lists.{contains, find_slab, max_slabs}
use cellkernelqwen.Slab.General.{order_for, take_pages, kmalloc_from, kmalloc, kfree_from, kfree}
use cellkernelqwen.Slab.Classes.{sizes, start_sizes, no_class}

-- The slabs of a list from its head on, none of which holds the address.
abbrev pub IsOutside : Heap → ℕ → ℕ → ℕ → List ℕ → Type 0
IsOutside heap size ptr head [] = head ≡ 0
IsOutside heap size ptr head (x ∷ xs) =
    (head ≡ x)
    × (x ≢ 0)
    × (contains size ptr (heap x) ≡ false)
    × IsOutside heap size ptr (heap x).next xs

-- No cache has a partial slab that holds the address.
abbrev pub IsUnlisted : Heap → ℕ → List Cache → Type 0
IsUnlisted heap ptr [] = Unit
IsUnlisted heap ptr (c ∷ cs) =
    ((xs : List ℕ) × (length xs < max_slabs) × IsOutside heap c.aligned_size ptr c.slabs_partial xs)
    × IsUnlisted heap ptr cs

find_slab-outside :
    (rounds : ℕ) (xs : List ℕ) (head size ptr : ℕ) (heap : Heap)
    → length xs < rounds
    → IsOutside heap size ptr head xs
    → find_slab rounds head size ptr heap ≡ 0
unfolding find_slab
find_slab-outside zero xs head size ptr heap h out = absurd (omega (arith, h))
find_slab-outside (suc rounds) [] head size ptr heap h out =
    ap
      (λ (null : Bool). elim null [
        | true ↦ 0
        | false ↦ elim (contains size ptr (heap head)) [
          | true ↦ head
          | false ↦ find_slab rounds (heap head).next size ptr heap
        ]
      ])
      (eq→== head 0 out)
find_slab-outside (suc rounds) (x ∷ xs) head size ptr heap h (at, real, out, rest) =
    ap (λ (t : ℕ). find_slab (suc rounds) t size ptr heap) at
    ∙ ap
        (λ (null : Bool). elim null [
          | true ↦ 0
          | false ↦ elim (contains size ptr (heap x)) [
            | true ↦ x
            | false ↦ find_slab rounds (heap x).next size ptr heap
          ]
        ])
        (ne→== x 0 real)
    ∙ ap
        (λ (holds : Bool). elim holds [
          | true ↦ x
          | false ↦ find_slab rounds (heap x).next size ptr heap
        ])
        out
    ∙ find_slab-outside rounds xs (heap x).next size ptr heap (omega (arith, h)) rest

kfree_from-unlisted :
    (i : ℕ) (cs : List Cache) (ptr : ℕ) (s : Slabs)
    → IsUnlisted s.heap ptr cs
    → kfree_from i cs ptr s ≡ s
unfolding kfree_from
kfree_from-unlisted i [] ptr s h = refl
kfree_from-unlisted i (c ∷ cs) ptr s ((xs, short, out), rest) =
    rw (find_slab-outside max_slabs xs c.slabs_partial c.aligned_size ptr s.heap short out)
      (kfree_from-unlisted (i + 1) cs ptr s rest)

pub kfree-unlisted : (ptr : ℕ) (s : Slabs) → IsUnlisted s.heap ptr s.caches → kfree ptr s ≡ s
unfolding kfree
kfree-unlisted ptr s h = elim (Bool-cases (ptr == 0)) [
  | inl e ↦ rw e refl
  | inr e ↦ rw e (kfree_from-unlisted 0 s.caches ptr s h)
]

pub kmalloc-take_pages :
    (size order : ℕ) (s : Slabs)
    → sizes s.caches ≡ start_sizes
    → 2048 < size
    → order_for size ≡ some order
    → kmalloc size s ≡ take_pages (some order) s
unfolding kmalloc kmalloc_from
kmalloc-take_pages size order s e big found =
    rw (no_class size s e big, lt→ltb 2048 size big, found) refl

-- With the caches of slab_init_subsystem, a request of more than 2048 bytes for which the loop ends
-- with an order takes a block of that order from alloc_pages, and when no partial slab holds its
-- address kfree of it changes nothing: its pages stay taken.
pub kfree-kmalloc :
    (size order : ℕ) (s : Slabs)
    → sizes s.caches ≡ start_sizes
    → 2048 < size
    → order_for size ≡ some order
    → IsUnlisted s.heap (alloc_pages order (pos 0) s.frames).0 s.caches
    → let (page, frames) = alloc_pages order (pos 0) s.frames in
      let taken : Slabs = record { caches = s.caches; heap = s.heap; frames = frames } in
      (kmalloc size s ≡ some (page, taken)) × (kfree page taken ≡ taken)
unfolding kmalloc kmalloc_from take_pages
kfree-kmalloc size order s e big found unlisted =
    (rw (no_class size s e big, lt→ltb 2048 size big, found) refl, kfree-unlisted _ _ unlisted)
