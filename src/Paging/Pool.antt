-- ===== src/Paging/Pool.antt =====
-- The pages of kernel/memory/frame_alloc.c that alloc_page gives to kernel/memory/paging.c.
use mathlib.Core.Path.{subst}
use cellkernelqwen.Prelude.{
  ℕ, zero, suc, ◌*◌, ◌/◌, ◌^◌, ◌<◌, ◌≡◌, ◌≢◌, ◌⊎◌, refl, sym, ap, ◌∙◌, inl, inr, Bool, true, false,
  arith, List, [], ◌∷◌, length, length-set, ◌==◌, sub64, ap₂, le→ltb, ne→==, if◌then◌else◌,
}
use cellkernelqwen.Prelude.Status.{pos}
use cellkernelqwen.Frames.Zone.{Area, Memory, Frames, area_at, nr_free_area}
use cellkernelqwen.Frames.Alloc.{
  Taken, alloc_page, alloc_pages, alloc_pages_zone, zone_index, alloc_levels,
}
use cellkernelqwen.Frames.Found.{alloc_levels-empty, alloc_levels-length}
use cellkernelqwen.Frames.Requests.{areas_of, areas_of-put_areas, alloc_pages_first}
use cellkernelqwen.Frames.First.{cut_area}

-- The blocks of a free list of some length.
abbrev pub chain : ℕ → ℕ → Memory → List ℕ
chain zero page memory = []
chain (suc n) page memory = page ∷ chain n (memory page) memory

-- The single pages that the DMA zone lists.
abbrev pub pool : Frames → List ℕ
pool f = let area = area_at (areas_of 0 f) 0 in chain area.nr_free area.free_list f.memory

abbrev pub among : ℕ → List ℕ → Bool
among p [] = false
among p (x ∷ xs) = let rest = among p xs in if p == x then true else rest

-- A page was given, or there was none.
abbrev pub Draws : ℕ → List ℕ → List ℕ → Type 0
Draws page before after = ((page ≡ 0) × (after ≡ before)) ⊎ (before ≡ page ∷ after)

cut_first :
    (memory : Memory) (areas : List Area) (page : ℕ)
    → cut_area memory 0 0 areas page 0
      ≡ record { nr_free = sub64 (area_at areas 0).nr_free 1; free_list = memory page }
unfolding cut_area
cut_first memory areas page = refl

cut_higher :
    (memory : Memory) (areas : List Area) (page j : ℕ)
    → cut_area memory 0 0 areas page (suc j) ≡ area_at areas (suc j)
unfolding cut_area
cut_higher memory areas page j =
    rw (le→ltb (suc j) 0 (omega arith), ne→== (suc j) 0 (omega arith)) refl

alloc_page-zones : (f : Frames) → length (alloc_page (pos 0) f).1.zones ≡ length f.zones
unfolding alloc_page alloc_pages zone_index
alloc_page-zones f = length-set f.zones 0 _

alloc_page-areas :
    (f : Frames)
    → 0 < length f.zones
    → length (areas_of 0 (alloc_page (pos 0) f).1) ≡ length (areas_of 0 f)
unfolding alloc_page alloc_pages alloc_pages_zone zone_index
alloc_page-areas f known =
    let taken = alloc_levels f.memory nr_free_area 0 (areas_of 0 f) f.free_pages_count in
    ap (λ (t : List Area). length t)
      (areas_of-put_areas 0 taken.areas taken.free_count f.memory f known)
    ∙ alloc_levels-length f.memory nr_free_area 0 (areas_of 0 f) f.free_pages_count

alloc_page-memory : (f : Frames) → (alloc_page (pos 0) f).1.memory ≡ f.memory
unfolding alloc_page alloc_pages
alloc_page-memory f = refl

module _ (phys_to_virt virt_to_phys : ℕ → ℕ) where
  -- A page below 2^52 whose address can be converted to a physical one and back.
  pub record IsPage (p : ℕ) : Type 0 where
    pub real : p ≢ 0
    pub low : virt_to_phys p < 2 ^ 52
    pub aligned : virt_to_phys p ≡ virt_to_phys p / 4096 * 4096
    pub converts : phys_to_virt (virt_to_phys p) ≡ p

  -- Pages that are all different.
  abbrev pub ArePages : List ℕ → Type 0
  ArePages [] = Unit {0}
  ArePages (x ∷ xs) = IsPage x × (among x xs ≡ false) × ArePages xs

  -- The DMA zone is set up, holds no larger blocks, and its single pages are all different.
  pub record IsStocked (f : Frames) : Type 0 where
    pub known : 0 < length f.zones
    pub sized : length (areas_of 0 f) ≡ 12
    pub higher : (j : ℕ) → (area_at (areas_of 0 f) (suc j)).nr_free ≡ 0
    pub counted : (area_at (areas_of 0 f) 0).nr_free < 2 ^ 64
    pub pages : ArePages (pool f)

  abbrev first_area : Frames → Area
  first_area f = area_at (areas_of 0 f) 0

  -- What the request leaves: a state of the same kind, with one page less or none to give.
  abbrev pub Leaves : Frames → ℕ × Frames → Type 0
  Leaves f r = IsStocked r.1 × Draws r.0 (pool f) (pool r.1)

  null_areas :
      (f : Frames)
      → IsStocked f
      → (first_area f).nr_free ≡ 0
      → (j : ℕ) → (area_at (areas_of 0 f) j).nr_free ≡ 0
  null_areas f h none_free zero = none_free
  null_areas f h none_free (suc j) = h.higher j

  alloc_page-none :
      (f : Frames)
      → IsStocked f
      → (first_area f).nr_free ≡ 0
      → ((alloc_page (pos 0) f).0 ≡ 0) × (areas_of 0 (alloc_page (pos 0) f).1 ≡ areas_of 0 f)
  unfolding alloc_page alloc_pages alloc_pages_zone zone_index
  alloc_page-none f h none_free =
      let taken = alloc_levels f.memory nr_free_area 0 (areas_of 0 f) f.free_pages_count in
      let e =
        alloc_levels-empty f.memory nr_free_area 0 (areas_of 0 f) f.free_pages_count
          (null_areas f h none_free) in
      (
        ap (λ (t : Taken). t.page) e,
        areas_of-put_areas 0 taken.areas taken.free_count f.memory f h.known
            ∙ ap (λ (t : Taken). t.areas) e,
      )

  alloc_page-head :
      (f : Frames) (n : ℕ)
      → IsStocked f
      → (first_area f).nr_free ≡ suc n
      → (first_area f).free_list ≢ 0
      → let r = alloc_page (pos 0) f in
        let page = (first_area f).free_list in
        (r.0 ≡ page)
        × (first_area r.1 ≡ record { nr_free = n; free_list = f.memory page })
        × ((j : ℕ) → area_at (areas_of 0 r.1) (suc j) ≡ area_at (areas_of 0 f) (suc j))
  unfolding zone_index alloc_page
  alloc_page-head f n h some_free real =
      let page = (first_area f).free_list in
      let (got, counted, cut) =
        alloc_pages_first f (pos 0) 0 0 h.known h.sized (omega arith) (omega arith)
          (λ j a b. absurd (omega (arith, a, b))) (λ z. omega (arith, z, some_free)) real in
      (
        got,
        cut 0
            ∙ cut_first f.memory (areas_of 0 f) page
            ∙ ap (λ (t : ℕ). record { nr_free = t; free_list = f.memory page })
                (omega (arith, some_free, h.counted)),
        λ j. cut (suc j) ∙ cut_higher f.memory (areas_of 0 f) page j,
      )

  -- The state that is left when its areas are known.
  IsStocked-left :
      (f : Frames)
      → IsStocked f
      → let r = alloc_page (pos 0) f in
        ((j : ℕ) → area_at (areas_of 0 r.1) (suc j) ≡ area_at (areas_of 0 f) (suc j))
        → (first_area r.1).nr_free < 2 ^ 64
        → ArePages (pool r.1)
        → IsStocked r.1
  IsStocked-left f h same counted pages = record {
    known = omega (arith, h.known, alloc_page-zones f);
    sized = alloc_page-areas f h.known ∙ h.sized;
    higher = λ j. ap (λ (a : Area). a.nr_free) (same j) ∙ h.higher j;
    counted = counted;
    pages = pages;
  }

  abbrev pool_of : Memory → Area → List ℕ
  pool_of memory a = chain a.nr_free a.free_list memory

  leaves :
      (f : Frames) (n : ℕ)
      → IsStocked f
      → (first_area f).nr_free ≡ n
      → Leaves f (alloc_page (pos 0) f)
  leaves f zero h e =
      let (null, same) = alloc_page-none f h e in
      let left = ap₂ pool_of (alloc_page-memory f) (ap (λ t. area_at t 0) same) in
      (
        IsStocked-left f h (λ j. ap (λ t. area_at t (suc j)) same)
            (omega (arith, ap (λ (t : List Area). (area_at t 0).nr_free) same, h.counted))
            (subst ArePages (sym left) h.pages),
        inl (null, left),
      )
  leaves f (suc n) h e =
      let here : pool f
          ≡ (first_area f).free_list ∷ chain n (f.memory (first_area f).free_list) f.memory =
        ap (λ t. chain t (first_area f).free_list f.memory) e in
      let (page, different, rest) = subst ArePages here h.pages in
      let (got, first, same) = alloc_page-head f n h e page.real in
      let left = ap₂ pool_of (alloc_page-memory f) first in
      (
        IsStocked-left f h same (omega (arith, ap (λ (a : Area). a.nr_free) first, h.counted, e))
            (subst ArePages (sym left) rest),
        inr (here ∙ ap₂ (λ t ts. t ∷ ts) (sym got) (sym left)),
      )

  -- When the DMA zone is set up with 12 areas, holds no larger blocks, and its single pages are all
  -- different, real, aligned, below 2^52 and convertible back, alloc_page leaves it so, and either gives
  -- the first page listed and leaves the others, or returns NULL and leaves the list as it was.
  pub alloc_page-Leaves : (f : Frames) → IsStocked f → Leaves f (alloc_page (pos 0) f)
  alloc_page-Leaves f h = leaves f (first_area f).nr_free h refl
