-- ===== src/Frames/Requests.antt =====
-- `alloc_pages` and `free_pages` of kernel/memory/frame_alloc.c on the whole state.
use native.Mathlib.Nat.{mul-le-mul_right}
use cellkernelqwen.Prelude.{
  ℕ, ◌+◌, ◌-◌, ◌*◌, ◌^◌, ◌≤◌, ◌<◌, ◌≡◌, ◌≢◌, ap, ◌∙◌, List, arith, length, get_or, get_or-set_self,
  ne→==, sub64, add64, ◌<<<◌, ◌>>>◌,
}
use cellkernelqwen.Prelude.Bits.{pow_pos}
use cellkernelqwen.Prelude.Status.{ℤ}
use cellkernelqwen.Frames.Zone.{
  store, Area, Zone, Memory, Frames, area_at, empty_zone, get_free_pages, page_shift, max_order,
  nr_free_area,
}
use cellkernelqwen.Frames.Alloc.{alloc_pages, alloc_pages_zone, zone_index, put_areas}
use cellkernelqwen.Frames.Free.{coalesce, push_areas, push_block, free_block, free_pages, free_zone}
use cellkernelqwen.Frames.Listed.{listed_pages}
use cellkernelqwen.Frames.Found.{IsBounded}
use cellkernelqwen.Frames.Account.{alloc_levels-listed}
use cellkernelqwen.Frames.First.{cut_area, alloc_levels-IsCut}
use cellkernelqwen.Frames.Buddy.{block_at}
use cellkernelqwen.Frames.Merge.{IsTidy, coalesce-listed}

-- The free areas of a zone.
abbrev pub areas_of : ℕ → Frames → List Area
areas_of index f = (get_or f.zones index empty_zone).areas

pub areas_of-put_areas :
    (index : ℕ) (areas : List Area) (count : ℕ) (memory : Memory) (f : Frames)
    → index < length f.zones
    → areas_of index (put_areas index areas count memory f) ≡ areas
areas_of-put_areas index areas count memory f h =
    ap (λ (z : Zone). z.areas) (get_or-set_self f.zones index _ empty_zone h)

-- When k is the first order, from the one asked for up, whose area is not empty, alloc_pages
-- returns the head of its list, get_free_pages falls by the 2^k pages of that block, not by those
-- of the order asked for, and each order in between lists the upper half of what was cut there.
pub alloc_pages_first :
    (f : Frames) (zone_idx : ℤ) (order k : ℕ)
    → let index = zone_index zone_idx in
      index < length f.zones
      → length (areas_of index f) ≡ 12
      → order ≤ k
      → k < 12
      → ((j : ℕ) → order ≤ j → j < k → (area_at (areas_of index f) j).nr_free ≡ 0)
      → (area_at (areas_of index f) k).nr_free ≢ 0
      → (area_at (areas_of index f) k).free_list ≢ 0
      → let r = alloc_pages order zone_idx f in
        (r.0 ≡ (area_at (areas_of index f) k).free_list)
        × (get_free_pages r.1 ≡ sub64 (get_free_pages f) (1 <<< k))
        × ((j : ℕ)
            → area_at (areas_of index r.1) j
              ≡ cut_area f.memory order k
                  (areas_of index f)
                  (area_at (areas_of index f) k).free_list
                  j)
unfolding alloc_pages alloc_pages_zone get_free_pages
alloc_pages_first f zone_idx order k known len low high empty some real =
    let index = zone_index zone_idx in
    let taken =
      alloc_pages_zone f.memory (get_or f.zones index empty_zone) f.free_pages_count order in
    let (page, counted, cut) =
      alloc_levels-IsCut f.memory (k - order) (nr_free_area - order) order k (areas_of index f)
        f.free_pages_count (omega arith) (omega arith) (omega arith) empty some real in
    (
      page,
      counted,
      λ j.
          ap (λ (t : List Area). area_at t j)
            (areas_of-put_areas index taken.areas taken.free_count f.memory f known)
          ∙ cut j,
    )

-- An allocation that returns a page takes exactly 2^order pages off the free lists of its zone,
-- when the order is below 12 and no count of blocks is at its limit.
pub alloc_pages_listed :
    (f : Frames) (zone_idx : ℤ) (order : ℕ)
    → let index = zone_index zone_idx in
      index < length f.zones
      → length (areas_of index f) ≡ 12
      → order < 12
      → IsBounded (areas_of index f)
      → (alloc_pages order zone_idx f).0 ≢ 0
      → listed_pages (areas_of index (alloc_pages order zone_idx f).1) + 2 ^ order
        ≡ listed_pages (areas_of index f)
unfolding alloc_pages alloc_pages_zone
alloc_pages_listed f zone_idx order known len h bound some =
    let index = zone_index zone_idx in
    let taken =
      alloc_pages_zone f.memory (get_or f.zones index empty_zone) f.free_pages_count order in
    ap (λ (t : List Area). listed_pages t + 2 ^ order)
      (areas_of-put_areas index taken.areas taken.free_count f.memory f known)
    ∙ alloc_levels-listed f.memory (nr_free_area - order) order (areas_of index f)
        f.free_pages_count (omega arith) bound some

block-positive : (order n : ℕ) → 2 ^ (11 - order) ≤ n → block_at order n ≢ 0
block-positive order n big =
    let enough =
      mul-le-mul_right {m = 1} {n = n} (2 ^ order) (omega (arith, pow_pos (11 - order))) in
    λ e. omega (arith, enough, pow_pos order)

-- Freeing a block of 2^order pages puts exactly 2^order pages on the free lists of its zone,
-- whatever is merged. The order is at most 11; the block, number n among those of its size, lies at 8 MB
-- or above and below 2^63; the zone has 12 areas, an empty area has no list and no count of blocks is
-- at its limit.
pub free_pages_listed :
    (f : Frames) (order n : ℕ)
    → let page = block_at order n in
      let index = free_zone (page >>> page_shift) in
      index < length f.zones
      → length (areas_of index f) ≡ 12
      → order ≤ 11
      → 2 ^ (11 - order) ≤ n
      → n * 2 ^ order < 2 ^ 51
      → IsTidy order (areas_of index f)
      → listed_pages (areas_of index (free_pages page order f))
        ≡ listed_pages (areas_of index f) + 2 ^ order
unfolding free_pages free_block push_block
free_pages_listed f order n known len h big fits tidy =
    let index = free_zone (block_at order n >>> page_shift) in
    let m = coalesce f.memory (max_order - order) (block_at order n) order (areas_of index f) in
    rw (ne→== (block_at order n) 0 (block-positive order n big)) (
      ap listed_pages (
        areas_of-put_areas index (push_areas m) (add64 f.free_pages_count (1 <<< m.order))
          (store m.page (area_at m.areas m.order).free_list f.memory) f known)
      ∙ coalesce-listed f.memory (max_order - order) order n (areas_of index f) (omega arith) big
          fits len tidy)
