-- ===== src/Frames/Underflow.antt =====
-- `free_pages` of kernel/memory/frame_alloc.c on a block whose buddy is the page at address 0.
use cellkernelqwen.Prelude.{
  ℕ, zero, suc, ◌-◌, ◌^◌, ◌≤◌, ◌<◌, ◌≡◌, refl, ap, ◌∙◌, inl, inr, List, arith, length,
  get_or-set_self, get_or-set_ne, Bool-cases, ◌==◌, ne→==, lt→ltb, sub64, add64, ◌<<<◌, ◌>>>◌,
  bit_and,
}
use cellkernelqwen.Prelude.Bits.{pow_pos}
use cellkernelqwen.Frames.Zone.{
  Area, Memory, Frames, area_at, empty_area, get_buddy, store, page_shift, max_order, zone_dma,
}
use cellkernelqwen.Frames.Free.{
  Merged, coalesce, push_areas, push_block, free_block, free_pages, free_zone, unlink_buddy,
}
use cellkernelqwen.Frames.Buddy.{block_at, buddy-block_at, order_size}
use cellkernelqwen.Frames.Requests.{areas_of, areas_of-put_areas}

coalesce-order :
    (memory : Memory) (levels page order : ℕ) (areas : List Area)
    → order ≤ (coalesce memory levels page order areas).order
unfolding coalesce
coalesce-order memory zero page order areas = omega arith
coalesce-order memory (suc levels) page order areas =
    let buddy = get_buddy page order in
    elim (Bool-cases ((area_at areas order).free_list == buddy)) [
      | inl e ↦ rw e (
          omega (
            arith,
            coalesce-order memory levels (bit_and page buddy) (suc order)
                (unlink_buddy memory order buddy areas),
          ))
      | inr e ↦ rw e (omega arith)
    ]

coalesce-below :
    (memory : Memory) (levels page order : ℕ) (areas : List Area) (j : ℕ)
    → j < order
    → area_at (coalesce memory levels page order areas).areas j ≡ area_at areas j
unfolding coalesce
coalesce-below memory zero page order areas j h = refl
coalesce-below memory (suc levels) page order areas j h =
    let buddy = get_buddy page order in
    elim (Bool-cases ((area_at areas order).free_list == buddy)) [
      | inl e ↦ rw e (
          coalesce-below memory levels (bit_and page buddy) (suc order)
            (unlink_buddy memory order buddy areas) j (omega arith)
          ∙ get_or-set_ne areas order j _ empty_area (omega arith))
      | inr e ↦ rw e refl
    ]

push_areas-below : (m : Merged) (j : ℕ) → j < m.order → area_at (push_areas m) j ≡ area_at m.areas j
unfolding push_areas
push_areas-below m j h = get_or-set_ne m.areas m.order j _ empty_area (omega arith)

-- The loop takes NULL, the list of an empty area, for the buddy at address 0.
merge_null :
    (memory : Memory) (levels order : ℕ) (areas : List Area)
    → order ≤ 10
    → order < length areas
    → (area_at areas order).nr_free ≡ 0
    → (area_at areas order).free_list ≡ 0
    → (area_at
        (push_areas (coalesce memory (suc levels) (block_at order 1) order areas))
        order).nr_free
      ≡ 2 ^ 64 - 1
unfolding coalesce
merge_null memory levels order areas h short none_free no_list =
    let buddy : get_buddy (block_at order 1) order ≡ 0 =
      buddy-block_at order 0 1 (omega arith) (omega arith)
        (omega (arith, order_size order (omega arith)))
      ∙ omega arith in
    let page = bit_and (block_at order 1) 0 in
    let unlinked = unlink_buddy memory order 0 areas in
    let m = coalesce memory levels page (suc order) unlinked in
    rw (buddy, no_list)
      (ap (λ (a : Area). a.nr_free)
          (push_areas-below m order
              (omega (arith, coalesce-order memory levels page (suc order) unlinked))
            ∙ coalesce-below memory levels page (suc order) unlinked order (omega arith)
            ∙ get_or-set_self areas order _ empty_area short)
        ∙ ap (λ n. sub64 n 1) none_free)

free_zone_low : (order : ℕ) → order ≤ 10 → free_zone (block_at order 1 >>> page_shift) ≡ zone_dma
unfolding free_zone
free_zone_low order h =
    rw
      (lt→ltb (block_at order 1 >>> page_shift) (0x10000000 >>> page_shift)
        (omega (arith, order_size order (omega arith))))
      refl

-- When free_pages is given the block of 2^order pages that starts at page 2^order, for an order
-- below 11 whose area in the DMA zone is empty, the count of free blocks of that order wraps to
-- 2^64 - 1.
pub free_pages_underflow :
    (f : Frames) (order : ℕ)
    → zone_dma < length f.zones
    → length (areas_of zone_dma f) ≡ 12
    → order ≤ 10
    → (area_at (areas_of zone_dma f) order).nr_free ≡ 0
    → (area_at (areas_of zone_dma f) order).free_list ≡ 0
    → (area_at (areas_of zone_dma (free_pages (block_at order 1) order f)) order).nr_free
      ≡ 2 ^ 64 - 1
unfolding free_pages free_block push_block
free_pages_underflow f order known len h none_free no_list =
    let m = coalesce f.memory (max_order - order) (block_at order 1) order (areas_of zone_dma f) in
    rw (ne→== (block_at order 1) 0 (λ e. omega (arith, e, pow_pos order)), free_zone_low order h)
      (ap (λ (t : List Area). (area_at t order).nr_free)
          (areas_of-put_areas zone_dma (push_areas m) (add64 f.free_pages_count (1 <<< m.order))
            (store m.page (area_at m.areas m.order).free_list f.memory) f known)
        ∙ ap
            (λ l.
              (area_at
                (push_areas (coalesce f.memory l (block_at order 1) order (areas_of zone_dma f)))
                order).nr_free)
            {x = max_order - order} {y = suc (10 - order)} (omega arith)
        ∙ merge_null f.memory (10 - order) order (areas_of zone_dma f) h (omega arith) none_free
            no_list)
