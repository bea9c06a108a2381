-- ===== src/Frames/Free.antt =====
-- `free_pages` and `free_page` of kernel/memory/frame_alloc.c.
use cellkernelqwen.Prelude.{
  ℕ, zero, suc, ◌-◌, List, get_or, set, add64, sub64, ◌<<<◌, ◌>>>◌, ◌==◌, ltb, bit_and,
  if◌then◌else◌,
}
use cellkernelqwen.Frames.Zone.{
  Area, Memory, Frames, area_at, store, get_buddy, empty_zone, max_order, page_shift, zone_dma,
  zone_normal,
}
use cellkernelqwen.Frames.Alloc.{put_areas}

-- The block, its order and the free areas after the loop over buddies.
pub record Merged : Type 0 where
  pub page : ℕ
  pub order : ℕ
  pub areas : List Area

abbrev pub unlink_buddy : Memory → ℕ → ℕ → List Area → List Area
unlink_buddy memory order buddy areas =
    set areas order
      (record { nr_free = sub64 (area_at areas order).nr_free 1; free_list = memory buddy })

-- `levels` is `MAX_ORDER - order`: at none the condition of the loop fails.
unfoldable pub coalesce : Memory → ℕ → ℕ → ℕ → List Area → Merged
coalesce memory zero page order areas = record { page = page; order = order; areas = areas }
coalesce memory (suc levels) page order areas =
    let buddy = get_buddy page order in
    let rest =
      coalesce memory levels (bit_and page buddy) (suc order)
        (unlink_buddy memory order buddy areas) in
    if (area_at areas order).free_list == buddy
    then rest
    else record { page = page; order = order; areas = areas }

unfoldable pub push_areas : Merged → List Area
push_areas m =
    set m.areas m.order
      (record { nr_free = add64 (area_at m.areas m.order).nr_free 1; free_list = m.page })

-- A free block is written its successor.
unfoldable pub push_block : ℕ → Merged → Frames → Frames
push_block index m f =
    put_areas index (push_areas m) (add64 f.free_pages_count (1 <<< m.order))
      (store m.page (area_at m.areas m.order).free_list f.memory) f

unfoldable pub free_zone : ℕ → ℕ
free_zone pfn = if ltb pfn (0x10000000 >>> page_shift) then zone_dma else zone_normal

unfoldable pub free_block : ℕ → ℕ → Frames → Frames
free_block page order f =
    let index = free_zone (page >>> page_shift) in
    push_block index
      (coalesce f.memory (max_order - order) page order (get_or f.zones index empty_zone).areas) f

unfoldable pub free_pages : ℕ → ℕ → Frames → Frames
free_pages page order f = if page == 0 then f else free_block page order f

unfoldable pub free_page : ℕ → Frames → Frames
free_page page f = free_pages page 0 f
