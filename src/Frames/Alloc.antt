-- ===== src/Frames/Alloc.antt =====
-- `alloc_pages_zone`, `alloc_pages` and `alloc_page` of kernel/memory/frame_alloc.c.
use cellkernelqwen.Prelude.{
  ℕ, zero, suc, ◌+◌, ◌-◌, List, get_or, set, add64, sub64, ◌<<<◌, ◌==◌, ltb, if◌then◌else◌,
}
use cellkernelqwen.Prelude.Status.{ℤ, pos, negsuc}
use cellkernelqwen.Frames.Zone.{
  Area, Zone, Memory, Frames, area_at, empty_zone, get_buddy, nr_free_area, max_zones, zone_normal,
}

-- The page, 0 for NULL, with the free areas of the zone and `g_free_pages` afterwards.
pub record Taken : Type 0 where
  pub page : ℕ
  pub areas : List Area
  pub free_count : ℕ

abbrev pub nothing : List Area → ℕ → Taken
nothing areas count = record { page = 0; areas = areas; free_count = count }

unfoldable pub pop_block : Memory → ℕ → List Area → ℕ → Taken
pop_block memory order areas count =
    let area = area_at areas order in
    record {
      page = area.free_list;
      areas =
          set areas order
            (record { nr_free = sub64 area.nr_free 1; free_list = memory area.free_list });
      free_count = sub64 count (1 <<< order);
    }

-- The upper half of the block taken at the next order becomes the free list of this one.
unfoldable pub split_block : ℕ → Taken → Taken
split_block order taken = record {
  page = taken.page;
  areas = set taken.areas order (record {
    nr_free = add64 (area_at taken.areas order).nr_free 1;
    free_list = get_buddy taken.page order;
  });
  free_count = taken.free_count;
}

unfoldable pub split_found : ℕ → Taken → Taken
split_found order taken = if taken.page == 0 then taken else split_block order taken

-- `levels` is how many orders from `order` on there are: at none `order >= NR_FREE_AREA`.
unfoldable pub alloc_levels : Memory → ℕ → ℕ → List Area → ℕ → Taken
alloc_levels memory zero order areas count = nothing areas count
alloc_levels memory (suc levels) order areas count =
    let higher = alloc_levels memory levels (order + 1) areas count in
    if (area_at areas order).nr_free == 0
    then split_found order higher
    else pop_block memory order areas count

unfoldable pub alloc_pages_zone : Memory → Zone → ℕ → ℕ → Taken
alloc_pages_zone memory zone count order =
    alloc_levels memory (nr_free_area - order) order zone.areas count

unfoldable pub zone_index : ℤ → ℕ
zone_index (negsuc n) = zone_normal
zone_index (pos n) = if ltb n max_zones then n else zone_normal

abbrev pub put_areas : ℕ → List Area → ℕ → Memory → Frames → Frames
put_areas index areas count memory f =
    let zone = get_or f.zones index empty_zone in
    record {
      zones =
          set f.zones index
            (record { areas = areas; start_pfn = zone.start_pfn; size = zone.size });
      total_pages = f.total_pages;
      free_pages_count = count;
      memory = memory;
    }

-- What `alloc_pages` returns and the state it leaves.
unfoldable pub alloc_pages : ℕ → ℤ → Frames → ℕ × Frames
alloc_pages order zone_idx f =
    let index = zone_index zone_idx in
    let taken =
      alloc_pages_zone f.memory (get_or f.zones index empty_zone) f.free_pages_count order in
    (taken.page, put_areas index taken.areas taken.free_count f.memory f)

unfoldable pub alloc_page : ℤ → Frames → ℕ × Frames
alloc_page zone_idx f = alloc_pages 0 zone_idx f
