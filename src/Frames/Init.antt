-- ===== src/Frames/Init.antt =====
-- `frame_allocator_init` of kernel/memory/frame_alloc.c.
use cellkernelqwen.Prelude.{
  ℕ, List, [], ◌∷◌, map, get_or, set, replicate, add64, ltb, ◌==◌, if◌then◌else◌, ◌>>>◌,
}
use cellkernelqwen.Frames.Zone.{
  Zone, Frames, empty_area, empty_zone, nr_free_area, page_shift, zone_dma, zone_normal,
}

-- `efi_memory_descriptor_t`, the fields that are read. The list has the `map_size / desc_size`
-- entries of the map.
pub record Descriptor : Type 0 where
  pub type : ℕ
  pub physical_start : ℕ
  pub virtual_start : ℕ
  pub num_pages : ℕ
  pub attribute : ℕ

abbrev pub conventional_memory : ℕ
conventional_memory = 7

unfoldable pub zone_of : ℕ → ℕ
zone_of physical_start = if ltb physical_start 0x10000000 then zone_dma else zone_normal

unfoldable pub grow_zone : Descriptor → Zone → Zone
grow_zone d zone = record {
  areas = zone.areas;
  start_pfn = if zone.start_pfn == 0 then d.physical_start >>> page_shift else zone.start_pfn;
  size = add64 zone.size d.num_pages;
}

unfoldable pub count_conventional : Descriptor → Frames → Frames
count_conventional d f =
    let index = zone_of d.physical_start in
    record {
      zones = set f.zones index (grow_zone d (get_or f.zones index empty_zone));
      total_pages = add64 f.total_pages d.num_pages;
      free_pages_count = add64 f.free_pages_count d.num_pages;
      memory = f.memory;
    }

unfoldable pub read_entry : Descriptor → Frames → Frames
read_entry d f = if d.type == conventional_memory then count_conventional d f else f

unfoldable pub read_map : List Descriptor → Frames → Frames
read_map [] f = f
read_map (d ∷ ds) f = read_map ds (read_entry d f)

unfoldable pub clear_zone : Zone → Zone
clear_zone zone = record {
  areas = replicate nr_free_area empty_area;
  start_pfn = zone.start_pfn;
  size = zone.size;
}

unfoldable pub clear_lists : Frames → Frames
clear_lists f = record {
  zones = map clear_zone f.zones;
  total_pages = f.total_pages;
  free_pages_count = f.free_pages_count;
  memory = f.memory;
}

unfoldable pub frame_allocator_init : List Descriptor → Frames → Frames
frame_allocator_init ds f = clear_lists (read_map ds f)
