-- ===== src/Frames/Zone.antt =====
-- `zone_t`, `free_area_t`, the globals and `get_buddy` of kernel/memory/frame_alloc.c.
use cellkernelqwen.Prelude.{ℕ, List, [], get_or, sub64, ◌<<<◌, ◌>>>◌, ◌==◌, if◌then◌else◌, bit_xor}

abbrev pub page_shift : ℕ
page_shift = 12

abbrev pub max_order : ℕ
max_order = 11

abbrev pub nr_free_area : ℕ
nr_free_area = 12

-- An address, 0 for NULL.
pub record Area : Type 0 where
  pub nr_free : ℕ
  pub free_list : ℕ

abbrev pub empty_area : Area
empty_area = record { nr_free = 0; free_list = 0 }

-- The allocation bitmap of a zone is never set up nor read, so it is left out.
pub record Zone : Type 0 where
  pub areas : List Area
  pub start_pfn : ℕ
  pub size : ℕ

abbrev pub empty_zone : Zone
empty_zone = record { areas = []; start_pfn = 0; size = 0 }

-- The word at an address: a free block holds the address of the next one.
abbrev pub Memory : Type 0
Memory = ℕ → ℕ

abbrev pub store : ℕ → ℕ → Memory → Memory
store address value memory = λ (a : ℕ). if a == address then value else memory a

pub record Frames : Type 0 where
  pub zones : List Zone
  pub total_pages : ℕ
  pub free_pages_count : ℕ
  pub memory : Memory

abbrev pub area_at : List Area → ℕ → Area
area_at areas order = get_or areas order empty_area

abbrev pub zone_dma : ℕ
zone_dma = 0

abbrev pub zone_normal : ℕ
zone_normal = 1

abbrev pub max_zones : ℕ
max_zones = 3

unfoldable pub get_buddy : ℕ → ℕ → ℕ
get_buddy page order = let pfn = page >>> page_shift in bit_xor pfn (1 <<< order) <<< page_shift

unfoldable pub get_total_pages : Frames → ℕ
get_total_pages f = f.total_pages

unfoldable pub get_free_pages : Frames → ℕ
get_free_pages f = f.free_pages_count

unfoldable pub get_used_pages : Frames → ℕ
get_used_pages f = sub64 f.total_pages f.free_pages_count
