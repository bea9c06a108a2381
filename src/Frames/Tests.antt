-- ===== src/Frames/Tests.antt =====
-- The buddy allocator of kernel/memory/frame_alloc.c on small states.
use cellkernelqwen.Prelude.{
  ℕ, zero, suc, ◌+◌, ◌-◌, ◌^◌, ◌≤◌, ◌<◌, ◌≡◌, refl, List, [], ◌∷◌, arith, replicate, u64, sub64,
  ◌<<<◌, ◌>>>◌,
}
use cellkernelqwen.Prelude.Status.{ℤ, pos}
use cellkernelqwen.Frames.Zone.{
  Area, Memory, Frames, area_at, empty_area, empty_zone, get_buddy, get_free_pages, page_shift,
}
use cellkernelqwen.Frames.Init.{
  Descriptor, frame_allocator_init, read_map, read_entry, count_conventional, zone_of, grow_zone,
  clear_lists, clear_zone,
}
use cellkernelqwen.Frames.Alloc.{
  alloc_pages, alloc_pages_zone, alloc_levels, pop_block, split_found, split_block, zone_index,
}
use cellkernelqwen.Frames.Free.{free_pages, free_zone, free_block, push_block, push_areas, coalesce}
use cellkernelqwen.Frames.Listed.{listed_pages}
use cellkernelqwen.Frames.Found.{IsBounded}
use cellkernelqwen.Frames.Buddy.{block_at}
use cellkernelqwen.Frames.Merge.{IsTidy}
use cellkernelqwen.Frames.First.{cut_area}
use cellkernelqwen.Frames.Exhausted.{at_boot, conventional_pages, init_exhausted, replicate-empty}
use cellkernelqwen.Frames.Requests.{areas_of, alloc_pages_first, free_pages_listed}
use cellkernelqwen.Frames.Underflow.{free_pages_underflow}

abbrev zeros : Memory
zeros = λ a. 0

abbrev two_ranges : List Descriptor
two_ranges =
    record {
      type = 7;
      physical_start = 0x100000;
      virtual_start = 0;
      num_pages = 256;
      attribute = 0;
    }
    ∷ record {
      type = 3;
      physical_start = 0x200000;
      virtual_start = 0;
      num_pages = 16;
      attribute = 0;
    }
    ∷ record {
      type = 7;
      physical_start = 0x20000000;
      virtual_start = 0;
      num_pages = 1024;
      attribute = 0;
    }
    ∷ []

init_exhausted_example :
    (get_free_pages (frame_allocator_init two_ranges (at_boot zeros))
      ≡ u64 (conventional_pages two_ranges))
    × ((order : ℕ) (zone_idx : ℤ)
        → (alloc_pages order zone_idx (frame_allocator_init two_ranges (at_boot zeros))).0 ≡ 0)
init_exhausted_example = init_exhausted zeros two_ranges

sums_ranges : get_free_pages (frame_allocator_init two_ranges (at_boot zeros)) ≡ 1280
unfolding get_free_pages frame_allocator_init read_map read_entry count_conventional zone_of
    grow_zone clear_lists clear_zone
sums_ranges = refl

-- One block of two pages at 8 MB in the DMA zone.
abbrev pair_areas : List Area
pair_areas = empty_area ∷ record { nr_free = 1; free_list = 0x800000 } ∷ replicate 10 empty_area

abbrev with_areas : List Area → Frames
with_areas areas = record {
  zones = record { areas = areas; start_pfn = 2048; size = 2 } ∷ replicate 2 empty_zone;
  total_pages = 2;
  free_pages_count = 2;
  memory = zeros;
}

abbrev pair : Frames
pair = with_areas pair_areas

low_empty : (j : ℕ) → 0 ≤ j → j < 1 → (area_at pair_areas j).nr_free ≡ 0
low_empty zero h l = refl
low_empty (suc j) h l = absurd (omega arith)

pair-IsBounded : IsBounded pair_areas
pair-IsBounded zero = omega arith
pair-IsBounded (suc zero) = omega arith
pair-IsBounded (suc (suc j)) = omega (arith, replicate-empty 10 j)

alloc_pages_first_example :
    ((alloc_pages 0 (pos 0) pair).0 ≡ 0x800000)
    × (get_free_pages (alloc_pages 0 (pos 0) pair).1 ≡ sub64 (get_free_pages pair) (1 <<< 1))
    × ((j : ℕ)
        → area_at (areas_of 0 (alloc_pages 0 (pos 0) pair).1) j
          ≡ cut_area zeros 0 1 pair_areas 0x800000 j)
unfolding zone_index
alloc_pages_first_example =
    alloc_pages_first pair (pos 0) 0 1 (omega arith) refl (omega arith) (omega arith) low_empty
      (λ e. omega (arith, e)) (λ e. omega (arith, e))

gives_first_page : (alloc_pages 0 (pos 0) pair).0 ≡ 0x800000
unfolding alloc_pages alloc_pages_zone alloc_levels pop_block split_found split_block zone_index
    get_buddy
gives_first_page = refl

-- The upper page is free and the lower one is given back.
abbrev upper_areas : List Area
upper_areas = record { nr_free = 1; free_list = 0x801000 } ∷ replicate 11 empty_area

abbrev upper : Frames
upper = with_areas upper_areas

empty-list : (n j : ℕ) → (area_at (replicate n empty_area) j).free_list ≡ 0
empty-list zero j = refl
empty-list (suc n) zero = refl
empty-list (suc n) (suc j) = empty-list n j

upper-IsTidy : IsTidy 0 upper_areas
upper-IsTidy zero h = (λ e. absurd (omega (arith, e)), omega arith)
upper-IsTidy (suc j) h = (λ e. empty-list 11 j, omega (arith, replicate-empty 11 j))

low_page-zone : free_zone (block_at 0 2048 >>> page_shift) ≡ 0
unfolding free_zone
low_page-zone = refl

free_pages_listed_example :
    listed_pages (areas_of 0 (free_pages 0x800000 0 upper)) ≡ listed_pages upper_areas + 2 ^ 0
unfolding free_zone
free_pages_listed_example =
    free_pages_listed upper 0 2048 (omega arith) refl (omega arith) (omega arith) (omega arith)
      upper-IsTidy

merges_upper : (area_at (areas_of 0 (free_pages 0x800000 0 upper)) 1).free_list ≡ 0x800000
unfolding free_pages free_zone free_block push_block push_areas coalesce get_buddy
merges_upper = refl

abbrev no_blocks : Frames
no_blocks = with_areas (replicate 12 empty_area)

free_pages_underflow_example :
    (area_at (areas_of 0 (free_pages (block_at 0 1) 0 no_blocks)) 0).nr_free ≡ 2 ^ 64 - 1
free_pages_underflow_example =
    free_pages_underflow no_blocks 0 (omega arith) refl (omega arith) refl refl
