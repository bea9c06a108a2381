-- ===== src/Paging/Tests.antt =====
-- The paging of kernel/memory/paging.c on concrete tables.
use mathlib.Core.Bool.{true≢false}
use cellkernelqwen.Prelude.{
  ℕ, ◌+◌, ◌*◌, ◌/◌, replicate, ◌^◌, ◌<◌, ◌≡◌, ◌≢◌, refl, sym, inl, inr, arith, Bool-cases, List, [],
  ◌∷◌, ◌==◌, ==→eq, ltb, if◌then◌else◌, bit_or,
}
use cellkernelqwen.Prelude.Status.{pos}
use cellkernelqwen.Frames.Zone.{Memory, Frames, empty_area, empty_zone, get_buddy}
use cellkernelqwen.Frames.Init.{Descriptor}
use cellkernelqwen.Frames.Exhausted.{replicate-empty}
use cellkernelqwen.Frames.Alloc.{
  alloc_page, alloc_pages, alloc_pages_zone, alloc_levels, pop_block, split_found, split_block,
  zone_index,
}
use cellkernelqwen.Paging.Pool.{Leaves, alloc_page-Leaves, IsPage, IsStocked}
use cellkernelqwen.Paging.Program.{map_page-frame_platform}
use cellkernelqwen.Paging.Given.{pool-IsSound}
use cellkernelqwen.Paging.Tables.{
  Platform, Space, is_present, create_pte, pte_present, index_at, table_of, with_table, add_table,
  descend, map_pte, map_pmd, map_pud, map_page, unmap_page,
}
use cellkernelqwen.Paging.Lookup.{entry_for, IsSound, Shape, IsTree}
use cellkernelqwen.Paging.Map.{Mapped, map_page-Mapped}
use cellkernelqwen.Paging.Unmap.{Unmapped, unmap_page-Unmapped}
use cellkernelqwen.Paging.Start.{Cpu, paging_init, enable_paging}
use cellkernelqwen.Paging.NoFrames.{frame_platform, start_space, paging_init-frame_allocator_init}

-- Four pages are listed, from 0x5000 on, each leading to the next.
abbrev links : Memory
links = λ a. if ltb a 0x8000 then a + 4096 else 0

abbrev four_pages : Frames
four_pages = record {
  zones =
      record {
        areas = record { nr_free = 4; free_list = 0x5000 } ∷ replicate 11 empty_area;
        start_pfn = 4;
        size = 5;
      }
      ∷ replicate 2 empty_zone;
  total_pages = 5;
  free_pages_count = 4;
  memory = links;
}

abbrev direct : ℕ → ℕ
direct a = a

abbrev machine : Platform
machine = frame_platform direct direct

abbrev sound : IsSound machine
sound = pool-IsSound direct direct

direct-IsPage : (p : ℕ) → p ≢ 0 → p < 2 ^ 52 → p ≡ p / 4096 * 4096 → IsPage direct direct p
direct-IsPage p real low aligned = record {
  real = real;
  low = low;
  aligned = aligned;
  converts = refl;
}

four_pages-IsStocked : IsStocked direct direct four_pages
four_pages-IsStocked = record {
  known = omega arith;
  sized = refl;
  higher = λ j. replicate-empty 11 j;
  counted = omega arith;
  pages = (
    direct-IsPage 0x5000 (λ e. omega (arith, e)) (omega arith) refl,
    refl,
    (
      direct-IsPage 0x6000 (λ e. omega (arith, e)) (omega arith) refl,
      refl,
      (
        direct-IsPage 0x7000 (λ e. omega (arith, e)) (omega arith) refl,
        refl,
        (direct-IsPage 0x8000 (λ e. omega (arith, e)) (omega arith) refl, refl, tt),
      ),
    ),
  );
}

alloc_page-Leaves_example : Leaves direct direct four_pages (alloc_page (pos 0) four_pages)
alloc_page-Leaves_example = alloc_page-Leaves direct direct four_pages four_pages-IsStocked

abbrev one_range : List Descriptor
one_range =
    record {
      type = 7;
      physical_start = 0x100000;
      virtual_start = 0;
      num_pages = 256;
      attribute = 0;
    }
    ∷ []

abbrev cpu_off : Cpu
cpu_off = record { cr0 = 1; cr3 = 0; cr4 = 0; efer = 0; paging_enabled = 0 }

-- Nothing but zeros, and the root is a page that is not listed.
abbrev root_only : Space machine
root_only = record { tables = λ t i. 0; frames = four_pages; flushed = [] }

abbrev root_shape : Shape
root_shape = record { level = λ t. if t == 0x4000 then 4 else 0; place = λ t. 0 }

root_only-IsTree : IsTree machine sound 0x4000 root_shape root_only
unfolding is_present
root_only-IsTree = record {
  root = refl;
  root_place = refl;
  null = refl;
  steady = four_pages-IsStocked;
  owned = λ t h. elim (Bool-cases (t == 0x4000)) [
    | inl e ↦ rw (==→eq _ _ e) refl
    | inr e ↦ absurd (h (rw e refl))
  ];
  child_level = λ t i h short on. absurd (true≢false (sym on));
  child_place = λ t i h short on. absurd (true≢false (sym on));
}

map_page-frame_platform_example :
    Mapped machine sound 0x4000 root_only 0x40201000
      (create_pte 0x7000 (bit_or 3 pte_present))
      (map_page machine 0x4000 0x40201000 0x7000 3 root_only)
map_page-frame_platform_example =
    map_page-frame_platform direct direct 0x4000 root_shape root_only 0x40201000 0x7000 3
      root_only-IsTree

-- One page is mapped: three tables are taken.
mapped_once :
    entry_for machine 0x4000 0x40201abc (map_page machine 0x4000 0x40201000 0x7000 3 root_only).1
    ≡ 0x7003
unfolding map_page map_pud map_pmd map_pte descend add_table with_table is_present create_pte
    index_at table_of alloc_page alloc_pages alloc_pages_zone alloc_levels pop_block split_found
    split_block zone_index get_buddy
mapped_once = refl

other_page :
    entry_for machine 0x4000 0x40202abc (map_page machine 0x4000 0x40201000 0x7000 3 root_only).1
    ≡ 0
unfolding map_page map_pud map_pmd map_pte descend add_table with_table is_present create_pte
    index_at table_of alloc_page alloc_pages alloc_pages_zone alloc_levels pop_block split_found
    split_block zone_index get_buddy
other_page = refl

-- The state with that page mapped.
abbrev once : Space machine
once = (map_page machine 0x4000 0x40201000 0x7000 3 root_only).1

once-Mapped :
    Mapped machine sound 0x4000 root_only 0x40201000
      (create_pte 0x7000 (bit_or 3 pte_present))
      (map_page machine 0x4000 0x40201000 0x7000 3 root_only)
once-Mapped =
    map_page-Mapped machine sound 0x4000 root_shape root_only 0x40201000 0x7000 3 root_only-IsTree

unmap_page-Unmapped_example :
    Unmapped machine sound 0x4000 once-Mapped.0 once 0x40201000 once-Mapped.1
      (unmap_page machine 0x4000 0x40201000 once)
unmap_page-Unmapped_example =
    unmap_page-Unmapped machine sound 0x4000 once-Mapped.0 once 0x40201000 once-Mapped.1

paging_init-frame_allocator_init_example :
    let P = frame_platform (λ a. a) (λ a. a) in
    let r =
      paging_init P 0x100000 0x1ff800
        (start_space (λ a. a) (λ a. a) (λ a. 0) one_range (λ t i. 0) []) in
    (r.0 ≡ 0) × (r.1.tables ≡ (λ t i. 0)) × (enable_paging P r.0 0 cpu_off ≡ cpu_off)
paging_init-frame_allocator_init_example =
    paging_init-frame_allocator_init (λ a. a) (λ a. a) (λ a. 0) one_range (λ t i. 0) [] 0x100000
      0x1ff800 0 cpu_off
