-- ===== src/Frames/Exhausted.antt =====
-- What kernel/memory/frame_alloc.c can give out once `frame_allocator_init` has run.
use cellkernelqwen.Prelude.{
  ℕ, zero, suc, ◌+◌, ◌-◌, ◌^◌, ◌<◌, ◌≡◌, refl, ap, inl, inr, List, [], ◌∷◌, map, arith, get_or,
  replicate, Bool-cases, ◌==◌, if◌then◌else◌, u64,
}
use cellkernelqwen.Prelude.Status.{ℤ}
use cellkernelqwen.Frames.Zone.{
  Zone, Memory, Frames, empty_area, empty_zone, area_at, nr_free_area, max_zones, get_free_pages,
}
use cellkernelqwen.Frames.Init.{
  Descriptor, conventional_memory, count_conventional, read_entry, read_map, clear_zone,
  clear_lists, frame_allocator_init,
}
use cellkernelqwen.Frames.Alloc.{alloc_pages, alloc_pages_zone, zone_index}
use cellkernelqwen.Frames.Found.{alloc_levels-empty}

-- The zeroed globals that `frame_allocator_init` starts from.
abbrev pub at_boot : Memory → Frames
at_boot memory = record {
  zones =
      replicate max_zones
        (record { areas = replicate nr_free_area empty_area; start_pfn = 0; size = 0 });
  total_pages = 0;
  free_pages_count = 0;
  memory = memory;
}

-- The pages of the conventional memory of a map.
unfoldable pub entry_pages : Descriptor → ℕ
entry_pages d = if d.type == conventional_memory then d.num_pages else 0

unfoldable pub conventional_pages : List Descriptor → ℕ
conventional_pages [] = 0
conventional_pages (d ∷ ds) = entry_pages d + conventional_pages ds

read_entry-free :
    (d : Descriptor) (f : Frames)
    → u64 (read_entry d f).free_pages_count ≡ u64 (f.free_pages_count + entry_pages d)
unfolding read_entry entry_pages count_conventional
read_entry-free d f = elim (Bool-cases (d.type == conventional_memory)) [
  | inl e ↦ rw e (omega arith)
  | inr e ↦ rw e (omega arith)
]

read_map-free :
    (ds : List Descriptor) (f : Frames)
    → u64 (read_map ds f).free_pages_count ≡ u64 (f.free_pages_count + conventional_pages ds)
unfolding read_map conventional_pages
read_map-free [] f = omega arith
read_map-free (d ∷ ds) f = omega (arith, read_map-free ds (read_entry d f), read_entry-free d f)

read_entry-bound :
    (d : Descriptor) (f : Frames)
    → f.free_pages_count < 2 ^ 64
    → (read_entry d f).free_pages_count < 2 ^ 64
unfolding read_entry count_conventional
read_entry-bound d f h = elim (Bool-cases (d.type == conventional_memory)) [
  | inl e ↦ rw e (omega arith)
  | inr e ↦ rw e h
]

read_map-bound :
    (ds : List Descriptor) (f : Frames)
    → f.free_pages_count < 2 ^ 64
    → (read_map ds f).free_pages_count < 2 ^ 64
unfolding read_map
read_map-bound [] f h = h
read_map-bound (d ∷ ds) f h = read_map-bound ds (read_entry d f) (read_entry-bound d f h)

pub replicate-empty : (n j : ℕ) → (area_at (replicate n empty_area) j).nr_free ≡ 0
replicate-empty zero j = refl
replicate-empty (suc n) zero = refl
replicate-empty (suc n) (suc j) = replicate-empty n j

cleared-empty :
    (zones : List Zone) (i j : ℕ)
    → (area_at (get_or (map clear_zone zones) i empty_zone).areas j).nr_free ≡ 0
unfolding clear_zone
cleared-empty [] i j = refl
cleared-empty (z ∷ zs) zero j = replicate-empty nr_free_area j
cleared-empty (z ∷ zs) (suc i) j = cleared-empty zs i j

zone-null :
    (memory : Memory) (zone : Zone) (count order : ℕ)
    → ((j : ℕ) → (area_at zone.areas j).nr_free ≡ 0)
    → (alloc_pages_zone memory zone count order).page ≡ 0
unfolding alloc_pages_zone
zone-null memory zone count order h =
    ap (λ t. t.page) (alloc_levels-empty memory (nr_free_area - order) order zone.areas count h)

-- After frame_allocator_init has read a map, get_free_pages is the number of its conventional
-- pages modulo 2^64, and alloc_pages returns NULL for every order and zone.
pub init_exhausted :
    (memory : Memory) (ds : List Descriptor)
    → (get_free_pages (frame_allocator_init ds (at_boot memory)) ≡ u64 (conventional_pages ds))
      × ((order : ℕ) (zone_idx : ℤ)
          → (alloc_pages order zone_idx (frame_allocator_init ds (at_boot memory))).0 ≡ 0)
unfolding get_free_pages alloc_pages frame_allocator_init clear_lists
init_exhausted memory ds =
    let f = read_map ds (at_boot memory) in
    (
      omega (
        arith,
        read_map-free ds (at_boot memory),
        read_map-bound ds (at_boot memory) (omega arith),
      ),
      λ order zone_idx.
          zone-null f.memory (get_or (map clear_zone f.zones) (zone_index zone_idx) empty_zone)
            f.free_pages_count order (cleared-empty f.zones (zone_index zone_idx)),
    )
