-- ===== src/Paging/Lookup.antt =====
-- What the page tables of kernel/memory/paging.c mean: the entry that translates an address, and
-- the shape of a tree of tables.
use cellkernelqwen.Prelude.{
  ℕ, zero, suc, ◌+◌, ◌*◌, ◌/◌, ◌%◌, ◌^◌, ◌<◌, ◌≡◌, ◌≢◌, Bool, true, false, if◌then◌else◌,
}
use cellkernelqwen.Paging.Tables.{Platform, Space, is_present, table_of}

-- The number of a page among those of the 48 bits that are translated, and the number above it at
-- each level.
abbrev pub page_number : ℕ → ℕ
page_number virt = virt / 4096 % 2 ^ 36

abbrev pub number_at : ℕ → ℕ → ℕ
number_at zero virt = page_number virt
number_at (suc n) virt = number_at n virt / 512

-- What the frames that are left guarantee, in the states that `good` names and that requests do not
-- leave: a frame that is given out was not out before and then is, it can be reached at its own
-- address again, and its physical address is a page below 2^52.
pub record IsSound (P : Platform) : Type 1 where
  pub good : P.Frames → Type 0
  pub keeps : (f : P.Frames) → good f → good (P.alloc_page f).1
  pub taken : P.Frames → ℕ → Bool
  pub is_new : (f : P.Frames) → good f → (P.alloc_page f).0 ≢ 0 → taken f (P.alloc_page f).0 ≡ false
  pub is_taken :
      (f : P.Frames)
      → good f
      → (P.alloc_page f).0 ≢ 0
      → taken (P.alloc_page f).1 (P.alloc_page f).0 ≡ true
  pub stays : (f : P.Frames) (p : ℕ) → good f → taken f p ≡ true → taken (P.alloc_page f).1 p ≡ true
  pub frame_number : P.Frames → ℕ
  pub in_range : (f : P.Frames) → good f → (P.alloc_page f).0 ≢ 0 → frame_number f < 2 ^ 40
  pub is_page :
      (f : P.Frames)
      → good f
      → (P.alloc_page f).0 ≢ 0
      → P.virt_to_phys (P.alloc_page f).0 ≡ frame_number f * 4096
  pub comes_back :
      (f : P.Frames)
      → good f
      → (P.alloc_page f).0 ≢ 0
      → P.phys_to_virt (frame_number f * 4096) ≡ (P.alloc_page f).0

-- A level for each table, 4 for the root and 0 for what is no table, and the number of the part
-- of memory that it translates.
pub record Shape : Type 0 where
  pub level : ℕ → ℕ
  pub place : ℕ → ℕ

module _ (P : Platform) where
  -- The entry found from a table `n` levels above the last, 0 when a table is missing.
  abbrev pub entry_from : ℕ → ℕ → ℕ → Space P → ℕ
  entry_from zero table virt s = s.tables table (number_at zero virt % 512)
  entry_from (suc n) table virt s =
      let entry = s.tables table (number_at (suc n) virt % 512) in
      let below = entry_from n (table_of P entry) virt s in if is_present entry then below else 0

  -- The entry of the last table for an address, by four levels of tables.
  abbrev pub entry_for : ℕ → ℕ → Space P → ℕ
  entry_for pgd virt s = entry_from 3 pgd virt s

  module _ (sound : IsSound P) where
    -- NULL is no table. Tables are frames that were given out, and a present entry of a table above the last leads
    -- to the table one level below, in its place. So no table is entered in two places.
    pub record IsTree (pgd : ℕ) (h : Shape) (s : Space P) : Type 0 where
      pub root : h.level pgd ≡ 4
      pub root_place : h.place pgd ≡ 0
      pub null : h.level 0 ≡ 0
      pub steady : sound.good s.frames
      pub owned : (t : ℕ) → h.level t ≢ 0 → sound.taken s.frames t ≡ true
      pub child_level :
          (t i : ℕ)
          → 1 < h.level t
          → i < 512
          → is_present (s.tables t i) ≡ true
          → suc (h.level (table_of P (s.tables t i))) ≡ h.level t
      pub child_place :
          (t i : ℕ)
          → 1 < h.level t
          → i < 512
          → is_present (s.tables t i) ≡ true
          → h.place (table_of P (s.tables t i)) ≡ h.place t * 512 + i
