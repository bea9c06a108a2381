-- ===== src/Paging/Tables.antt =====
-- The operations of kernel/memory/paging.c on page tables, over a source of frames.
use cellkernelqwen.Prelude.{
  ℕ, zero, suc, ◌+◌, ◌-◌, ◌*◌, ◌/◌, Bool, not, Option, none, some, List, ◌∷◌, ◌==◌, ◌>>>◌, bit_and,
  bit_or, if◌then◌else◌,
}
use cellkernelqwen.Prelude.Status.{ℤ, success, is_success, error_no_memory, error_not_found}

-- What paging.c declares as external: `alloc_page(0)` of the frame allocator, 0 for NULL, and the
-- two conversions of addresses, which the repository does not define.
pub record Platform : Type 1 where
  pub Frames : Type 0
  pub alloc_page : Frames → ℕ × Frames
  pub phys_to_virt : ℕ → ℕ
  pub virt_to_phys : ℕ → ℕ

abbrev pub pte_present : ℕ
pte_present = 0x001

abbrev pub pte_writable : ℕ
pte_writable = 0x002

abbrev pub pte_global : ℕ
pte_global = 0x100

abbrev pub pte_nx : ℕ
pte_nx = 0x8000000000000000

abbrev pub address_mask : ℕ
address_mask = 0x000FFFFFFFFFF000

unfoldable pub is_present : ℕ → Bool
is_present entry = not (bit_and entry pte_present == 0)

unfoldable pub create_pte : ℕ → ℕ → ℕ
create_pte phys_addr flags = bit_or (bit_and phys_addr address_mask) flags

-- The entry number of an address in a table, `shift` being 39, 30, 21 or 12.
unfoldable pub index_at : ℕ → ℕ → ℕ
index_at shift virt = bit_and (virt >>> shift) 511

module _ (P : Platform) where
  open P use {Frames, alloc_page, phys_to_virt, virt_to_phys}

  -- The entries of the table at an address, by number, the frame allocator, and the addresses whose
  -- translation was flushed, the latest first.
  pub record Space : Type 0 where
    pub tables : ℕ → ℕ → ℕ
    pub frames : Frames
    pub flushed : List ℕ

  -- NULL is tested for.
  abbrev pub pointer : ℕ → Option ℕ
  pointer a = if a == 0 then none else some a

  -- The table that an entry leads to.
  unfoldable pub table_of : ℕ → ℕ
  table_of entry = phys_to_virt (bit_and entry address_mask)

  abbrev pub set_entry : ℕ → ℕ → ℕ → (ℕ → ℕ → ℕ) → ℕ → ℕ → ℕ
  set_entry table i entry tables t j =
      if t == table then (if j == i then entry else tables t j) else tables t j

  -- `memset` of a whole table.
  abbrev pub clear_table : ℕ → (ℕ → ℕ → ℕ) → ℕ → ℕ → ℕ
  clear_table table tables t j = if t == table then 0 else tables t j

  unfoldable pub with_table : ℕ → ℕ → ℕ → Frames → Space → Space
  with_table table i page frames s = record {
    tables =
        set_entry table i (create_pte (virt_to_phys page) (bit_or pte_present pte_writable))
          (clear_table page s.tables);
    frames = frames;
    flushed = s.flushed;
  }

  unfoldable pub add_table : ℕ → ℕ → ℕ × Frames → Space → Option ℕ × Space
  add_table table i (page, frames) s =
      if page == 0
      then (none, record { tables = s.tables; frames = frames; flushed = s.flushed })
      else (some page, with_table table i page frames s)

  -- The table below an entry, allocated when the entry is not present; `none` without memory.
  unfoldable pub descend : ℕ → ℕ → Space → Option ℕ × Space
  descend table i s =
      let entry = s.tables table i in
      if is_present entry
      then (some (table_of entry), s)
      else add_table table i (alloc_page s.frames) s

  abbrev pub put_entry : ℕ → ℕ → ℕ → ℕ → Space → Space
  put_entry table i entry virt s = record {
    tables = set_entry table i entry s.tables;
    frames = s.frames;
    flushed = virt ∷ s.flushed;
  }

  unfoldable pub map_pte : ℕ → ℕ → ℕ → Option ℕ × Space → ℤ × Space
  map_pte virt phys flags (none, s) = (error_no_memory, s)
  map_pte virt phys flags (some pte, s) = (
    success,
    put_entry pte (index_at 12 virt) (create_pte phys (bit_or flags pte_present)) virt s,
  )

  unfoldable pub map_pmd : ℕ → ℕ → ℕ → Option ℕ × Space → ℤ × Space
  map_pmd virt phys flags (none, s) = (error_no_memory, s)
  map_pmd virt phys flags (some pmd, s) = map_pte virt phys flags (descend pmd (index_at 21 virt) s)

  unfoldable pub map_pud : ℕ → ℕ → ℕ → Option ℕ × Space → ℤ × Space
  map_pud virt phys flags (none, s) = (error_no_memory, s)
  map_pud virt phys flags (some pud, s) = map_pmd virt phys flags (descend pud (index_at 30 virt) s)

  unfoldable pub map_page : ℕ → ℕ → ℕ → ℕ → Space → ℤ × Space
  map_page pgd virt phys flags s = map_pud virt phys flags (descend pgd (index_at 39 virt) s)

  -- It counts in whole tables, and nothing calls it.
  unfoldable pub pgd_offset : ℕ → ℕ → ℕ
  pgd_offset pgd addr = pgd + index_at 39 addr * 4096

  -- `pud_offset`, `pmd_offset` and `pte_offset` differ in the shift.
  unfoldable pub table_offset : ℕ → ℕ → ℕ → Space → Option ℕ
  table_offset shift table virt s =
      let entry = s.tables table (index_at shift virt) in
      if is_present entry then pointer (table_of entry) else none

  unfoldable pub unmap_pte : ℕ → Space → Option ℕ → ℤ × Space
  unmap_pte virt s none = (error_not_found, s)
  unmap_pte virt s (some pte) = (success, put_entry pte (index_at 12 virt) 0 virt s)

  unfoldable pub unmap_pmd : ℕ → Space → Option ℕ → ℤ × Space
  unmap_pmd virt s none = (error_not_found, s)
  unmap_pmd virt s (some pmd) = unmap_pte virt s (table_offset 21 pmd virt s)

  unfoldable pub unmap_pud : ℕ → Space → Option ℕ → ℤ × Space
  unmap_pud virt s none = (error_not_found, s)
  unmap_pud virt s (some pud) = unmap_pmd virt s (table_offset 30 pud virt s)

  unfoldable pub unmap_page : ℕ → ℕ → Space → ℤ × Space
  unmap_page pgd virt s = unmap_pud virt s (table_offset 39 pgd virt s)

  -- The loop of `create_identity_map`, `rounds` being the pages from `addr` to the end.
  unfoldable pub identity_from : ℕ → ℕ → ℕ → ℕ → Space → ℤ × Space
  identity_from zero pgd addr flags s = (success, s)
  identity_from (suc rounds) pgd addr flags s =
      let (ret, after) = map_page pgd addr addr flags s in
      let rest = identity_from rounds pgd (addr + 4096) flags after in
      if is_success ret then rest else (ret, after)

  unfoldable pub create_identity_map : ℕ → ℕ → ℕ → ℕ → Space → ℤ × Space
  create_identity_map pgd start end flags s =
      identity_from ((end + 4095 - start) / 4096) pgd start flags s
