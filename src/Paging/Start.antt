-- ===== src/Paging/Start.antt =====
-- `paging_init` and `enable_paging` of kernel/memory/paging.c.
use cellkernelqwen.Prelude.{ℕ, ◌+◌, ◌-◌, ◌==◌, bit_and, bit_or, if◌then◌else◌, u64}
use cellkernelqwen.Paging.Tables.{
  Platform, Space, pte_present, pte_writable, pte_global, pte_nx, clear_table, create_identity_map,
}

-- `~(PAGE_SIZE - 1)`.
abbrev pub page_mask : ℕ
page_mask = 0xFFFFFFFFFFFFF000

abbrev pub low_flags : ℕ
low_flags = bit_or (bit_or pte_present pte_writable) pte_global

abbrev pub kernel_flags : ℕ
kernel_flags = bit_or (bit_or (bit_or pte_present pte_writable) pte_global) pte_nx

-- The control registers that the code writes, and `g_paging_enabled`.
pub record Cpu : Type 0 where
  pub cr0 : ℕ
  pub cr3 : ℕ
  pub cr4 : ℕ
  pub efer : ℕ
  pub paging_enabled : ℕ

-- The two mappings of `paging_init`; the code ignores what they return.
unfoldable pub map_start : (P : Platform) → ℕ → ℕ → ℕ → Space P → Space P
map_start P pgd kernel_start kernel_end s =
    let (ret, low) = create_identity_map P pgd 0 0x100000000 low_flags s in
    let (ret', both) =
      create_identity_map P pgd (bit_and kernel_start page_mask)
        (bit_and (u64 (kernel_end + 4096 - 1)) page_mask) kernel_flags low in
    both

-- The root that was allocated, cleared and filled, or NULL.
unfoldable pub paging_init_from : (P : Platform) → ℕ → ℕ → ℕ × P.Frames → Space P → ℕ × Space P
paging_init_from P kernel_start kernel_end (pgd, frames) s =
    if pgd == 0 then (0, record { tables = s.tables; frames = frames; flushed = s.flushed }) else (
      pgd,
      map_start P pgd kernel_start kernel_end
          (record { tables = clear_table P pgd s.tables; frames = frames; flushed = s.flushed }),
    )

-- The new value of `g_kernel_pgd` with the state, between the addresses of the kernel's two symbols.
unfoldable pub paging_init : (P : Platform) → ℕ → ℕ → Space P → ℕ × Space P
paging_init P kernel_start kernel_end s =
    paging_init_from P kernel_start kernel_end (P.alloc_page s.frames) s

-- `ecx` is what the register holds when `efer` is read; `1 << 31` is a negative `int`.
unfoldable pub enable_paging : Platform → ℕ → ℕ → Cpu → Cpu
enable_paging P pgd ecx cpu = if pgd == 0 then cpu else record {
  cr0 = bit_or (bit_or cpu.cr0 0xFFFFFFFF80000000) 0x10000;
  cr3 = P.virt_to_phys pgd;
  cr4 = bit_or (bit_or cpu.cr4 0x20) 0x80;
  efer = bit_or (bit_or ecx 0x100) 0x800;
  paging_enabled = 1;
}
