-- ===== src/Paging/Program.antt =====
-- `map_page` of kernel/memory/paging.c with the alloc_page of kernel/memory/frame_alloc.c.
use cellkernelqwen.Prelude.{ℕ, bit_or}
use cellkernelqwen.Paging.Tables.{Space, create_pte, pte_present, map_page}
use cellkernelqwen.Paging.Lookup.{Shape, IsTree}
use cellkernelqwen.Paging.Map.{Mapped, map_page-Mapped}
use cellkernelqwen.Paging.NoFrames.{frame_platform}
use cellkernelqwen.Paging.Given.{pool-IsSound}

-- With the program's own alloc_page, for any two conversions of addresses: the DMA zone is stocked
-- (IsStocked, a part of IsTree here) and a tree of tables lies in pages that it does not list. Then
-- map_page leaves such a tree. Either it returns CK_SUCCESS, the page of the address is translated by
-- the entry for the frame, with the flags and the present bit, and every other page as before, or it
-- returns CK_ERROR_NO_MEMORY and every page is translated as before.
pub map_page-frame_platform :
    (phys_to_virt virt_to_phys : ℕ → ℕ)
    → let P = frame_platform phys_to_virt virt_to_phys in
      let sound = pool-IsSound phys_to_virt virt_to_phys in
      (pgd : ℕ) (h : Shape) (s : Space P) (virt phys flags : ℕ)
      → IsTree P sound pgd h s
      → Mapped P sound pgd s virt
          (create_pte phys (bit_or flags pte_present))
          (map_page P pgd virt phys flags s)
map_page-frame_platform phys_to_virt virt_to_phys =
    map_page-Mapped (frame_platform phys_to_virt virt_to_phys)
      (pool-IsSound phys_to_virt virt_to_phys)
