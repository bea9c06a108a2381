-- ===== src/Paging/Entries.antt =====
-- The entries and the entry numbers of kernel/memory/paging.c.
use cellkernelqwen.Prelude.{
  ℕ, ◌+◌, ◌-◌, ◌*◌, ◌/◌, ◌%◌, ◌^◌, ◌<◌, ◌≡◌, ap, ◌∙◌, true, arith, bit_and, bit_or, ◌>>>◌,
}
use cellkernelqwen.Prelude.Bits.{above, bit_and-above, bit_and_mask, bit_or-above}
use cellkernelqwen.Paging.Tables.{is_present, create_pte, index_at, address_mask}

-- The frame number that an entry holds.
pub address_mask_lem : (x : ℕ) → bit_and x address_mask ≡ x / 4096 % 2 ^ 40 * 4096
address_mask_lem x =
    ap (λ (t : ℕ). bit_and t address_mask) {x = x} {y = above 12 (x / 4096) (x % 4096)}
      (omega arith)
    ∙ bit_and-above 12 (x / 4096) (2 ^ 40 - 1) (x % 4096) (omega arith)
    ∙ ap (λ (t : ℕ). t * 4096 + 0) (bit_and_mask 40 (x / 4096))
    ∙ omega arith

-- An entry made for a table of a frame is present and leads there.
pub table_entry :
    (k : ℕ)
    → k < 2 ^ 40
    → (is_present (create_pte (k * 4096) 3) ≡ true)
      × (bit_and (create_pte (k * 4096) 3) address_mask ≡ k * 4096)
unfolding is_present create_pte
table_entry k h =
    let base : bit_and (k * 4096) address_mask ≡ above 12 k 0 =
      address_mask_lem (k * 4096) ∙ omega arith in
    let value = ap (λ (t : ℕ). bit_or t 3) base ∙ bit_or-above 12 k 3 (omega arith) in
    (
      rw (value, bit_and_mask 1 (above 12 k 3)) (ground arith),
      ap (λ (t : ℕ). bit_and t address_mask) value ∙ address_mask_lem (above 12 k 3) ∙ omega arith,
    )

pub index_at_lem : (shift virt : ℕ) → index_at shift virt ≡ virt / 2 ^ shift % 512
unfolding index_at
index_at_lem shift virt = bit_and_mask 9 (virt >>> shift)
