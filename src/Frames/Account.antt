-- ===== src/Frames/Account.antt =====
-- The pages that `alloc_pages_zone` of kernel/memory/frame_alloc.c takes off the free lists.
use cellkernelqwen.Prelude.{
  ℕ, zero, suc, ◌+◌, ◌-◌, ◌^◌, ◌<◌, ◌≡◌, ◌≢◌, refl, ap, ◌∙◌, inl, inr, List, arith, length,
  Bool-cases, ◌==◌, ne→==, ==→ne,
}
use cellkernelqwen.Prelude.Bits.{pow_double}
use cellkernelqwen.Frames.Zone.{Area, Memory, area_at, get_buddy}
use cellkernelqwen.Frames.Alloc.{Taken, pop_block, split_block, split_found, alloc_levels}
use cellkernelqwen.Frames.Listed.{listed_pages}
use cellkernelqwen.Frames.Found.{
  IsBounded, listed_pages-less, listed_pages-more, split_found_page, alloc_levels-below,
  alloc_levels-length,
}

pub split_found_some :
    (order : ℕ) (t : Taken) → t.page ≢ 0 → split_found order t ≡ split_block order t
unfolding split_found
split_found_some order t h = rw (ne→== t.page 0 h) refl

split_found-listed :
    (order : ℕ) (t : Taken) (areas : List Area)
    → order < length t.areas
    → (area_at t.areas order).nr_free < 2 ^ 64 - 1
    → (t.page ≢ 0 → listed_pages t.areas + 2 ^ (order + 1) ≡ listed_pages areas)
    → (split_found order t).page ≢ 0
    → listed_pages (split_found order t).areas + 2 ^ order ≡ listed_pages areas
unfolding split_block
split_found-listed order t areas short bound higher some =
    let found : t.page ≢ 0 = λ e. some (split_found_page order t ∙ e) in
    rw (split_found_some order t found) (
      omega (
        arith,
        listed_pages-more t.areas order (get_buddy t.page order) short bound,
        higher found,
        pow_double order,
        ap (λ (t : ℕ). 2 ^ t) {x = order + 1} {y = suc order} (omega arith),
      ))

pub alloc_levels-listed :
    (memory : Memory) (levels order : ℕ) (areas : List Area) (count : ℕ)
    → length areas ≡ order + levels
    → IsBounded areas
    → (alloc_levels memory levels order areas count).page ≢ 0
    → listed_pages (alloc_levels memory levels order areas count).areas + 2 ^ order
      ≡ listed_pages areas
unfolding alloc_levels pop_block
alloc_levels-listed memory zero order areas count len bound = λ h. absurd (h refl)
alloc_levels-listed memory (suc levels) order areas count len bound =
    let higher = alloc_levels memory levels (order + 1) areas count in
    elim (Bool-cases ((area_at areas order).nr_free == 0)) [
      | inl e ↦ rw e (
          split_found-listed order higher areas
            (omega (arith, alloc_levels-length memory levels (order + 1) areas count))
            (omega (
              arith,
              bound order,
              ap (λ (a : Area). a.nr_free)
                  (alloc_levels-below memory levels (order + 1) areas count order (omega arith)),
            ))
            (alloc_levels-listed memory levels (order + 1) areas count (omega arith) bound))
      | inr e ↦ rw e (λ h.
          listed_pages-less areas order (memory (area_at areas order).free_list) (omega arith)
            (==→ne _ 0 e) (omega (arith, bound order)))
    ]
