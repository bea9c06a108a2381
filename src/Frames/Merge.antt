-- ===== src/Frames/Merge.antt =====
-- The loop over buddies of `free_pages` in kernel/memory/frame_alloc.c.
use cellkernelqwen.Prelude.{
  ℕ, zero, suc, ◌+◌, ◌-◌, ◌*◌, ◌/◌, ◌%◌, ◌^◌, ◌≤◌, ◌<◌, ◌≡◌, ◌≢◌, sym, ap, ◌∙◌, inl, inr, List,
  arith, length, length-set, Bool-cases, ◌==◌, true, ==→eq, get_or-set_ne, bit_and,
}
use cellkernelqwen.Prelude.Bits.{pow_double, pow_pos}
use cellkernelqwen.Frames.Zone.{Area, Memory, area_at, empty_area, get_buddy}
use cellkernelqwen.Frames.Free.{coalesce, push_areas, unlink_buddy}
use cellkernelqwen.Frames.Listed.{listed_pages}
use cellkernelqwen.Frames.Found.{listed_pages-less, listed_pages-more}
use cellkernelqwen.Frames.Buddy.{block_at, buddy-block_at, merged-block_at}
use native.Mathlib.Nat.{mul-le-mul_right}
use mathlib.Core.Path.{subst}

-- From `order` on, an empty area has no list and no count is at its limit.
abbrev pub IsTidy : ℕ → List Area → Type 0
IsTidy order areas =
    (j : ℕ)
    → order ≤ j
    → ((area_at areas j).nr_free ≡ 0 → (area_at areas j).free_list ≡ 0)
      × ((area_at areas j).nr_free < 2 ^ 64 - 1)

-- The block after a merge, for a block that is not at the bottom of memory.
merge_up :
    (order n : ℕ)
    → order ≤ 11
    → n * 2 ^ order < 2 ^ 51
    → bit_and (block_at order n) (get_buddy (block_at order n) order) ≡ block_at (suc order) (n / 2)
merge_up order n hk fits =
    let split : n / 2 * 2 + n % 2 ≡ n = omega arith in
    subst
      (λ (m : ℕ).
        bit_and (block_at order m) (get_buddy (block_at order m) order)
        ≡ block_at (suc order) (n / 2))
      split
      (rw
        (buddy-block_at order (n / 2) (n % 2) hk (omega arith)
          (subst (λ (m : ℕ). m * 2 ^ order < 2 ^ 51) (sym split) fits))
        (merged-block_at order (n / 2) (n % 2) (omega arith)))

buddy-positive :
    (order n : ℕ)
    → order ≤ 11
    → n * 2 ^ order < 2 ^ 51
    → 2 ≤ n
    → get_buddy (block_at order n) order ≢ 0
buddy-positive order n hk fits big =
    let split : n / 2 * 2 + n % 2 ≡ n = omega arith in
    let buddy =
      subst
        (λ (m : ℕ). get_buddy (block_at order m) order ≡ block_at order (n / 2 * 2 + (1 - n % 2)))
        split
        (buddy-block_at order (n / 2) (n % 2) hk (omega arith)
          (subst (λ (m : ℕ). m * 2 ^ order < 2 ^ 51) (sym split) fits)) in
    let enough = mul-le-mul_right {m = 1} {n = n / 2 * 2 + (1 - n % 2)} (2 ^ order) (omega arith) in
    λ e. omega (arith, sym buddy ∙ e, enough, pow_pos order)

IsTidy-unlink :
    (memory : Memory) (order buddy : ℕ) (areas : List Area)
    → IsTidy order areas
    → IsTidy (suc order) (unlink_buddy memory order buddy areas)
IsTidy-unlink memory order buddy areas tidy = λ j h.
    let same = get_or-set_ne areas order j _ empty_area (omega arith) in
    subst (λ (a : Area). (a.nr_free ≡ 0 → a.free_list ≡ 0) × (a.nr_free < 2 ^ 64 - 1)) (sym same)
      (tidy j (omega arith))

half-fits : (order n : ℕ) → n * 2 ^ order < 2 ^ 51 → n / 2 * 2 ^ suc order < 2 ^ 51
half-fits order n h = omega (
  arith,
  ap (λ (t : ℕ). n / 2 * t) (pow_double order),
  mul-le-mul_right {m = n / 2 * 2} {n = n} (2 ^ order) (omega arith),
)

head_ne_empty :
    (order n : ℕ) (areas : List Area)
    → order ≤ 11
    → n * 2 ^ order < 2 ^ 51
    → 2 ≤ n
    → IsTidy order areas
    → ((area_at areas order).free_list == get_buddy (block_at order n) order) ≡ true
    → (area_at areas order).nr_free ≢ 0
head_ne_empty order n areas hk fits big tidy e =
    λ z. buddy-positive order n hk fits big (sym (==→eq _ _ e) ∙ (tidy order (omega arith)).0 z)

pub coalesce-listed :
    (memory : Memory) (levels order n : ℕ) (areas : List Area)
    → order + levels ≡ 11
    → 2 ^ levels ≤ n
    → n * 2 ^ order < 2 ^ 51
    → length areas ≡ 12
    → IsTidy order areas
    → listed_pages (push_areas (coalesce memory levels (block_at order n) order areas))
      ≡ listed_pages areas + 2 ^ order
unfolding coalesce push_areas
coalesce-listed memory zero order n areas sum big fits len tidy =
    listed_pages-more areas order (block_at order n) (omega arith) (tidy order (omega arith)).1
coalesce-listed memory (suc levels) order n areas sum big fits len tidy =
    let buddy = get_buddy (block_at order n) order in
    let unlinked = unlink_buddy memory order buddy areas in
    let two : 2 ≤ n = omega (arith, pow_double levels, pow_pos levels) in
    elim (Bool-cases ((area_at areas order).free_list == buddy)) [
      | inl e ↦
          rw (e, merge_up order n (omega arith) fits)
            (let rest =
                coalesce-listed memory levels (suc order) (n / 2) unlinked (omega arith)
                  (omega (arith, pow_double levels)) (half-fits order n fits)
                  (length-set areas order _ ∙ len) (IsTidy-unlink memory order buddy areas tidy) in
              let less =
                listed_pages-less areas order (memory buddy) (omega arith)
                  (head_ne_empty order n areas (omega arith) fits two tidy e)
                  (omega (arith, (tidy order (omega arith)).1)) in
              omega (arith, rest, less, pow_double order))
      | inr e ↦ rw e (
          listed_pages-more areas order (block_at order n) (omega arith)
            (tidy order (omega arith)).1)
    ]
