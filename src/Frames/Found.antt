-- ===== src/Frames/Found.antt =====
-- What `alloc_pages_zone` of kernel/memory/frame_alloc.c does to the free lists.
use cellkernelqwen.Prelude.{
  ℕ, zero, suc, ◌+◌, ◌-◌, ◌*◌, ◌^◌, ◌<◌, ◌≡◌, ◌≢◌, refl, ◌∙◌, inl, inr, List, arith, length,
  length-set, get_or-set_ne, Bool-cases, ◌==◌, eq→==, set, add64, sub64,
}
use cellkernelqwen.Frames.Zone.{Area, Memory, area_at, empty_area}
use cellkernelqwen.Frames.Alloc.{Taken, nothing, pop_block, split_block, split_found, alloc_levels}
use cellkernelqwen.Frames.Listed.{listed_pages, listed_pages-set}

-- `nr_free++` of no area wraps.
abbrev pub IsBounded : List Area → Type 0
IsBounded areas = (j : ℕ) → (area_at areas j).nr_free < 2 ^ 64 - 1

sub64-suc : (n : ℕ) → suc n < 2 ^ 64 → sub64 (suc n) 1 ≡ n
sub64-suc n h = omega arith

add64_one : (n : ℕ) → n < 2 ^ 64 - 1 → add64 n 1 ≡ n + 1
add64_one n h = omega arith

sub64-mul : (n p : ℕ) → n ≢ 0 → n < 2 ^ 64 → sub64 n 1 * p + p ≡ n * p
sub64-mul zero p h bound = absurd (h refl)
sub64-mul (suc n) p h bound = rw (sub64-suc n (omega arith)) (omega arith)

add64-mul : (n p : ℕ) → n < 2 ^ 64 - 1 → add64 n 1 * p ≡ n * p + p
add64-mul n p h = rw (add64_one n h) (omega arith)

-- An area that loses a block, and one that gains a block.
pub listed_pages-less :
    (areas : List Area) (order next : ℕ)
    → order < length areas
    → (area_at areas order).nr_free ≢ 0
    → (area_at areas order).nr_free < 2 ^ 64
    → listed_pages (
          set areas order
            (record { nr_free = sub64 (area_at areas order).nr_free 1; free_list = next }))
        + 2 ^ order
      ≡ listed_pages areas
listed_pages-less areas order next h some bound =
    let n = (area_at areas order).nr_free in
    omega (
      arith,
      listed_pages-set areas order (record { nr_free = sub64 n 1; free_list = next }) h,
      sub64-mul n (2 ^ order) some bound,
    )

pub listed_pages-more :
    (areas : List Area) (order next : ℕ)
    → order < length areas
    → (area_at areas order).nr_free < 2 ^ 64 - 1
    → listed_pages (
        set areas order
          (record { nr_free = add64 (area_at areas order).nr_free 1; free_list = next }))
      ≡ listed_pages areas + 2 ^ order
listed_pages-more areas order next h bound =
    let n = (area_at areas order).nr_free in
    omega (
      arith,
      listed_pages-set areas order (record { nr_free = add64 n 1; free_list = next }) h,
      add64-mul n (2 ^ order) bound,
    )

split_found_null : (order : ℕ) (t : Taken) → t.page ≡ 0 → split_found order t ≡ t
unfolding split_found
split_found_null order t h = rw (eq→== t.page 0 h) refl

pub split_found_page : (order : ℕ) (t : Taken) → (split_found order t).page ≡ t.page
unfolding split_found split_block
split_found_page order t = elim (Bool-cases (t.page == 0)) [ inl e ↦ rw e refl | inr e ↦ rw e refl ]

pub alloc_levels-empty :
    (memory : Memory) (levels order : ℕ) (areas : List Area) (count : ℕ)
    → ((j : ℕ) → (area_at areas j).nr_free ≡ 0)
    → alloc_levels memory levels order areas count ≡ nothing areas count
unfolding alloc_levels
alloc_levels-empty memory zero order areas count h = refl
alloc_levels-empty memory (suc levels) order areas count h =
    rw
      (
        eq→== (area_at areas order).nr_free 0 (h order),
        alloc_levels-empty memory levels (order + 1) areas count h,
      )
      (split_found_null order (nothing areas count) refl)

split_found-below :
    (order : ℕ) (t : Taken) (j : ℕ)
    → j < order
    → area_at (split_found order t).areas j ≡ area_at t.areas j
unfolding split_found split_block
split_found-below order t j h = elim (Bool-cases (t.page == 0)) [
  | inl e ↦ rw e refl
  | inr e ↦ rw e (get_or-set_ne t.areas order j _ empty_area (omega arith))
]

-- Orders below the one asked for are left alone.
pub alloc_levels-below :
    (memory : Memory) (levels order : ℕ) (areas : List Area) (count j : ℕ)
    → j < order
    → area_at (alloc_levels memory levels order areas count).areas j ≡ area_at areas j
unfolding alloc_levels pop_block
alloc_levels-below memory zero order areas count j h = refl
alloc_levels-below memory (suc levels) order areas count j h =
    elim (Bool-cases ((area_at areas order).nr_free == 0)) [
      | inl e ↦ rw e (
          split_found-below order (alloc_levels memory levels (order + 1) areas count) j h
          ∙ alloc_levels-below memory levels (order + 1) areas count j (omega arith))
      | inr e ↦ rw e (get_or-set_ne areas order j _ empty_area (omega arith))
    ]

split_found-length : (order : ℕ) (t : Taken) → length (split_found order t).areas ≡ length t.areas
unfolding split_found split_block
split_found-length order t = elim (Bool-cases (t.page == 0)) [
  | inl e ↦ rw e refl
  | inr e ↦ rw e (length-set t.areas order _)
]

pub alloc_levels-length :
    (memory : Memory) (levels order : ℕ) (areas : List Area) (count : ℕ)
    → length (alloc_levels memory levels order areas count).areas ≡ length areas
unfolding alloc_levels pop_block
alloc_levels-length memory zero order areas count = refl
alloc_levels-length memory (suc levels) order areas count =
    elim (Bool-cases ((area_at areas order).nr_free == 0)) [
      | inl e ↦ rw e (
          split_found-length order (alloc_levels memory levels (order + 1) areas count)
          ∙ alloc_levels-length memory levels (order + 1) areas count)
      | inr e ↦ rw e (length-set areas order _)
    ]
