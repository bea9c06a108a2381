-- ===== src/Frames/First.antt =====
-- Which block `alloc_pages_zone` of kernel/memory/frame_alloc.c takes and how it splits it.
use cellkernelqwen.Prelude.{
  ℕ, zero, suc, ◌+◌, ◌≤◌, ◌<◌, ◌≡◌, ◌≢◌, refl, sym, ap, ◌∙◌, inl, inr, List, arith, length,
  get_or-set_self, get_or-set_ne, Bool-cases, ◌==◌, ==→eq, ==→ne, eq→==, ne→==, ltb, lt→ltb, le→ltb,
  ltb→lt, ltb→le, if◌then◌else◌, sub64, add64, ◌<<<◌,
}
use mathlib.Core.Path.{subst}
use cellkernelqwen.Frames.Zone.{Area, Memory, area_at, empty_area, get_buddy}
use cellkernelqwen.Frames.Alloc.{Taken, pop_block, split_block, split_found, alloc_levels}
use cellkernelqwen.Frames.Found.{alloc_levels-length}
use cellkernelqwen.Frames.Account.{split_found_some}

-- The free areas when the block `page` of order `k` was cut down to `order`: each order in
-- between lists the upper half.
unfoldable pub cut_area : Memory → ℕ → ℕ → List Area → ℕ → ℕ → Area
cut_area memory order k areas page j =
    if ltb j order
    then area_at areas j
    else if ltb j k
    then record { nr_free = 1; free_list = get_buddy page j }
    else if j == k
    then record { nr_free = sub64 (area_at areas k).nr_free 1; free_list = memory page }
    else area_at areas j

cut_area_here :
    (memory : Memory) (k : ℕ) (areas : List Area) (count j : ℕ)
    → k < length areas
    → area_at (pop_block memory k areas count).areas j
      ≡ cut_area memory k k areas (area_at areas k).free_list j
unfolding cut_area pop_block
cut_area_here memory k areas count j short = elim (Bool-cases (ltb j k)) [
  | inl e ↦ rw e (get_or-set_ne areas k j _ empty_area (omega (arith, ltb→lt j k e)))
  | inr e ↦ rw e (elim (Bool-cases (j == k)) [
    | inl same ↦ rw same (
        subst
          (λ (t : ℕ). area_at (pop_block memory k areas count).areas t ≡ record {
            nr_free = sub64 (area_at areas k).nr_free 1;
            free_list = memory (area_at areas k).free_list;
          })
          (sym (==→eq j k same)) (get_or-set_self areas k _ empty_area short))
    | inr other ↦ rw other (get_or-set_ne areas k j _ empty_area (λ z. ==→ne j k other (sym z)))
  ])
]

above_other : (j order : ℕ) → order ≤ j → j ≢ order → order + 1 ≤ j
above_other j order h other = grind arith

abbrev single : ℕ → ℕ → Area
single n page = record { nr_free = add64 n 1; free_list = page }

-- Away from `order`, cutting down to it is cutting down to the next one.
cut_area_step :
    (memory : Memory) (order k : ℕ) (areas : List Area) (page j : ℕ)
    → j ≢ order
    → cut_area memory (order + 1) k areas page j ≡ cut_area memory order k areas page j
unfolding cut_area
cut_area_step memory order k areas page j h = elim (Bool-cases (ltb j order)) [
  | inl e ↦ rw (e, lt→ltb j (order + 1) (omega (arith, ltb→lt j order e))) refl
  | inr e ↦ rw (e, le→ltb j (order + 1) (above_other j order (ltb→le j order e) h)) refl
]

cut_area_at :
    (memory : Memory) (order k : ℕ) (areas : List Area) (page : ℕ)
    → order < k
    → cut_area memory order k areas page order
      ≡ record { nr_free = 1; free_list = get_buddy page order }
unfolding cut_area
cut_area_at memory order k areas page h =
    rw (le→ltb order order (omega arith), lt→ltb order k h) refl

cut_area_under :
    (memory : Memory) (order k : ℕ) (areas : List Area) (page : ℕ)
    → cut_area memory (order + 1) k areas page order ≡ area_at areas order
unfolding cut_area
cut_area_under memory order k areas page = rw (lt→ltb order (order + 1) (omega arith)) refl

split_block-at :
    (order : ℕ) (t : Taken)
    → order < length t.areas
    → (area_at t.areas order).nr_free ≡ 0
    → area_at (split_block order t).areas order
      ≡ record { nr_free = 1; free_list = get_buddy t.page order }
unfolding split_block
split_block-at order t short none_free =
    get_or-set_self t.areas order _ empty_area short
    ∙ ap (λ (n : ℕ). single n (get_buddy t.page order)) none_free

split_block-other :
    (order : ℕ) (t : Taken) (j : ℕ)
    → j ≢ order
    → area_at (split_block order t).areas j ≡ area_at t.areas j
unfolding split_block
split_block-other order t j h = get_or-set_ne t.areas order j _ empty_area (λ z. h (sym z))

split_block-cut :
    (memory : Memory) (order k : ℕ) (areas : List Area) (t : Taken) (j : ℕ)
    → order < k
    → order < length t.areas
    → (area_at areas order).nr_free ≡ 0
    → ((i : ℕ) → area_at t.areas i ≡ cut_area memory (order + 1) k areas t.page i)
    → area_at (split_block order t).areas j ≡ cut_area memory order k areas t.page j
split_block-cut memory order k areas t j below short none_free higher =
    let same = higher order ∙ cut_area_under memory order k areas t.page in
    elim (Bool-cases (j == order)) [
      | inl e ↦
          subst
            (λ (i : ℕ).
              area_at (split_block order t).areas i ≡ cut_area memory order k areas t.page i)
            (sym (==→eq j order e))
            (split_block-at order t short (ap (λ (a : Area). a.nr_free) same ∙ none_free)
              ∙ sym (cut_area_at memory order k areas t.page below))
      | inr e ↦
          split_block-other order t j (==→ne j order e)
          ∙ higher j
          ∙ cut_area_step memory order k areas t.page j (==→ne j order e)
    ]

-- The block is that of order `k`, all of which g_free_pages loses, cut down to `order`.
abbrev pub IsCut : Memory → ℕ → ℕ → List Area → ℕ → Taken → Type 0
IsCut memory order k areas count r =
    (r.page ≡ (area_at areas k).free_list)
    × (r.free_count ≡ sub64 count (1 <<< k))
    × ((j : ℕ) → area_at r.areas j ≡ cut_area memory order k areas (area_at areas k).free_list j)

IsCut-pop :
    (memory : Memory) (k levels : ℕ) (areas : List Area) (count : ℕ)
    → k < length areas
    → (area_at areas k).nr_free ≢ 0
    → IsCut memory k k areas count (alloc_levels memory (suc levels) k areas count)
unfolding alloc_levels pop_block
IsCut-pop memory k levels areas count short some =
    rw (ne→== (area_at areas k).nr_free 0 some)
      (refl, refl, λ j. cut_area_here memory k areas count j short)

IsCut-split :
    (memory : Memory) (order k : ℕ) (areas : List Area) (count : ℕ) (t : Taken)
    → order < k
    → order < length t.areas
    → (area_at areas order).nr_free ≡ 0
    → (area_at areas k).free_list ≢ 0
    → IsCut memory (order + 1) k areas count t
    → IsCut memory order k areas count (split_found order t)
unfolding split_block
IsCut-split memory order k areas count t below short none_free real (page, counted, higher) =
    rw (split_found_some order t (λ e. real (sym page ∙ e))) (
      page,
      counted,
      λ j.
          split_block-cut memory order k areas t j below short none_free
            (λ i. higher i ∙ ap (λ p. cut_area memory (order + 1) k areas p i) (sym page))
          ∙ ap (λ p. cut_area memory order k areas p j) page,
    )

pub alloc_levels-IsCut :
    (memory : Memory) (d levels order k : ℕ) (areas : List Area) (count : ℕ)
    → order + d ≡ k
    → d < levels
    → length areas ≡ order + levels
    → ((j : ℕ) → order ≤ j → j < k → (area_at areas j).nr_free ≡ 0)
    → (area_at areas k).nr_free ≢ 0
    → (area_at areas k).free_list ≢ 0
    → IsCut memory order k areas count (alloc_levels memory levels order areas count)
unfolding alloc_levels
alloc_levels-IsCut memory d zero order k areas count sum short len empty some real =
    absurd (omega arith)
alloc_levels-IsCut memory zero (suc levels) order k areas count sum short len empty some real =
    subst (λ (i : ℕ). IsCut memory i k areas count (alloc_levels memory (suc levels) i areas count))
      {x = k} {y = order} (omega arith) (IsCut-pop memory k levels areas count (omega arith) some)
alloc_levels-IsCut memory (suc d) (suc levels) order k areas count sum short len empty some real =
    rw (eq→== (area_at areas order).nr_free 0 (empty order (omega arith) (omega arith))) (
      IsCut-split memory order k areas count (alloc_levels memory levels (order + 1) areas count)
        (omega arith) (omega (arith, alloc_levels-length memory levels (order + 1) areas count))
        (empty order (omega arith) (omega arith)) real
        (alloc_levels-IsCut memory d levels (order + 1) k areas count (omega arith) (omega arith)
          (omega arith) (λ j h. empty j (omega arith)) some real))
