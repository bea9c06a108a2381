-- ===== src/Paging/Grow.antt =====
-- A new table under an absent entry, for kernel/memory/paging.c.
use mathlib.Core.Bool.{true≢false}
use cellkernelqwen.Prelude.{
  ℕ, zero, suc, ◌+◌, ◌-◌, ◌*◌, ◌%◌, ◌<◌, ◌≡◌, ◌≢◌, ◌⊎◌, refl, sym, ap, ◌∙◌, inl, inr, Bool, true,
  false, arith, Bool-cases, ◌==◌, ==→eq, ==→ne, eq→==, ne→==, if◌then◌else◌,
}
use cellkernelqwen.Paging.Tables.{Platform, Space, is_present, table_of, create_pte, with_table}
use cellkernelqwen.Paging.Entries.{table_entry}
use cellkernelqwen.Paging.Lookup.{number_at, entry_from, IsSound, Shape, IsTree}

same : (b : Bool) (x : ℕ) → (if b then x else x) ≡ x
same true x = refl
same false x = refl

module _ (P : Platform) (sound : IsSound P) (pgd : ℕ) (h : Shape) (s : Space P)
    (tree : IsTree P sound pgd h s) (table i : ℕ) (high : 1 < h.level table) (short : i < 512)
    (absent : is_present (s.tables table i) ≡ false) (got : (P.alloc_page s.frames).0 ≢ 0) where
  abbrev page : ℕ
  page = (P.alloc_page s.frames).0

  abbrev entry : ℕ
  entry = create_pte (P.virt_to_phys page) 3

  abbrev pub grown : Space P
  grown = with_table P table i page (P.alloc_page s.frames).1 s

  level_page : h.level page ≡ 0
  level_page = elim (Bool-cases (h.level page == 0)) [
    | inl e ↦ ==→eq _ 0 e
    | inr e ↦
        absurd
          (true≢false (sym (tree.owned page (==→ne _ 0 e)) ∙ sound.is_new s.frames tree.steady got))
  ]

  no_page : (t : ℕ) → h.level t ≢ 0 → t ≢ page
  no_page t some e = some (ap h.level e ∙ level_page)

  entry_present : is_present entry ≡ true
  entry_present =
      rw (sound.is_page s.frames tree.steady got)
        (table_entry (sound.frame_number s.frames) (sound.in_range s.frames tree.steady got)).0

  entry_leads : table_of P entry ≡ page
  unfolding table_of
  entry_leads =
      ap P.phys_to_virt (
        rw (sound.is_page s.frames tree.steady got)
          (table_entry (sound.frame_number s.frames) (sound.in_range s.frames tree.steady got)).1)
      ∙ sound.comes_back s.frames tree.steady got

  row_of_page : (j : ℕ) → grown.tables page j ≡ 0
  unfolding with_table
  row_of_page j =
      rw
        (
          ne→== page table (λ e. no_page table (λ z. omega (arith, z)) (sym e)),
          eq→== page page refl,
        )
        refl

  at_entry : grown.tables table i ≡ entry
  unfolding with_table
  at_entry = rw (eq→== table table refl, eq→== i i refl) refl

  elsewhere : (t j : ℕ) → h.level t ≢ 0 → (t ≢ table) ⊎ (j ≢ i) → grown.tables t j ≡ s.tables t j
  unfolding with_table
  elsewhere t j some (inl other) = rw (ne→== t table other, ne→== t page (no_page t some)) refl
  elsewhere t j some (inr other) =
      rw (ne→== j i other, ne→== t page (no_page t some)) (same (t == table) (s.tables t j))

  -- Nothing is found from the new table.
  from_page : (n virt : ℕ) → entry_from P n page virt grown ≡ 0
  unfolding is_present
  from_page zero virt = row_of_page (number_at zero virt % 512)
  from_page (suc n) virt = rw (row_of_page (number_at (suc n) virt % 512)) refl

  abbrev pub grown_shape : Shape
  grown_shape = record {
    level = λ t. if t == page then h.level table - 1 else h.level t;
    place = λ t. if t == page then h.place table * 512 + i else h.place t;
  }

  pub level_kept : (t : ℕ) → h.level t ≢ 0 → grown_shape.level t ≡ h.level t
  level_kept t some = rw (ne→== t page (no_page t some)) refl

  pub place_kept : (t : ℕ) → h.level t ≢ 0 → grown_shape.place t ≡ h.place t
  place_kept t some = rw (ne→== t page (no_page t some)) refl

  -- Either the entry that was made or one that is as before.
  where_entry :
      (t j : ℕ) → h.level t ≢ 0 → ((t ≡ table) × (j ≡ i)) ⊎ (grown.tables t j ≡ s.tables t j)
  where_entry t j some = elim (Bool-cases (t == table)) [
    | inl e ↦ elim (Bool-cases (j == i)) [
      | inl k ↦ inl (==→eq t table e, ==→eq j i k)
      | inr k ↦ inr (elsewhere t j some (inr (==→ne j i k)))
    ]
    | inr e ↦ inr (elsewhere t j some (inl (==→ne t table e)))
  ]

  -- Every address is translated as before.
  pub entry_from-grown :
      (n u virt : ℕ) → h.level u ≡ suc n → entry_from P n u virt grown ≡ entry_from P n u virt s
  entry_from-grown zero u virt lev =
      elsewhere u (number_at zero virt % 512) (λ z. omega (arith, z, lev))
        (inl (λ e. omega (arith, lev, ap h.level e)))
  entry_from-grown (suc n) u virt lev =
      let j = number_at (suc n) virt % 512 in
      elim (where_entry u j (λ z. omega (arith, z, lev))) [
        | inl (e, k) ↦
            let new : grown.tables u j ≡ entry =
              ap (λ (t : ℕ). grown.tables t j) e ∙ ap (grown.tables table) k ∙ at_entry in
            let old : is_present (s.tables u j) ≡ false =
              ap (λ (t : ℕ). is_present (s.tables t j)) e
              ∙ ap (λ (t : ℕ). is_present (s.tables table t)) k
              ∙ absent in
            rw (new, entry_present, entry_leads, old) (from_page n virt)
        | inr kept ↦ rw kept (elim (Bool-cases (is_present (s.tables u j))) [
          | inl on ↦
              let level_below = tree.child_level u j (omega (arith, lev)) (omega arith) on in
              rw on (
                entry_from-grown n (table_of P (s.tables u j)) virt
                  (omega (arith, lev, level_below)))
          | inr off ↦ rw off refl
        ])
      ]

  grown-child :
      (t j : ℕ)
      → h.level t ≢ 0
      → 1 < h.level t
      → j < 512
      → is_present (grown.tables t j) ≡ true
      → (suc (grown_shape.level (table_of P (grown.tables t j))) ≡ h.level t)
        × (grown_shape.place (table_of P (grown.tables t j)) ≡ h.place t * 512 + j)
  grown-child t j some above_last small on = elim (where_entry t j some) [
    | inl (e, k) ↦
        let new : grown.tables t j ≡ entry =
          ap (λ (u : ℕ). grown.tables u j) e ∙ ap (grown.tables table) k ∙ at_entry in
        rw (new, entry_leads, eq→== page page refl)
          (omega (arith, ap h.level e, high), omega (arith, ap h.place e, k))
    | inr kept ↦
        let on' : is_present (s.tables t j) ≡ true = ap is_present (sym kept) ∙ on in
        let lev = tree.child_level t j above_last small on' in
        let below : h.level (table_of P (s.tables t j)) ≢ 0 =
          λ z. omega (arith, z, lev, above_last) in
        rw kept (
          ap suc (level_kept (table_of P (s.tables t j)) below) ∙ lev,
          place_kept (table_of P (s.tables t j)) below ∙ tree.child_place t j above_last small on',
        )
  ]

  nothing_below_page : (j : ℕ) → is_present (grown.tables page j) ≡ false
  unfolding is_present
  nothing_below_page j = rw (row_of_page j) refl

  any_child :
      (t j : ℕ)
      → 1 < grown_shape.level t
      → j < 512
      → is_present (grown.tables t j) ≡ true
      → (suc (grown_shape.level (table_of P (grown.tables t j))) ≡ grown_shape.level t)
        × (grown_shape.place (table_of P (grown.tables t j)) ≡ grown_shape.place t * 512 + j)
  any_child t j above_last small on = elim (Bool-cases (t == page)) [
    | inl e ↦ absurd (
        true≢false (
          sym on
          ∙ ap (λ (u : ℕ). is_present (grown.tables u j)) (==→eq t page e)
          ∙ nothing_below_page j))
    | inr e ↦
        let lev : grown_shape.level t ≡ h.level t = rw e refl in
        let place : grown_shape.place t ≡ h.place t = rw e refl in
        let (a, b) =
          grown-child t j (λ z. omega (arith, z, lev, above_last)) (omega (arith, lev, above_last))
            small on in
        (a ∙ sym lev, b ∙ sym (ap (λ (p : ℕ). p * 512 + j) place))
  ]

  steady_grown : sound.good grown.frames
  unfolding with_table
  steady_grown = sound.keeps s.frames tree.steady

  still_owned : (t : ℕ) → grown_shape.level t ≢ 0 → sound.taken grown.frames t ≡ true
  unfolding with_table
  still_owned t some = elim (Bool-cases (t == page)) [
    | inl e ↦
        ap (sound.taken (P.alloc_page s.frames).1) (==→eq t page e)
        ∙ sound.is_taken s.frames tree.steady got
    | inr e ↦
        let lev : grown_shape.level t ≡ h.level t = rw e refl in
        sound.stays s.frames t tree.steady (tree.owned t (λ z. some (lev ∙ z)))
  ]

  pub grown-IsTree : IsTree P sound pgd grown_shape grown
  grown-IsTree = record {
    root = level_kept pgd (λ z. omega (arith, z, tree.root)) ∙ tree.root;
    root_place = place_kept pgd (λ z. omega (arith, z, tree.root)) ∙ tree.root_place;
    null = rw (ne→== 0 page (λ e. got (sym e))) tree.null;
    steady = steady_grown;
    owned = still_owned;
    child_level = λ t j k small on. (any_child t j k small on).0;
    child_place = λ t j k small on. (any_child t j k small on).1;
  }

  pub entry_kept :
      (t j : ℕ) → h.level t ≢ 0 → is_present (s.tables t j) ≡ true → grown.tables t j ≡ s.tables t j
  entry_kept t j some on = elim (where_entry t j some) [
    | inl (e, k) ↦ absurd (
        true≢false (
          sym on
          ∙ ap (λ (u : ℕ). is_present (s.tables u j)) e
          ∙ ap (λ (u : ℕ). is_present (s.tables table u)) k
          ∙ absent))
    | inr kept ↦ kept
  ]

  pub level_of_page : suc (grown_shape.level page) ≡ h.level table
  level_of_page = rw (eq→== page page refl) (omega (arith, high))

  pub place_of_page : grown_shape.place page ≡ h.place table * 512 + i
  place_of_page = rw (eq→== page page refl) refl

  pub page_present : is_present (grown.tables table i) ≡ true
  page_present = ap is_present at_entry ∙ entry_present

  pub leads_to_page : table_of P (grown.tables table i) ≡ page
  leads_to_page = ap (table_of P) at_entry ∙ entry_leads
