-- ===== src/Paging/Unmap.antt =====
-- `unmap_page` of kernel/memory/paging.c: what it does to the translation of every address.
use mathlib.Core.Path.{subst}
use cellkernelqwen.Prelude.{
  ℕ, suc, ◌%◌, ◌≡◌, ◌≢◌, ◌⊎◌, refl, sym, ap, ◌∙◌, inl, inr, true, arith, Bool-cases, none, some,
  ◌==◌, ne→==, if◌then◌else◌,
}
use cellkernelqwen.Prelude.Status.{ℤ, success, error_not_found}
use cellkernelqwen.Paging.Tables.{
  Platform, Space, is_present, table_of, index_at, table_offset, unmap_pte, unmap_pmd, unmap_pud,
  unmap_page,
}
use cellkernelqwen.Paging.Lookup.{
  page_number, number_at, entry_from, entry_for, IsSound, Shape, IsTree,
}
use cellkernelqwen.Paging.Leaf.{Leads, entry_from-Leads}
use cellkernelqwen.Paging.Map.{index_39, index_30, index_21, Mapped, written-Mapped}

module _ (P : Platform) where
  -- A step of the walk that unmap_page makes.
  table_offset_cases :
      (n shift table w : ℕ) (s : Space P)
      → index_at shift w ≡ number_at (suc n) w % 512
      → (is_present (s.tables table (number_at (suc n) w % 512)) ≡ true
          → table_of P (s.tables table (number_at (suc n) w % 512)) ≢ 0)
      → ((below : ℕ) × (table_offset P shift table w s ≡ some below) × Leads P n table w below s)
        ⊎ ((table_offset P shift table w s ≡ none) × (entry_from P (suc n) table w s ≡ 0))
  unfolding table_offset
  table_offset_cases n shift table w s e real =
      rw e (elim (Bool-cases (is_present (s.tables table (number_at (suc n) w % 512)))) [
        | inl on ↦ inl (
          table_of P (s.tables table (number_at (suc n) w % 512)),
          rw (on, ne→== _ 0 (real on)) refl,
          (on, refl),
        )
        | inr off ↦ inr (rw off refl, rw off refl)
      ])

  module _ (sound : IsSound P) (pgd : ℕ) (h : Shape) (s : Space P) (w : ℕ)
      (tree : IsTree P sound pgd h s) where
    one_below :
        (n table below : ℕ)
        → h.level table ≡ suc (suc n)
        → h.place table ≡ number_at (suc (suc n)) w
        → Leads P n table w below s
        → (h.level below ≡ suc n) × (h.place below ≡ number_at (suc n) w)
    one_below n table below lev place (on, to) =
        let j = number_at (suc n) w % 512 in
        let level_below = tree.child_level table j (omega (arith, lev)) (omega arith) on in
        let place_below = tree.child_place table j (omega (arith, lev)) (omega arith) on in
        (
          sym (ap h.level to) ∙ omega (arith, lev, level_below),
          sym (ap h.place to) ∙ omega (arith, place, place_below),
        )

    below_real :
        (n table : ℕ)
        → h.level table ≡ suc (suc n)
        → is_present (s.tables table (number_at (suc n) w % 512)) ≡ true
        → table_of P (s.tables table (number_at (suc n) w % 512)) ≢ 0
    below_real n table lev on e = omega (
      arith,
      lev,
      tree.child_level table (number_at (suc n) w % 512) (omega (arith, lev)) (omega arith) on,
      ap h.level e,
      tree.null,
    )

    -- Either the page of `w` is not translated any more and every other page as before, or a table
    -- for it is missing, nothing has changed, and it was not translated.
    abbrev pub Unmapped : ℤ × Space P → Type 0
    Unmapped r =
        ((k : Shape) × IsTree P sound pgd k r.1
          × (r.0 ≡ success)
          × ((v : ℕ)
              → entry_for P pgd v r.1
                ≡ (if page_number v == page_number w then 0 else entry_for P pgd v s)))
        ⊎ ((r ≡ (error_not_found, s)) × (entry_for P pgd w s ≡ 0))

    of_Mapped : (r : ℤ × Space P) → r.0 ≡ success → Mapped P sound pgd s w 0 r → Unmapped r
    of_Mapped r ok (k, after, inl (done, all)) = inl (k, after, done, all)
    of_Mapped r ok (k, after, inr (failed, all)) = absurd (cc)

    unmap_pmd-Unmapped :
        (pud pmd : ℕ)
        → h.level pud ≡ 3
        → h.level pmd ≡ 2
        → h.place pmd ≡ number_at 2 w
        → Leads P 2 pgd w pud s
        → Leads P 1 pud w pmd s
        → Unmapped (unmap_pmd P w s (some pmd))
    unfolding unmap_pmd unmap_pte
    unmap_pmd-Unmapped pud pmd l3 l2 place a b =
        elim (table_offset_cases 0 21 pmd w s (index_21 w) (below_real 0 pmd l2)) [
          | inl (pte, r, c) ↦
              let (l1, here) = one_below 0 pmd pte l2 place c in
              subst (λ q. Unmapped (unmap_pte P w s q)) (sym r)
                (of_Mapped _ refl
                  (written-Mapped P sound pgd h s w 0 pud pmd pte tree l3 l2 l1 here a b c))
          | inr (r, missing) ↦
              subst (λ q. Unmapped (unmap_pte P w s q)) (sym r)
                (inr (
                  refl,
                  entry_from-Leads P 2 pgd w pud s a ∙ entry_from-Leads P 1 pud w pmd s b ∙ missing,
                ))
        ]

    unmap_pud-Unmapped :
        (pud : ℕ)
        → h.level pud ≡ 3
        → h.place pud ≡ number_at 3 w
        → Leads P 2 pgd w pud s
        → Unmapped (unmap_pud P w s (some pud))
    unfolding unmap_pud unmap_pmd
    unmap_pud-Unmapped pud l3 place a =
        elim (table_offset_cases 1 30 pud w s (index_30 w) (below_real 1 pud l3)) [
          | inl (pmd, r, b) ↦
              let (l2, here) = one_below 1 pud pmd l3 place b in
              subst (λ q. Unmapped (unmap_pmd P w s q)) (sym r)
                (unmap_pmd-Unmapped pud pmd l3 l2 here a b)
          | inr (r, missing) ↦
              subst (λ q. Unmapped (unmap_pmd P w s q)) (sym r)
                (inr (refl, entry_from-Leads P 2 pgd w pud s a ∙ missing))
        ]

    -- Over a tree of tables unmap_page either returns CK_SUCCESS and leaves a tree in which the page
    -- of the address is not translated and every other page as before, or it returns
    -- CK_ERROR_NOT_FOUND, changes nothing, and the page was not translated.
    pub unmap_page-Unmapped : Unmapped (unmap_page P pgd w s)
    unfolding unmap_page unmap_pud
    unmap_page-Unmapped =
        elim (table_offset_cases 2 39 pgd w s (index_39 w) (below_real 2 pgd tree.root)) [
          | inl (pud, r, a) ↦
              let (l3, here) = one_below 2 pgd pud tree.root (tree.root_place ∙ omega arith) a in
              subst (λ q. Unmapped (unmap_pud P w s q)) (sym r) (unmap_pud-Unmapped pud l3 here a)
          | inr (r, missing) ↦
              subst (λ q. Unmapped (unmap_pud P w s q)) (sym r) (inr (refl, missing))
        ]
