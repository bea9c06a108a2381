-- ===== src/Paging/Map.antt =====
-- `map_page` of kernel/memory/paging.c: what it does to the translation of every address.
use mathlib.Core.Path.{subst}
use cellkernelqwen.Prelude.{
  ℕ, suc, ◌%◌, ◌≡◌, ◌≢◌, ◌⊎◌, refl, sym, ap, ◌∙◌, inl, inr, arith, Bool-cases, Option, none, some,
  ◌==◌, ==→eq, ==→ne, if◌then◌else◌, bit_or,
}
use cellkernelqwen.Prelude.Status.{ℤ, success, error_no_memory}
use cellkernelqwen.Paging.Tables.{
  Platform, Space, is_present, table_of, put_entry, index_at, create_pte, pte_present, map_pte,
  map_pmd, map_pud, map_page, descend,
}
use cellkernelqwen.Paging.Entries.{index_at_lem}
use cellkernelqwen.Paging.Lookup.{page_number, number_at, entry_for, IsSound, Shape, IsTree}
use cellkernelqwen.Paging.Descend.{Grows, Grows-trans, descend-Arrives}
use cellkernelqwen.Paging.Leaf
use cellkernelqwen.Paging.Leaf.{Leads, entry_from-Leads, entry_from-of_page}

pub index_39 : (v : ℕ) → index_at 39 v ≡ number_at 3 v % 512
index_39 v = index_at_lem 39 v ∙ omega arith

pub index_30 : (v : ℕ) → index_at 30 v ≡ number_at 2 v % 512
index_30 v = index_at_lem 30 v ∙ omega arith

pub index_21 : (v : ℕ) → index_at 21 v ≡ number_at 1 v % 512
index_21 v = index_at_lem 21 v ∙ omega arith

pub index_12 : (v : ℕ) → index_at 12 v ≡ number_at 0 v % 512
index_12 v = index_at_lem 12 v ∙ omega arith

module _ (P : Platform) (sound : IsSound P) (pgd : ℕ) where
  -- The result is a tree. Either the page of `w` is translated by `entry` and every other address
  -- as before, or there was no memory and every address is translated as before.
  abbrev pub Mapped : Space P → ℕ → ℕ → ℤ × Space P → Type 0
  Mapped s w entry r =
      (h : Shape) × IsTree P sound pgd h r.1
      × (((r.0 ≡ success)
            × ((v : ℕ)
                → entry_for P pgd v r.1
                  ≡ (if page_number v == page_number w then entry else entry_for P pgd v s)))
          ⊎ ((r.0 ≡ error_no_memory) × ((v : ℕ) → entry_for P pgd v r.1 ≡ entry_for P pgd v s)))

  -- A write to the last table on the way from the root to `w`.
  pub written-Mapped :
      (h : Shape) (s : Space P) (w entry pud pmd pte : ℕ)
      → IsTree P sound pgd h s
      → h.level pud ≡ 3
      → h.level pmd ≡ 2
      → h.level pte ≡ 1
      → h.place pte ≡ number_at 1 w
      → Leads P 2 pgd w pud s
      → Leads P 1 pud w pmd s
      → Leads P 0 pmd w pte s
      → Mapped s w entry (success, put_entry P pte (index_at 12 w) entry w s)
  written-Mapped h s w entry pud pmd pte tree l3 l2 l1 here a b c = rw (index_12 w) (
      let after = Leaf.written P sound pgd h s tree pte w entry l1 here in
      let kept = Leaf.Leads-written P sound pgd h s tree pte w entry l1 here in
      let at_w : entry_for P pgd w after ≡ entry =
        entry_from-Leads P 2 pgd w pud after (kept 2 pgd w pud (omega (arith, tree.root)) a)
        ∙ entry_from-Leads P 1 pud w pmd after (kept 1 pud w pmd (omega (arith, l3)) b)
        ∙ entry_from-Leads P 0 pmd w pte after (kept 0 pmd w pte (omega (arith, l2)) c)
        ∙ Leaf.at_written P sound pgd h s tree pte w entry l1 here in
      (
        h,
        Leaf.written-IsTree P sound pgd h s tree pte w entry l1 here,
        inl (
          refl,
          λ v. elim (Bool-cases (page_number v == page_number w)) [
            | inl e ↦ rw e (entry_from-of_page P 3 pgd v w after (==→eq _ _ e) ∙ at_w)
            | inr e ↦ rw e (
                Leaf.entry_from-written P sound pgd h s tree pte w entry l1 here 3 pgd v tree.root
                  (tree.root_place ∙ omega arith) (==→ne _ _ e))
          ],
        ),
      ))

  Leads-kept :
      {h h' : Shape} {s s' : Space P} (n table v below : ℕ)
      → Grows P sound pgd h s h' s'
      → h.level table ≢ 0
      → Leads P n table v below s
      → Leads P n table v below s'
  Leads-kept n table v below g leveled (on, to) =
      let kept = g.entry_kept table (number_at (suc n) v % 512) leveled on in
      (ap is_present kept ∙ on, ap (table_of P) kept ∙ to)

  -- One step down from a table `n` above the last, with what it leads to.
  abbrev Steps : ℕ → Shape → Space P → ℕ → ℕ → Option ℕ × Space P → Type 0
  Steps n h s table w r =
      ((s' : Space P) × (r ≡ (none, s')) × Grows P sound pgd h s h s')
      ⊎ ((s' : Space P) × (h' : Shape) × (below : ℕ) × (r ≡ (some below, s'))
          × Grows P sound pgd h s h' s'
          × (h'.level below ≡ suc n)
          × (h'.place below ≡ number_at (suc n) w)
          × Leads P n table w below s')

  descend-Steps :
      (n : ℕ) (h : Shape) (s : Space P) (table w i : ℕ)
      → IsTree P sound pgd h s
      → h.level table ≡ suc (suc n)
      → h.place table ≡ number_at (suc (suc n)) w
      → i ≡ number_at (suc n) w % 512
      → Steps n h s table w (descend P table i s)
  descend-Steps n h s table w i tree lev place e =
      elim (descend-Arrives P sound pgd h s tree table i (omega (arith, lev)) (omega (arith, e))) [
        | inl (s', r, g) ↦ inl (s', r, g)
        | inr (s', h', below, r, g, lev', place', on, to) ↦ inr (
          s',
          h',
          below,
          r,
          g,
          omega (arith, lev, lev'),
          omega (arith, place, place', e),
          (
            ap (λ (j : ℕ). is_present (s'.tables table j)) (sym e) ∙ on,
            ap (λ (j : ℕ). table_of P (s'.tables table j)) (sym e) ∙ to,
          ),
        )
      ]

  module _ (h₀ : Shape) (s₀ : Space P) (tree₀ : IsTree P sound pgd h₀ s₀) (w phys flags : ℕ) where
    abbrev new_entry : ℕ
    new_entry = create_pte phys (bit_or flags pte_present)

    abbrev Done : ℤ × Space P → Type 0
    Done r = Mapped s₀ w new_entry r

    without_memory :
        {h : Shape} {s : Space P} → Grows P sound pgd h₀ s₀ h s → Done (error_no_memory, s)
    without_memory {h = h} {s = s} g = (h, g.tree, inr (refl, λ v. g.found 3 pgd v tree₀.root))

    -- A mapping over a state that translates as the first one does.
    mapped_as :
        {h : Shape} {s : Space P} (r : ℤ × Space P)
        → Grows P sound pgd h₀ s₀ h s
        → Mapped s w new_entry r
        → Done r
    mapped_as {h = h} {s = s} r g (k, tree, inl (ok, all)) = (
      k,
      tree,
      inl (
        ok,
        λ v.
            all v
            ∙ ap (λ (t : ℕ). if page_number v == page_number w then new_entry else t)
                (g.found 3 pgd v tree₀.root),
      ),
    )
    mapped_as {h = h} {s = s} r g (k, tree, inr (failed, all)) =
        (k, tree, inr (failed, λ v. all v ∙ g.found 3 pgd v tree₀.root))

    map_pmd-Done :
        (h : Shape) (s : Space P) (pud pmd : ℕ)
        → Grows P sound pgd h₀ s₀ h s
        → h.level pud ≡ 3
        → h.level pmd ≡ 2
        → h.place pmd ≡ number_at 2 w
        → Leads P 2 pgd w pud s
        → Leads P 1 pud w pmd s
        → Done (map_pmd P w phys flags (some pmd, s))
    unfolding map_pmd map_pte
    map_pmd-Done h s pud pmd g l3 l2 place a b =
        elim (descend-Steps 0 h s pmd w (index_at 21 w) g.tree l2 place (index_21 w)) [
          | inl (s', r, g') ↦
              subst (λ q. Done (map_pte P w phys flags q)) (sym r)
                (without_memory (Grows-trans P sound pgd g g'))
          | inr (s', h', pte, r, g', l1, here, c) ↦
              subst (λ q. Done (map_pte P w phys flags q)) (sym r)
                (mapped_as _ (Grows-trans P sound pgd g g') (
                  written-Mapped h' s' w new_entry pud pmd pte g'.tree
                    (g'.level_kept pud (λ z. omega (arith, z, l3)) ∙ l3)
                    (g'.level_kept pmd (λ z. omega (arith, z, l2)) ∙ l2) l1 here
                    (Leads-kept 2 pgd w pud g' (λ z. omega (arith, z, g.tree.root)) a)
                    (Leads-kept 1 pud w pmd g' (λ z. omega (arith, z, l3)) b) c))
        ]

    map_pud-Done :
        (h : Shape) (s : Space P) (pud : ℕ)
        → Grows P sound pgd h₀ s₀ h s
        → h.level pud ≡ 3
        → h.place pud ≡ number_at 3 w
        → Leads P 2 pgd w pud s
        → Done (map_pud P w phys flags (some pud, s))
    unfolding map_pud map_pmd
    map_pud-Done h s pud g l3 place a =
        elim (descend-Steps 1 h s pud w (index_at 30 w) g.tree l3 place (index_30 w)) [
          | inl (s', r, g') ↦
              subst (λ q. Done (map_pmd P w phys flags q)) (sym r)
                (without_memory (Grows-trans P sound pgd g g'))
          | inr (s', h', pmd, r, g', l2, here, b) ↦
              subst (λ q. Done (map_pmd P w phys flags q)) (sym r)
                (map_pmd-Done h' s' pud pmd (Grows-trans P sound pgd g g')
                  (g'.level_kept pud (λ z. omega (arith, z, l3)) ∙ l3) l2 here
                  (Leads-kept 2 pgd w pud g' (λ z. omega (arith, z, g.tree.root)) a) b)
        ]

    map_page-Done : Done (map_page P pgd w phys flags s₀)
    unfolding map_page map_pud
    map_page-Done =
        elim (descend-Steps 2 h₀ s₀ pgd w (index_at 39 w) tree₀ tree₀.root
          (tree₀.root_place ∙ omega arith) (index_39 w)) [
            | inl (s', r, g') ↦
                subst (λ q. Done (map_pud P w phys flags q)) (sym r) (without_memory g')
            | inr (s', h', pud, r, g', l3, here, a) ↦
                subst (λ q. Done (map_pud P w phys flags q)) (sym r)
                  (map_pud-Done h' s' pud g' l3 here a)
          ]

  -- Over frames that keep the promise IsSound and over a tree of tables, map_page leaves a tree. Either it returns CK_SUCCESS, the page of the
  -- address is translated by the entry for the frame, with the flags and the present bit, and every
  -- other page as before, or it returns CK_ERROR_NO_MEMORY and every page is translated as before.
  pub map_page-Mapped :
      (h : Shape) (s : Space P) (virt phys flags : ℕ)
      → IsTree P sound pgd h s
      → Mapped s virt
          (create_pte phys (bit_or flags pte_present))
          (map_page P pgd virt phys flags s)
  map_page-Mapped h s virt phys flags tree = map_page-Done h s tree virt phys flags
