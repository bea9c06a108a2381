-- ===== src/Paging/Descend.antt =====
-- `descend`, the step of `map_page` in kernel/memory/paging.c from a table to the one below.
use cellkernelqwen.Prelude.{
  ℕ, zero, suc, ◌+◌, ◌*◌, ◌%◌, ◌<◌, ◌≡◌, ◌≢◌, ◌⊎◌, refl, sym, ap, ◌∙◌, inl, inr, true, false, arith,
  Bool-cases, Option, none, some, ◌==◌, ==→ne, if◌then◌else◌,
}
use cellkernelqwen.Paging.Tables.{
  Platform, Space, is_present, table_of, with_table, add_table, descend,
}
use cellkernelqwen.Paging.Lookup.{number_at, entry_from, IsSound, Shape, IsTree}
use cellkernelqwen.Paging.Grow

module _ (P : Platform) (sound : IsSound P) (pgd : ℕ) where
  -- A later state has the tables and the present entries of an earlier one, and translates every
  -- address alike.
  pub record Grows (h : Shape) (s : Space P) (h' : Shape) (s' : Space P) : Type 0 where
    pub tree : IsTree P sound pgd h' s'
    pub level_kept : (t : ℕ) → h.level t ≢ 0 → h'.level t ≡ h.level t
    pub place_kept : (t : ℕ) → h.level t ≢ 0 → h'.place t ≡ h.place t
    pub entry_kept :
        (t j : ℕ) → h.level t ≢ 0 → is_present (s.tables t j) ≡ true → s'.tables t j ≡ s.tables t j
    pub found :
        (n u virt : ℕ) → h.level u ≡ suc n → entry_from P n u virt s' ≡ entry_from P n u virt s

  pub Grows-refl : (h : Shape) (s : Space P) → IsTree P sound pgd h s → Grows h s h s
  Grows-refl h s tree = record {
    tree = tree;
    level_kept = λ t k. refl;
    place_kept = λ t k. refl;
    entry_kept = λ t j k on. refl;
    found = λ n u virt lev. refl;
  }

  pub Grows-trans :
      {h h' h'' : Shape} {s s' s'' : Space P}
      → Grows h s h' s'
      → Grows h' s' h'' s''
      → Grows h s h'' s''
  Grows-trans {h = h} f g =
      let kept = λ (t : ℕ) (k : h.level t ≢ 0) (z : _). k (sym (f.level_kept t k) ∙ z) in
      record {
        tree = g.tree;
        level_kept = λ t k. g.level_kept t (kept t k) ∙ f.level_kept t k;
        place_kept = λ t k. g.place_kept t (kept t k) ∙ f.place_kept t k;
        entry_kept = λ t j k on.
            g.entry_kept t j (kept t k) (ap is_present (f.entry_kept t j k on) ∙ on)
            ∙ f.entry_kept t j k on;
        found = λ n u virt lev.
            g.found n u virt (f.level_kept u (λ z. omega (arith, z, lev)) ∙ lev)
            ∙ f.found n u virt lev;
      }

  -- The step found no memory, or led from the entry to a table one level below.
  abbrev pub Arrives : Shape → Space P → ℕ → ℕ → Option ℕ × Space P → Type 0
  Arrives h s table i r =
      ((s' : Space P) × (r ≡ (none, s')) × Grows h s h s')
      ⊎ ((s' : Space P) × (h' : Shape) × (below : ℕ) × (r ≡ (some below, s'))
          × Grows h s h' s'
          × (suc (h'.level below) ≡ h.level table)
          × (h'.place below ≡ h.place table * 512 + i)
          × (is_present (s'.tables table i) ≡ true)
          × (table_of P (s'.tables table i) ≡ below))

  module _ (h : Shape) (s : Space P) (tree : IsTree P sound pgd h s) (table i : ℕ)
      (high : 1 < h.level table) (short : i < 512) where
    -- Only the frame allocator changed.
    abbrev used : Space P
    used = record { tables = s.tables; frames = (P.alloc_page s.frames).1; flushed = s.flushed }

    entry_from-used : (n u virt : ℕ) → entry_from P n u virt used ≡ entry_from P n u virt s
    entry_from-used zero u virt = refl
    entry_from-used (suc n) u virt =
        let e = s.tables u (number_at (suc n) virt % 512) in
        ap (λ (t : ℕ). if is_present e then t else 0) (entry_from-used n (table_of P e) virt)

    Grows-used : Grows h s h used
    Grows-used = record {
      tree = record {
        root = tree.root;
        root_place = tree.root_place;
        null = tree.null;
        steady = sound.keeps s.frames tree.steady;
        owned = λ t k. sound.stays s.frames t tree.steady (tree.owned t k);
        child_level = tree.child_level;
        child_place = tree.child_place;
      };
      level_kept = λ t k. refl;
      place_kept = λ t k. refl;
      entry_kept = λ t j k on. refl;
      found = λ n u virt lev. entry_from-used n u virt;
    }

    module _ (absent : is_present (s.tables table i) ≡ false)
        (got : (P.alloc_page s.frames).0 ≢ 0) where
      arrived : Arrives h s table i (
        some (P.alloc_page s.frames).0,
        with_table P table i (P.alloc_page s.frames).0 (P.alloc_page s.frames).1 s,
      )
      arrived = inr (
        Grow.grown P sound pgd h s tree table i high short absent got,
        Grow.grown_shape P sound pgd h s tree table i high short absent got,
        (P.alloc_page s.frames).0,
        refl,
        record {
          tree = Grow.grown-IsTree P sound pgd h s tree table i high short absent got;
          level_kept = Grow.level_kept P sound pgd h s tree table i high short absent got;
          place_kept = Grow.place_kept P sound pgd h s tree table i high short absent got;
          entry_kept = Grow.entry_kept P sound pgd h s tree table i high short absent got;
          found = Grow.entry_from-grown P sound pgd h s tree table i high short absent got;
        },
        Grow.level_of_page P sound pgd h s tree table i high short absent got,
        Grow.place_of_page P sound pgd h s tree table i high short absent got,
        Grow.page_present P sound pgd h s tree table i high short absent got,
        Grow.leads_to_page P sound pgd h s tree table i high short absent got,
      )

    add_table-Arrives :
        is_present (s.tables table i) ≡ false
        → Arrives h s table i (add_table P table i (P.alloc_page s.frames) s)
    unfolding add_table
    add_table-Arrives absent = elim (Bool-cases ((P.alloc_page s.frames).0 == 0)) [
      | inl e ↦ rw e (inl (used, refl, Grows-used))
      | inr e ↦ rw e (arrived absent (==→ne _ 0 e))
    ]

    pub descend-Arrives : Arrives h s table i (descend P table i s)
    unfolding descend
    descend-Arrives = elim (Bool-cases (is_present (s.tables table i))) [
      | inl on ↦ rw on (
          inr (
            s,
            h,
            table_of P (s.tables table i),
            refl,
            Grows-refl h s tree,
            tree.child_level table i high short on,
            tree.child_place table i high short on,
            on,
            refl,
          ))
      | inr off ↦ rw off (add_table-Arrives off)
    ]
