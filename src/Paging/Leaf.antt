-- ===== src/Paging/Leaf.antt =====
-- A write to an entry of a last table, for kernel/memory/paging.c.
use mathlib.Core.Bool.{true≢false}
use cellkernelqwen.Prelude.{
  ℕ, zero, suc, ◌/◌, ◌%◌, ◌<◌, ◌≡◌, ◌≢◌, ◌⊎◌, refl, sym, ap, ◌∙◌, inl, inr, Bool, true, false,
  arith, Bool-cases, ◌==◌, ==→eq, eq→==, ne→==, if◌then◌else◌,
}
use cellkernelqwen.Paging.Tables.{Platform, Space, is_present, table_of, put_entry}
use cellkernelqwen.Paging.Lookup.{page_number, number_at, entry_from, IsSound, Shape, IsTree}

number_at-of_page : (n v w : ℕ) → page_number v ≡ page_number w → number_at n v ≡ number_at n w
number_at-of_page zero v w e = e
number_at-of_page (suc n) v w e = ap (λ (t : ℕ). t / 512) (number_at-of_page n v w e)

unchanged :
    (b c : Bool) (x y : ℕ) → (b ≡ false) ⊎ (c ≡ false) → (if b then (if c then x else y) else y) ≡ y
unchanged true true x y (inl e) = absurd (true≢false e)
unchanged true true x y (inr e) = absurd (true≢false e)
unchanged true false x y e = refl
unchanged false c x y e = refl

module _ (P : Platform) where
  -- Addresses in one page are translated alike.
  pub entry_from-of_page :
      (n u v w : ℕ) (s : Space P)
      → page_number v ≡ page_number w
      → entry_from P n u v s ≡ entry_from P n u w s
  entry_from-of_page zero u v w s e =
      ap (λ (t : ℕ). s.tables u (t % 512)) (number_at-of_page zero v w e)
  entry_from-of_page (suc n) u v w s e =
      let same = number_at-of_page (suc n) v w e in
      ap
        (λ (t : ℕ).
          let x = s.tables u (t % 512) in
          if is_present x then entry_from P n (table_of P x) v s else 0)
        same
      ∙ ap (λ (t : ℕ). if is_present (s.tables u (number_at (suc n) w % 512)) then t else 0)
          (entry_from-of_page n (table_of P (s.tables u (number_at (suc n) w % 512))) v w s e)

  -- An entry that leads from a table towards an address to the next table.
  abbrev pub Leads : ℕ → ℕ → ℕ → ℕ → Space P → Type 0
  Leads n table virt below s =
      let entry = s.tables table (number_at (suc n) virt % 512) in
      (is_present entry ≡ true) × (table_of P entry ≡ below)

  pub entry_from-Leads :
      (n table virt below : ℕ) (s : Space P)
      → Leads n table virt below s
      → entry_from P (suc n) table virt s ≡ entry_from P n below virt s
  entry_from-Leads n table virt below s (on, to) = rw (on, to) refl

  module _ (sound : IsSound P) (pgd : ℕ) (h : Shape) (s : Space P) (tree : IsTree P sound pgd h s)
      (pte w entry : ℕ) (last : h.level pte ≡ 1) (here : h.place pte ≡ number_at 1 w) where
    abbrev i : ℕ
    i = number_at 0 w % 512

    abbrev pub written : Space P
    written = put_entry P pte i entry w s

    above_kept : (t j : ℕ) → 1 < h.level t → written.tables t j ≡ s.tables t j
    above_kept t j high =
        unchanged (t == pte) (j == i) entry (s.tables t j)
          (inl (ne→== t pte (λ e. omega (arith, high, last, ap h.level e))))

    pub written-IsTree : IsTree P sound pgd h written
    written-IsTree = record {
      root = tree.root;
      root_place = tree.root_place;
      null = tree.null;
      steady = tree.steady;
      owned = tree.owned;
      child_level = λ t j high small on.
          let kept = above_kept t j high in
          rw kept (tree.child_level t j high small (ap is_present (sym kept) ∙ on));
      child_place = λ t j high small on.
          let kept = above_kept t j high in
          rw kept (tree.child_place t j high small (ap is_present (sym kept) ∙ on));
    }

    pub Leads-written :
        (n table virt below : ℕ)
        → 1 < h.level table
        → Leads n table virt below s
        → Leads n table virt below written
    Leads-written n table virt below high (on, to) =
        let kept = above_kept table (number_at (suc n) virt % 512) high in
        (ap is_present kept ∙ on, ap (table_of P) kept ∙ to)

    pub at_written : entry_from P 0 pte w written ≡ entry
    at_written = rw (eq→== pte pte refl, eq→== i i refl) refl

    -- Other pages are translated as before.
    pub entry_from-written :
        (n u v : ℕ)
        → h.level u ≡ suc n
        → h.place u ≡ number_at (suc n) v
        → page_number v ≢ page_number w
        → entry_from P n u v written ≡ entry_from P n u v s
    entry_from-written zero u v lev place other =
        unchanged (u == pte) (number_at 0 v % 512 == i) entry (s.tables u (number_at 0 v % 512))
          (elim (Bool-cases (u == pte)) [
            | inl e ↦
                inr (
                  ne→== _ _
                    (λ k. other (omega (arith, k, place, here, ap h.place (==→eq u pte e)))))
            | inr e ↦ inl e
          ])
    entry_from-written (suc n) u v lev place other =
        let j = number_at (suc n) v % 512 in
        rw (above_kept u j (omega (arith, lev))) (elim (Bool-cases (is_present (s.tables u j))) [
          | inl on ↦
              let level_below = tree.child_level u j (omega (arith, lev)) (omega arith) on in
              let place_below = tree.child_place u j (omega (arith, lev)) (omega arith) on in
              rw on (
                entry_from-written n (table_of P (s.tables u j)) v (omega (arith, lev, level_below))
                  (omega (arith, place, place_below)) other)
          | inr off ↦ rw off refl
        ])
