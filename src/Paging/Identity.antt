-- ===== src/Paging/Identity.antt =====
-- `create_identity_map` of kernel/memory/paging.c.
use mathlib.Core.Path.{subst}
use cellkernelqwen.Prelude.{
  ℕ, zero, suc, ◌+◌, ◌-◌, ◌*◌, ◌/◌, ◌^◌, ◌<◌, ◌≤◌, ◌≡◌, ◌⊎◌, refl, ap, ◌∙◌, inl, inr, Bool, false,
  arith, Bool-cases, ◌==◌, ==→eq, ◌&&◌, leb, ltb, if◌then◌else◌, bit_or,
}
use cellkernelqwen.Prelude.Status.{ℤ, success, is_success, error_no_memory}
use cellkernelqwen.Paging.Tables.{
  Platform, Space, create_pte, pte_present, map_page, identity_from, create_identity_map,
}
use cellkernelqwen.Paging.Lookup.{page_number, entry_for, IsSound, Shape, IsTree}
use cellkernelqwen.Paging.Map.{map_page-Mapped}

-- The entry of an identity mapping for the page of an address.
abbrev pub identity_entry : ℕ → ℕ → ℕ
identity_entry flags v = create_pte (v / 4096 * 4096) (bit_or flags pte_present)

-- The address lies in `rounds` pages from page number `first` on.
abbrev pub in_pages : ℕ → ℕ → ℕ → Bool
in_pages first rounds v = leb first (v / 4096) && ltb (v / 4096) (first + rounds)

no_pages : (first p x y : ℕ) → y ≡ (if leb first p && ltb p (first + 0) then x else y)
no_pages first p x y = ground arith

-- One page more in front.
one_more :
    (first rounds p x y : ℕ)
    → (if leb (suc first) p && ltb p (suc first + rounds) then x else if p == first then x else y)
      ≡ (if leb first p && ltb p (first + suc rounds) then x else y)
one_more first rounds p x y = ground arith

not_later :
    (first rounds p : ℕ)
    → (leb first p && ltb p (first + suc rounds)) ≡ false
    → (leb (suc first) p && ltb p (suc first + rounds)) ≡ false
not_later first rounds p h = ground arith

not_first :
    (first rounds p x y : ℕ)
    → (leb first p && ltb p (first + suc rounds)) ≡ false
    → (if p == first then x else y) ≡ y
not_first first rounds p x y h = ground arith

-- The page that one round maps.
at_page :
    (flags first addr v y : ℕ)
    → addr ≡ first * 4096
    → v < 2 ^ 48
    → first < 2 ^ 36
    → (if page_number v == page_number addr then create_pte addr (bit_or flags pte_present) else y)
      ≡ (if v / 4096 == first then identity_entry flags v else y)
at_page flags first addr v y at small fits =
    let p : page_number v ≡ v / 4096 = omega arith in
    let q : page_number addr ≡ first = omega arith in
    rw (p, q)
      (elim (Bool-cases (v / 4096 == first)) [
        | inl e ↦ rw e (
            ap (λ (t : ℕ). create_pte t (bit_or flags pte_present)) {x = addr} {y = v / 4096 * 4096}
              (omega (arith, ==→eq _ _ e)))
        | inr e ↦ rw e refl
      ])

module _ (P : Platform) (sound : IsSound P) (pgd : ℕ) where
  -- All of the pages are mapped to themselves and the rest of memory is as before, or there was no
  -- memory and the rest is as before.
  abbrev pub Identity : Space P → ℕ → ℕ → ℕ → ℤ × Space P → Type 0
  Identity s first rounds flags r =
      (h : Shape) × IsTree P sound pgd h r.1
      × (((r.0 ≡ success)
            × ((v : ℕ)
                → v < 2 ^ 48
                → entry_for P pgd v r.1 ≡ (
                    if in_pages first rounds v
                    then identity_entry flags v
                    else entry_for P pgd v s)))
          ⊎ ((r.0 ≡ error_no_memory)
              × ((v : ℕ)
                  → v < 2 ^ 48
                  → in_pages first rounds v ≡ false
                  → entry_for P pgd v r.1 ≡ entry_for P pgd v s)))

  identity_from-Identity :
      (rounds first addr flags : ℕ) (h : Shape) (s : Space P)
      → addr ≡ first * 4096
      → first + rounds ≤ 2 ^ 36
      → IsTree P sound pgd h s
      → Identity s first rounds flags (identity_from P rounds pgd addr flags s)
  unfolding identity_from
  identity_from-Identity zero first addr flags h s at fits tree =
      (h, tree, inl (refl, λ v small. no_pages first (v / 4096) _ _))
  identity_from-Identity (suc rounds) first addr flags h s at fits tree =
      let m = map_page P pgd addr addr flags s in
      let (k, tree', o) = map_page-Mapped P sound pgd h s addr addr flags tree in
      let (k', tree'', o') =
        identity_from-Identity rounds (suc first) (addr + 4096) flags k m.1 (omega arith)
          (omega arith) tree' in
      elim o [
        | inl (ok, all) ↦ rw (ap is_success ok) (elim o' [
          | inl (ok', all') ↦ (
            k',
            tree'',
            inl (
              ok',
              λ v small.
                  all' v small
                  ∙ ap
                      (λ (t : ℕ).
                        if in_pages (suc first) rounds v then identity_entry flags v else t)
                      (all v ∙ at_page flags first addr v _ at small (omega arith))
                  ∙ one_more first rounds (v / 4096) _ _,
            ),
          )
          | inr (failed, all') ↦ (
            k',
            tree'',
            inr (
              failed,
              λ v small out.
                  all' v small (not_later first rounds (v / 4096) out)
                  ∙ all v
                  ∙ at_page flags first addr v _ at small (omega arith)
                  ∙ not_first first rounds (v / 4096) _ _ out,
            ),
          )
        ])
        | inr (failed, all) ↦
            rw (ap is_success failed) (k, tree', inr (failed, λ v small out. all v))
      ]

  -- For an aligned range below 2^48, over a tree of tables: create_identity_map leaves a tree. Either
  -- it returns CK_SUCCESS, every address of the range is translated to itself with the flags and the
  -- present bit and every other address below 2^48 as before, or it returns CK_ERROR_NO_MEMORY and
  -- every address outside of the range is translated as before.
  pub create_identity_map-Identity :
      (first last flags : ℕ) (h : Shape) (s : Space P)
      → first ≤ last
      → last ≤ 2 ^ 36
      → IsTree P sound pgd h s
      → Identity s first
          (last - first)
          flags
          (create_identity_map P pgd (first * 4096) (last * 4096) flags s)
  unfolding create_identity_map
  create_identity_map-Identity first last flags h s ordered fits tree =
      subst
        (λ (n : ℕ).
          Identity s first (last - first) flags (identity_from P n pgd (first * 4096) flags s))
        {x = last - first} {y = (last * 4096 + 4095 - first * 4096) / 4096} (omega arith)
        (identity_from-Identity (last - first) first (first * 4096) flags h s refl (omega arith)
          tree)
