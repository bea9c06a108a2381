-- ===== src/Paging/Given.antt =====
-- The promise of the pages that kernel/memory/paging.c takes, kept by alloc_page of
-- kernel/memory/frame_alloc.c.
use mathlib.Core.Path.{subst}
use mathlib.Core.Bool.{true≢false}
use cellkernelqwen.Prelude.{
  ℕ, ◌/◌, ◌≡◌, ◌≢◌, refl, sym, ap, ◌∙◌, inl, inr, Bool, true, false, not, Bool-cases, arith, List,
  ◌∷◌, ◌==◌, eq→==,
}
use cellkernelqwen.Prelude.Status.{pos}
use cellkernelqwen.Frames.Zone.{Frames}
use cellkernelqwen.Frames.Alloc.{alloc_page}
use cellkernelqwen.Paging.Lookup.{IsSound}
use cellkernelqwen.Paging.NoFrames.{frame_platform}
use cellkernelqwen.Paging.Pool.{pool, among, IsPage, ArePages, IsStocked, alloc_page-Leaves}

module _ (phys_to_virt virt_to_phys : ℕ → ℕ) where
  -- The pages still listed are not taken.
  abbrev pub outside : Frames → ℕ → Bool
  outside f p = not (among p (pool f))

  -- The page that was given: the first of those listed, none of which it is afterwards.
  pub given :
      (f : Frames)
      → IsStocked phys_to_virt virt_to_phys f
      → let r = alloc_page (pos 0) f in
        r.0 ≢ 0
        → (pool f ≡ r.0 ∷ pool r.1)
          × IsPage phys_to_virt virt_to_phys r.0
          × (among r.0 (pool r.1) ≡ false)
  given f h real = elim (alloc_page-Leaves phys_to_virt virt_to_phys f h).1 [
    | inl (null, same) ↦ absurd (real null)
    | inr e ↦
        let (page, other, rest) = subst (ArePages phys_to_virt virt_to_phys) e h.pages in
        (e, page, other)
  ]

  pub outside_self : (p : ℕ) (xs : List ℕ) → not (among p (p ∷ xs)) ≡ false
  outside_self p xs = rw (eq→== p p refl) refl

  outside_tail : (p x : ℕ) (xs : List ℕ) → not (among p (x ∷ xs)) ≡ true → not (among p xs) ≡ true
  outside_tail p x xs h = elim (Bool-cases (p == x)) [
    | inl e ↦ absurd (true≢false (sym h ∙ rw e refl))
    | inr e ↦ sym (rw e refl) ∙ h
  ]

  pub outside-alloc_page :
      (f : Frames) (p : ℕ)
      → IsStocked phys_to_virt virt_to_phys f
      → outside f p ≡ true
      → outside (alloc_page (pos 0) f).1 p ≡ true
  outside-alloc_page f p h out = elim (alloc_page-Leaves phys_to_virt virt_to_phys f h).1 [
    | inl (null, same) ↦ ap (λ (t : List ℕ). not (among p t)) same ∙ out
    | inr e ↦ outside_tail p _ _ (sym (ap (λ (t : List ℕ). not (among p t)) e) ∙ out)
  ]

  -- The program's own alloc_page, in a stocked zone.
  abbrev pub pool-IsSound : IsSound (frame_platform phys_to_virt virt_to_phys)
  pool-IsSound = record {
    good = IsStocked phys_to_virt virt_to_phys;
    keeps = λ f h. (alloc_page-Leaves phys_to_virt virt_to_phys f h).0;
    taken = outside;
    is_new = λ f h real.
        ap (λ (t : List ℕ). not (among (alloc_page (pos 0) f).0 t)) (given f h real).0
        ∙ outside_self (alloc_page (pos 0) f).0 (pool (alloc_page (pos 0) f).1);
    is_taken = λ f h real. ap not (given f h real).2;
    stays = outside-alloc_page;
    frame_number = λ f. virt_to_phys (alloc_page (pos 0) f).0 / 4096;
    in_range = λ f h real. let page = (given f h real).1 in omega (arith, page.low);
    is_page = λ f h real. (given f h real).1.aligned;
    comes_back = λ f h real.
        let page = (given f h real).1 in ap phys_to_virt (sym page.aligned) ∙ page.converts;
  }
