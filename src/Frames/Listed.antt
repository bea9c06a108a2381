-- ===== src/Frames/Listed.antt =====
-- How many pages the free lists of a zone hold, for kernel/memory/frame_alloc.c.
use cellkernelqwen.Prelude.{
  ℕ, zero, suc, ◌+◌, ◌*◌, ◌^◌, ◌<◌, ◌≡◌, ap, List, [], ◌∷◌, arith, length, set,
}
use mathlib.Core.Path.{subst}
use cellkernelqwen.Frames.Zone.{Area, area_at}

-- Each area holds `nr_free` blocks, of `2 ^ order` pages for the first and twice xs many for each
-- later one.
unfoldable pub pages_from : ℕ → List Area → ℕ
pages_from order [] = 0
pages_from order (x ∷ xs) = x.nr_free * 2 ^ order + pages_from (suc order) xs

unfoldable pub listed_pages : List Area → ℕ
listed_pages areas = pages_from 0 areas

next_order : (n i order : ℕ) → n * 2 ^ (suc i + order) ≡ n * 2 ^ (i + suc order)
next_order n i order = ap (λ (t : ℕ). n * 2 ^ t) (omega arith)

pages_from-set :
    (order : ℕ) (xs : List Area) (i : ℕ) (a : Area)
    → i < length xs
    → pages_from order (set xs i a) + (area_at xs i).nr_free * 2 ^ (i + order)
      ≡ pages_from order xs + a.nr_free * 2 ^ (i + order)
unfolding pages_from
pages_from-set order [] i a h = absurd (omega arith)
pages_from-set order (x ∷ xs) zero a h =
    rw (ap (λ (t : ℕ). 2 ^ t) {x = 0 + order} {y = order} (omega arith)) (omega arith)
pages_from-set order (x ∷ xs) (suc i) a h = omega (
  arith,
  next_order (area_at xs i).nr_free i order,
  next_order a.nr_free i order,
  pages_from-set (suc order) xs i a (omega arith),
)

pub listed_pages-set :
    (xs : List Area) (i : ℕ) (a : Area)
    → i < length xs
    → listed_pages (set xs i a) + (area_at xs i).nr_free * 2 ^ i
      ≡ listed_pages xs + a.nr_free * 2 ^ i
unfolding listed_pages
listed_pages-set xs i a h =
    subst
      (λ (t : ℕ).
        pages_from 0 (set xs i a) + (area_at xs i).nr_free * 2 ^ t
        ≡ pages_from 0 xs + a.nr_free * 2 ^ t)
      {x = i + 0} {y = i} (omega arith) (pages_from-set 0 xs i a h)
