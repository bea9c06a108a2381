-- ===== src/Sched/Pick.antt =====
-- The thread that `get_next_thread` of kernel/core/scheduling.c chooses.
use cellkernelqwen.Prelude.{
  ℕ, ◌<◌, ◌≡◌, refl, sym, ap, ◌∙◌, inl, inr, arith, List, [], ◌∷◌, Bool-cases, ◌==◌, ==→eq, ==→ne,
  if◌then◌else◌,
}
use cellkernelqwen.Sched.Links.{Links}
use cellkernelqwen.Sched.Queue.{Sched, get_next_thread}
use cellkernelqwen.Sched.Bitmap.{bit, chosen, clz-chosen}

-- 1 for a queue that holds a thread.
unfoldable pub filled : List ℕ → ℕ
filled [] = 0
filled (x ∷ xs) = 1

-- The first of a queue, or another thread when it is empty.
unfoldable pub first_or : List ℕ → ℕ → ℕ
first_or [] other = other
first_or (x ∷ xs) other = x

chosen_zero : (b : ℕ) (f : ℕ → ℕ) (other : ℕ) → b ≡ 0 → other ≡ chosen b f other
chosen_zero b f other e = ap (λ (t : ℕ). chosen t f other) {x = 0} {y = b} (sym e)

module _ (L : Links) where
  -- The bitmap has exactly the bits of the queues that are not empty.
  abbrev pub IsIndexed : Sched L → Type 0
  IsIndexed s = (s.bitmap < 32) × ((p : ℕ) → p < 5 → bit p s.bitmap ≡ filled (L.members p s.links))

  -- The first thread of the highest priority that has one, and the idle thread when none has.
  unfoldable pub highest_first : Sched L → ℕ
  highest_first s = first_or (L.members 4 s.links) (
      first_or (L.members 3 s.links) (
        first_or (L.members 2 s.links)
          (first_or (L.members 1 s.links) (first_or (L.members 0 s.links) s.idle_thread))))

  pick_from :
      (s : Sched L) (p other : ℕ) (xs : List ℕ)
      → L.members p s.links ≡ xs
      → bit p s.bitmap ≡ filled xs
      → (if bit p s.bitmap == 1 then L.list_first_entry p s.links else other) ≡ first_or xs other
  unfolding filled first_or
  pick_from s p other [] e h = rw h refl
  pick_from s p other (x ∷ xs) e h = rw h (L.first_members p x xs s.links e)

  pick_step :
      (s : Sched L) (p other rest : ℕ)
      → bit p s.bitmap ≡ filled (L.members p s.links)
      → other ≡ rest
      → (if bit p s.bitmap == 1 then L.list_first_entry p s.links else other)
        ≡ first_or (L.members p s.links) rest
  pick_step s p other rest h e =
      pick_from s p other (L.members p s.links) refl h ∙ ap (first_or (L.members p s.links)) e

  chosen-highest_first :
      (s : Sched L)
      → IsIndexed s
      → chosen s.bitmap (λ p. L.list_first_entry p s.links) s.idle_thread ≡ highest_first s
  unfolding highest_first
  chosen-highest_first s (low, bits) = pick_step s 4 _ _ (bits 4 (omega arith)) (
      pick_step s 3 _ _ (bits 3 (omega arith)) (
        pick_step s 2 _ _ (bits 2 (omega arith)) (
          pick_step s 1 _ _ (bits 1 (omega arith))
            (pick_step s 0 _ _ (bits 0 (omega arith)) refl))))

  -- When the bitmap has the bits of the queues that are not empty, get_next_thread is the first
  -- thread of the highest priority that has one, and the idle thread when none has.
  pub get_next_thread_lem : (s : Sched L) → IsIndexed s → get_next_thread L s ≡ highest_first s
  unfolding get_next_thread
  get_next_thread_lem s (low, bits) = elim (Bool-cases (s.bitmap == 0)) [
    | inl e ↦ rw e (
        chosen_zero s.bitmap (λ p. L.list_first_entry p s.links) s.idle_thread (==→eq s.bitmap 0 e)
        ∙ chosen-highest_first s (low, bits))
    | inr e ↦ rw e (
        clz-chosen s.bitmap (λ p. L.list_first_entry p s.links) s.idle_thread low
          (==→ne s.bitmap 0 e)
        ∙ chosen-highest_first s (low, bits))
  ]
