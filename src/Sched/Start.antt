-- ===== src/Sched/Start.antt =====
-- `init_runqueue` of kernel/core/scheduling.c.
use cellkernelqwen.Prelude.{
  ℕ, zero, suc, ◌<◌, ◌≡◌, ◌≢◌, sym, ap, ◌∙◌, inl, inr, arith, [], Bool-cases, ◌==◌, ==→eq, ==→ne,
}
use mathlib.Core.Path.{subst}
use cellkernelqwen.Sched.Links.{Links}
use cellkernelqwen.Sched.Queue.{Sched, init_queues, init_runqueue}
use cellkernelqwen.Sched.Bitmap.{bit}
use cellkernelqwen.Sched.Pick.{filled, IsIndexed}

below_suc : (p n : ℕ) → p < suc n → p ≢ n → p < n
below_suc p n h k = grind arith

bits_of_zero : (p : ℕ) → 0 ≡ bit p 0
bits_of_zero p = omega arith

module _ (L : Links) where
  init_queues-empty : (n p : ℕ) (links : L.Store) → p < n → L.members p (init_queues L n links) ≡ []
  unfolding init_queues
  init_queues-empty zero p links h = absurd (omega arith)
  init_queues-empty (suc n) p links h = elim (Bool-cases (p == n)) [
    | inl e ↦
        subst (λ (q : ℕ). L.members q (L.list_init n (init_queues L n links)) ≡ [])
          (sym (==→eq p n e)) (L.init_members n (init_queues L n links))
    | inr e ↦
        L.init_other n p (init_queues L n links) (==→ne p n e)
        ∙ init_queues-empty n p links (below_suc p n h (==→ne p n e))
  ]

  -- Whatever the state before, after init_runqueue the five queues are empty and the bitmap is
  -- exact.
  pub init_runqueue-IsIndexed :
      (s : Sched L)
      → IsIndexed L (init_runqueue L s)
        × ((p : ℕ) → p < 5 → L.members p (init_runqueue L s).links ≡ [])
  unfolding init_runqueue filled
  init_runqueue-IsIndexed s = (
    (omega arith, λ p h. sym (bits_of_zero p) ∙ sym (ap filled (init_queues-empty 5 p s.links h))),
    λ p h. init_queues-empty 5 p s.links h,
  )
