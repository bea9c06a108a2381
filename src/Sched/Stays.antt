-- ===== src/Sched/Stays.antt =====
-- Where the thread that `schedule` of kernel/core/scheduling.c runs hangs.
use cellkernelqwen.Prelude.{
  ℕ, zero, suc, ◌<◌, ◌≡◌, ◌≢◌, ◌⊎◌, refl, inl, inr, arith, true, List, [], ◌∷◌, eq→==,
}
use cellkernelqwen.Sched.Links.{Links, elem}
use cellkernelqwen.Sched.Queue.{Sched, schedule}
use cellkernelqwen.Sched.Pick.{first_or, IsIndexed, highest_first}
use cellkernelqwen.Sched.Switch.{schedule_lem}

-- Either the thread is in the queue or the queue is empty and another is meant.
first_or_cases :
    (xs : List ℕ) (v other : ℕ)
    → v ≡ first_or xs other
    → (elem v xs ≡ true) ⊎ ((xs ≡ []) × (v ≡ other))
unfolding first_or elem
first_or_cases [] v other e = inr (refl, e)
first_or_cases (x ∷ xs) v other e = inl (rw (eq→== v x e) refl)

-- In some queue.
abbrev pub IsHeld : ℕ → (ℕ → List ℕ) → Type 0
IsHeld v queues = (q : ℕ) × (q < 5) × (elem v (queues q) ≡ true)

all_empty :
    (queues : ℕ → List ℕ)
    → queues 4 ≡ []
    → queues 3 ≡ []
    → queues 2 ≡ []
    → queues 1 ≡ []
    → queues 0 ≡ []
    → (p : ℕ) → p < 5
    → queues p ≡ []
all_empty queues e4 e3 e2 e1 e0 zero h = e0
all_empty queues e4 e3 e2 e1 e0 (suc zero) h = e1
all_empty queues e4 e3 e2 e1 e0 (suc (suc zero)) h = e2
all_empty queues e4 e3 e2 e1 e0 (suc (suc (suc zero))) h = e3
all_empty queues e4 e3 e2 e1 e0 (suc (suc (suc (suc zero)))) h = e4
all_empty queues e4 e3 e2 e1 e0 (suc (suc (suc (suc (suc p))))) h = absurd (omega arith)

IsHeld-first :
    (queues : ℕ → List ℕ) (v idle p : ℕ)
    → p < 5
    → queues p ≢ []
    → v
      ≡ first_or (queues 4) (
          first_or
            (queues 3)
            (first_or (queues 2) (first_or (queues 1) (first_or (queues 0) idle))))
    → IsHeld v queues
IsHeld-first queues v idle p h some e = elim (first_or_cases (queues 4) v _ e) [
  | inl found ↦ (4, omega arith, found)
  | inr (e4, r4) ↦ elim (first_or_cases (queues 3) v _ r4) [
    | inl found ↦ (3, omega arith, found)
    | inr (e3, r3) ↦ elim (first_or_cases (queues 2) v _ r3) [
      | inl found ↦ (2, omega arith, found)
      | inr (e2, r2) ↦ elim (first_or_cases (queues 1) v _ r2) [
        | inl found ↦ (1, omega arith, found)
        | inr (e1, r1) ↦ elim (first_or_cases (queues 0) v _ r1) [
          | inl found ↦ (0, omega arith, found)
          | inr (e0, r0) ↦ absurd (some (all_empty queues e4 e3 e2 e1 e0 p h))
        ]
      ]
    ]
  ]
]

module _ (L : Links) where
  -- When some queue holds a thread, the thread that schedule runs still hangs in a queue
  -- afterwards.
  pub schedule-IsHeld :
      (s : Sched L) (p : ℕ)
      → IsIndexed L s
      → p < 5
      → L.members p s.links ≢ []
      → IsHeld (schedule L s).current (λ q. L.members q (schedule L s).links)
  unfolding highest_first
  schedule-IsHeld s p indexed h some =
      let (current, links, _, _) = schedule_lem L s indexed in
      rw (current, links)
        (IsHeld-first (λ q. L.members q s.links) (highest_first L s) s.idle_thread p h some refl)
