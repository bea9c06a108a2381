-- ===== src/Sched/Switch.antt =====
-- `schedule`, `sched_block` and `sched_wakeup` of kernel/core/scheduling.c.
use cellkernelqwen.Prelude.{
  ℕ, ◌<◌, ◌≡◌, ◌≢◌, ◌⊎◌, refl, sym, ap, ◌∙◌, inl, inr, arith, true, List, [], ◌∷◌, ◌++◌, Bool-cases,
  ◌==◌, eq→==, ne→==, ==→eq, if◌then◌else◌, add64,
}
use mathlib.Core.Path.{subst}
use cellkernelqwen.Sched.Links.{Links, elem}
use cellkernelqwen.Sched.Queue
use cellkernelqwen.Sched.Queue.{
  Sched, State, schedule, switch_current, sched_block, sched_wakeup, sched_dequeue, sched_enqueue,
  set_state, is_blocked, get_next_thread,
}
use cellkernelqwen.Sched.Pick.{first_or, IsIndexed, highest_first, get_next_thread_lem}
use cellkernelqwen.Sched.Moves.{IsQueued, IsLoose, sched_dequeue_lem, sched_enqueue_lem}

-- Either the thread heads the queue or the queue is empty and another is meant.
first_or_cases :
    (xs : List ℕ) (other : ℕ)
    → (elem (first_or xs other) xs ≡ true) ⊎ ((xs ≡ []) × (first_or xs other ≡ other))
unfolding first_or elem
first_or_cases [] other = inr (refl, refl)
first_or_cases (x ∷ xs) other = inl (rw (eq→== x x refl) refl)

module _ (L : Links) where
  -- schedule runs the first thread of the highest priority that has one, or the idle thread, and
  -- takes no thread out of its queue; nr_switches grows by one exactly when another thread was
  -- running.
  pub schedule_lem :
      (s : Sched L)
      → IsIndexed L s
      → let after = schedule L s in
        (after.current ≡ highest_first L s)
        × (after.links ≡ s.links)
        × (after.bitmap ≡ s.bitmap)
        × (after.nr_switches
            ≡ (if s.current == highest_first L s then s.nr_switches else add64 s.nr_switches 1))
  unfolding schedule switch_current
  schedule_lem s indexed =
      let next = get_next_thread_lem L s indexed in
      elim (Bool-cases (s.current == get_next_thread L s)) [
        | inl e ↦ rw (e, sym next, e) (==→eq _ _ e, refl, refl, refl)
        | inr e ↦ rw (e, sym next, e) (refl, refl, refl, refl)
      ]

  schedule-IsIndexed : (s : Sched L) → IsIndexed L s → IsIndexed L (schedule L s)
  unfolding schedule switch_current
  schedule-IsIndexed s indexed = elim (Bool-cases (s.current == get_next_thread L s)) [
    | inl e ↦ rw e indexed
    | inr e ↦ rw e indexed
  ]

  schedule-IsLoose : (t : ℕ) (s : Sched L) → IsLoose L t s → IsLoose L t (schedule L s)
  unfolding schedule switch_current
  schedule-IsLoose t s loose = elim (Bool-cases (s.current == get_next_thread L s)) [
    | inl e ↦ rw e loose
    | inr e ↦ rw e loose
  ]

  highest_first-schedule : (s : Sched L) → highest_first L (schedule L s) ≡ highest_first L s
  unfolding schedule switch_current highest_first
  highest_first-schedule s = elim (Bool-cases (s.current == get_next_thread L s)) [
    | inl e ↦ rw e refl
    | inr e ↦ rw e refl
  ]

  threads-schedule : (t : ℕ) (s : Sched L) → (schedule L s).threads t ≡ s.threads t
  unfolding schedule switch_current
  threads-schedule t s = elim (Bool-cases (s.current == get_next_thread L s)) [
    | inl e ↦ rw e refl
    | inr e ↦ rw e refl
  ]

  threads-sched_dequeue : (t u : ℕ) (s : Sched L) → (sched_dequeue L t s).threads u ≡ s.threads u
  unfolding sched_dequeue Queue.take_from_queue
  threads-sched_dequeue t u s = elim (Bool-cases (t == 0)) [ inl e ↦ rw e refl | inr e ↦ rw e refl ]

  priority-set_state :
      (t : ℕ) (to : State) (s : Sched L)
      → ((set_state L t to s).threads t).priority ≡ (s.threads t).priority
  unfolding set_state
  priority-set_state t to s = rw (eq→== t t refl) refl

  state-set_state : (t : ℕ) (to : State) (s : Sched L) → ((set_state L t to s).threads t).state ≡ to
  unfolding set_state
  state-set_state t to s = rw (eq→== t t refl) refl

  links-set_state : (t : ℕ) (to : State) (s : Sched L) → (set_state L t to s).links ≡ s.links
  unfolding set_state
  links-set_state t to s = refl

  set_state-IsIndexed :
      (t : ℕ) (to : State) (s : Sched L) → IsIndexed L s → IsIndexed L (set_state L t to s)
  unfolding set_state
  set_state-IsIndexed t to s indexed = indexed

  set_state-IsQueued :
      (t : ℕ) (to : State) (s : Sched L) → IsQueued L t s → IsQueued L t (set_state L t to s)
  set_state-IsQueued t to s (here, elsewhere) =
      rw (priority-set_state t to s, links-set_state t to s) (here, elsewhere)

  -- Blocking a thread that hangs in the queue of its priority alone, with a priority below 5,
  -- takes it out of every queue, marks it blocked, runs the first thread of the highest priority
  -- that is left, and keeps the bitmap exact.
  pub sched_block_lem :
      (t : ℕ) (s : Sched L)
      → IsIndexed L s
      → t ≢ 0
      → (s.threads t).priority < 5
      → IsQueued L t s
      → let after = sched_block L t s in
        IsIndexed L after
        × IsLoose L t after
        × ((after.threads t).state ≡ State.blocked)
        × (after.current ≡ highest_first L after)
  unfolding sched_block
  sched_block_lem t s indexed real h queued =
      let marked = set_state L t State.blocked s in
      let left = sched_dequeue L t marked in
      let (indexed', loose, _, _) =
        sched_dequeue_lem L t marked (set_state-IsIndexed t State.blocked s indexed) real
          (omega (arith, priority-set_state t State.blocked s))
          (set_state-IsQueued t State.blocked s queued) in
      rw (ne→== t 0 real) (
        schedule-IsIndexed left indexed',
        schedule-IsLoose t left loose,
        ap (λ (u : Queue.Thread). u.state)
              (threads-schedule t left ∙ threads-sched_dequeue t t marked)
            ∙ state-set_state t State.blocked s,
        (schedule_lem left indexed').0 ∙ sym (highest_first-schedule left),
      )

  -- Waking a blocked thread that hangs in no queue, with a priority below 5, puts it at the end
  -- of the queue of its priority, leaves the other queues and the running thread, and keeps the
  -- bitmap exact.
  pub sched_wakeup_lem :
      (t : ℕ) (s : Sched L)
      → IsIndexed L s
      → t ≢ 0
      → (s.threads t).state ≡ State.blocked
      → (s.threads t).priority < 5
      → IsLoose L t s
      → let after = sched_wakeup L t s in
        IsIndexed L after
        × (L.members (s.threads t).priority after.links
            ≡ L.members (s.threads t).priority s.links ++ (t ∷ []))
        × ((q : ℕ) → q ≢ (s.threads t).priority → L.members q after.links ≡ L.members q s.links)
  unfolding sched_wakeup is_blocked
  sched_wakeup_lem t s indexed real blocked h loose =
      let marked = set_state L t State.ready s in
      let (indexed', here, elsewhere, _) =
        sched_enqueue_lem L t marked (set_state-IsIndexed t State.ready s indexed) real
          (state-set_state t State.ready s) (omega (arith, priority-set_state t State.ready s))
          (λ q.
            ap (λ (l : L.Store). elem t (L.members q l)) (links-set_state t State.ready s)
            ∙ loose q) in
      rw (ne→== t 0 real, blocked)
        (
          indexed',
          subst
              (λ (p : ℕ).
                L.members p (sched_enqueue L t marked).links ≡ L.members p s.links ++ (t ∷ []))
              (priority-set_state t State.ready s)
              (here
                ∙ ap (λ (l : L.Store). L.members (marked.threads t).priority l ++ (t ∷ []))
                    (links-set_state t State.ready s)),
          λ q ne.
              elsewhere q (λ e. ne (e ∙ priority-set_state t State.ready s))
              ∙ ap (L.members q) (links-set_state t State.ready s),
        )
