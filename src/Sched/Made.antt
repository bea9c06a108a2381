-- ===== src/Sched/Made.antt =====
-- New threads and the start of kernel/core/scheduling.c.
use mathlib.Core.Path.{subst}
use cellkernelqwen.Prelude.{
  ℕ, zero, suc, ◌+◌, ◌<◌, ◌≡◌, ◌≢◌, refl, sym, ap, ◌∙◌, inl, inr, arith, Bool-cases, Option, none,
  some, [], ◌∷◌, ◌++◌, ◌==◌, eq→==, ne→==, ltb, if◌then◌else◌,
}
use cellkernelqwen.Allocator.{Allocator}
use cellkernelqwen.Sched.Links.{Links}
use cellkernelqwen.Sched.Queue.{
  Sched, State, get_next_thread, schedule, sched_enqueue, init_runqueue,
}
use cellkernelqwen.Sched.Pick.{IsIndexed, highest_first, first_or, get_next_thread_lem}
use cellkernelqwen.Sched.Moves.{IsLoose, sched_enqueue_lem}
use cellkernelqwen.Sched.Start.{init_runqueue-IsIndexed}
use cellkernelqwen.Sched.Create.{
  Threads, thread_size, max_cpus, fill_thread, sched_create_thread, init_cpus, set_idle, start_idle,
  scheduler_init,
}
use cellkernelqwen.Sched.Idle.{
  idle_address, IsRunning, start_idle-first, init_cpus-IsBlank, init_cpus-heap,
}

module _ (L : Links) (A : Allocator) where
  -- A thread for which kmalloc gave memory at an address that hangs in no queue, with a priority below
  -- 5: sched_create_thread returns that address, and sched_enqueue puts the thread at the end of the
  -- queue of its priority, leaves the other queues and keeps the bitmap exact.
  pub sched_enqueue-sched_create_thread :
      (cell entry stack_base stack_size priority p : ℕ) (heap : A.Heap) (t : Threads L A)
      → A.kmalloc t.heap thread_size ≡ (some p, heap)
      → p ≢ 0
      → priority < 5
      → IsIndexed L t.queue
      → IsLoose L p t.queue
      → let r = sched_create_thread L A cell entry stack_base stack_size priority t in
        let after = sched_enqueue L r.0 r.1.queue in
        (r.0 ≡ p)
        × IsIndexed L after
        × (L.members priority after.links ≡ L.members priority t.queue.links ++ (p ∷ []))
        × ((q : ℕ) → q ≢ priority → L.members q after.links ≡ L.members q t.queue.links)
  unfolding sched_create_thread fill_thread
  sched_enqueue-sched_create_thread cell entry stack_base stack_size priority p heap t got real low
        indexed loose =
      let made = fill_thread L A cell entry stack_base stack_size priority (some p, heap) t in
      let here : (made.1.queue.threads p).priority ≡ priority = rw (eq→== p p refl) refl in
      let on : (made.1.queue.threads p).state ≡ State.ready = rw (eq→== p p refl) refl in
      let (exact, own, others, count) =
        sched_enqueue_lem L p made.1.queue indexed real on (omega (arith, here, low)) loose in
      rw got (
        refl,
        exact,
        ap (λ (q : ℕ). L.members q (sched_enqueue L p made.1.queue).links) (sym here)
            ∙ own
            ∙ ap (λ (q : ℕ). L.members q t.queue.links ++ (p ∷ [])) here,
        λ q ne. others q (λ e. ne (e ∙ here)),
      )

  -- Nothing waits, and the idle thread runs.
  pub record IsIdle (s : Sched L) : Type 0 where
    pub exact : IsIndexed L s
    pub empty : (p : ℕ) → p < 5 → L.members p s.links ≡ []
    pub runs_idle : s.current ≡ s.idle_thread

  fill_thread-IsIdle :
      (cell entry stack size priority : ℕ) (q : Option ℕ × A.Heap) (t : Threads L A)
      → IsIdle t.queue
      → IsIdle (fill_thread L A cell entry stack size priority q t).1.queue
  unfolding fill_thread
  fill_thread-IsIdle cell entry stack size priority (none, heap) t idle = idle
  fill_thread-IsIdle cell entry stack size priority (some p, heap) t idle = record {
    exact = idle.exact;
    empty = idle.empty;
    runs_idle = idle.runs_idle;
  }

  set_idle-IsIdle :
      (i : ℕ) (q : ℕ × Threads L A) → IsIdle q.1.queue → IsIdle (set_idle L A i q).queue
  unfolding set_idle
  set_idle-IsIdle i (p, t) idle = elim (Bool-cases (p == 0)) [
    | inl e ↦ rw e idle
    | inr e ↦ elim (Bool-cases (i == 0)) [
      | inl first ↦
          rw (e, first) (record { exact = idle.exact; empty = idle.empty; runs_idle = refl })
      | inr other ↦ rw (e, other) idle
    ]
  ]

  start_idle-IsIdle :
      (alloc_page : A.Heap → ℕ × A.Heap) (idle_loop rounds i : ℕ) (t : Threads L A)
      → IsIdle t.queue
      → IsIdle (start_idle L A alloc_page idle_loop rounds i t).queue
  unfolding start_idle sched_create_thread
  start_idle-IsIdle alloc_page idle_loop zero i t idle = idle
  start_idle-IsIdle alloc_page idle_loop (suc rounds) i t idle =
      start_idle-IsIdle alloc_page idle_loop rounds (i + 1) _
        (set_idle-IsIdle i _ (fill_thread-IsIdle _ _ _ _ _ _ _ idle))

  IsIdle-schedule : (s : Sched L) → IsIdle s → schedule L s ≡ s
  unfolding schedule highest_first first_or
  IsIdle-schedule s idle =
      let next : get_next_thread L s ≡ s.idle_thread =
        get_next_thread_lem L s idle.exact
        ∙ rw
            (
              idle.empty 4 (omega arith),
              idle.empty 3 (omega arith),
              idle.empty 2 (omega arith),
              idle.empty 1 (omega arith),
              idle.empty 0 (omega arith),
            )
            refl in
      rw (next, eq→== s.current s.idle_thread idle.runs_idle) refl

  init_current : (s : Sched L) → (init_runqueue L s).current ≡ (init_runqueue L s).idle_thread
  unfolding init_runqueue
  init_current s = refl

  init_cpus-IsIdle : (n : ℕ) (t : Threads L A) → 0 < n → IsIdle (init_cpus L A n t).queue
  unfolding init_cpus
  init_cpus-IsIdle n t h =
      let (exact, empty) = init_runqueue-IsIndexed L t.queue in
      rw (ne→== n 0 (λ e. omega (arith, h, e)))
        (record { exact = exact; empty = empty; runs_idle = init_current t.queue })

  -- Whatever the state before, with at least one CPU and any allocator and source of stacks: after
  -- scheduler_init the five queues of the first CPU are empty, the bitmap is exact and schedule changes
  -- nothing. The thread that runs, which is the idle thread of the first CPU, lies where kmalloc put the
  -- first one after the first stack: it is ready at the idle priority with a full slice, belongs to the
  -- kernel's cell and starts at idle_loop. Without memory it is NULL.
  pub scheduler_init-IsIdle :
      (alloc_page : A.Heap → ℕ × A.Heap) (idle_loop detected : ℕ) (t : Threads L A)
      → 0 < detected
      → let after = scheduler_init L A alloc_page idle_loop detected t in
        IsIdle after.queue
        × (schedule L after.queue ≡ after.queue)
        × IsRunning L A idle_loop (idle_address L A alloc_page t.heap) after
  unfolding scheduler_init
  scheduler_init-IsIdle alloc_page idle_loop detected t h =
      let count = if ltb max_cpus detected then max_cpus else detected in
      let some_cpu : 0 < count = ground (arith, h) in
      let idle =
        start_idle-IsIdle alloc_page idle_loop count 0 (init_cpus L A count t)
          (init_cpus-IsIdle count t some_cpu) in
      let running =
        start_idle-first L A alloc_page idle_loop count (init_cpus L A count t) some_cpu
          (init_cpus-IsBlank L A count t some_cpu) in
      (
        idle,
        IsIdle-schedule _ idle,
        subst
            (λ (heap : A.Heap).
              IsRunning L A idle_loop (idle_address L A alloc_page heap)
                (start_idle L A alloc_page idle_loop count 0 (init_cpus L A count t)))
            (init_cpus-heap L A count t) running,
      )
