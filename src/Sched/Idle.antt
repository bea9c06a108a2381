-- ===== src/Sched/Idle.antt =====
-- The idle thread that `scheduler_init` of kernel/core/scheduling.c makes for the first CPU.
use cellkernelqwen.Prelude.{
  ℕ, zero, suc, ◌+◌, ◌<◌, ◌≡◌, ◌≢◌, refl, sym, ◌∙◌, inl, inr, arith, Bool-cases, Option, none, some,
  ◌==◌, ==→eq, eq→==, ne→==, lt→ltb,
}
use cellkernelqwen.Allocator.{Allocator}
use cellkernelqwen.Sched.Links.{Links}
use cellkernelqwen.Sched.Queue.{Thread, State, init_runqueue, time_slice_ms}
use cellkernelqwen.Sched.Create.{
  Threads, thread_size, cell_id_kernel, priority_idle, fill_thread, sched_create_thread, init_cpus,
  set_idle, start_idle, with_heap,
}

abbrev address : Option ℕ → ℕ
address none = 0
address (some p) = p

abbrev pub idle_loop_thread : Thread
idle_loop_thread = record {
  state = State.ready;
  priority = priority_idle;
  time_slice = time_slice_ms;
  wake_time = 0;
}

module _ (L : Links) (A : Allocator) where
  -- Where kmalloc puts a thread once its stack is taken, 0 for NULL.
  abbrev pub idle_address : (A.Heap → ℕ × A.Heap) → A.Heap → ℕ
  idle_address alloc_page heap = address (A.kmalloc (alloc_page heap).1 thread_size).0

  -- The first CPU runs the thread `p`, which is its idle thread: it is ready, at the lowest priority,
  -- and belongs to the kernel, and it starts at `idle_loop`. There is none when `p` is NULL.
  pub record IsRunning (idle_loop p : ℕ) (t : Threads L A) : Type 0 where
    pub current : t.queue.current ≡ p
    pub idle_thread : t.queue.idle_thread ≡ p
    pub idle_of : t.idle_of 0 ≡ p
    pub thread : p ≢ 0 → t.queue.threads p ≡ idle_loop_thread
    pub cell_id : p ≢ 0 → (t.infos p).cell_id ≡ cell_id_kernel
    pub entry : p ≢ 0 → (t.infos p).instruction_pointer ≡ idle_loop

  abbrev filled : ℕ → ℕ → Option ℕ × A.Heap → Threads L A → ℕ × Threads L A
  filled idle_loop stack q t = fill_thread L A cell_id_kernel idle_loop stack 4096 priority_idle q t

  filled-IsRunning :
      (idle_loop p stack : ℕ) (q : Option ℕ × A.Heap) (t : Threads L A)
      → IsRunning idle_loop p t
      → IsRunning idle_loop p (filled idle_loop stack q t).1
  unfolding fill_thread
  filled-IsRunning idle_loop p stack (none, heap) t h = record {
    current = h.current;
    idle_thread = h.idle_thread;
    idle_of = h.idle_of;
    thread = h.thread;
    cell_id = h.cell_id;
    entry = h.entry;
  }
  filled-IsRunning idle_loop p stack (some r, heap) t h = record {
    current = h.current;
    idle_thread = h.idle_thread;
    idle_of = h.idle_of;
    thread =
        λ real. elim (Bool-cases (p == r)) [ inl e ↦ rw e refl | inr e ↦ rw e (h.thread real) ];
    cell_id =
        λ real. elim (Bool-cases (p == r)) [ inl e ↦ rw e refl | inr e ↦ rw e (h.cell_id real) ];
    entry = λ real. elim (Bool-cases (p == r)) [ inl e ↦ rw e refl | inr e ↦ rw e (h.entry real) ];
  }

  -- The idle threads of the other CPUs are set elsewhere.
  set_idle-IsRunning :
      (idle_loop p i : ℕ) (q : ℕ × Threads L A)
      → i ≢ 0
      → IsRunning idle_loop p q.1
      → IsRunning idle_loop p (set_idle L A i q)
  unfolding set_idle
  set_idle-IsRunning idle_loop p i (r, t) other h = elim (Bool-cases (r == 0)) [
    | inl e ↦ rw e h
    | inr e ↦
        rw (e, ne→== i 0 other)
          (record {
            current = h.current;
            idle_thread = h.idle_thread;
            idle_of = rw (ne→== 0 i (λ z. other (sym z))) h.idle_of;
            thread = h.thread;
            cell_id = h.cell_id;
            entry = h.entry;
          })
  ]

  start_idle-IsRunning :
      (alloc_page : A.Heap → ℕ × A.Heap) (idle_loop p rounds i : ℕ) (t : Threads L A)
      → i ≢ 0
      → IsRunning idle_loop p t
      → IsRunning idle_loop p (start_idle L A alloc_page idle_loop rounds i t)
  unfolding start_idle sched_create_thread
  start_idle-IsRunning alloc_page idle_loop p zero i t other h = h
  start_idle-IsRunning alloc_page idle_loop p (suc rounds) i t other h =
      let (stack, heap) = alloc_page t.heap in
      let at_heap : IsRunning idle_loop p (with_heap L A heap t) = record {
        current = h.current;
        idle_thread = h.idle_thread;
        idle_of = h.idle_of;
        thread = h.thread;
        cell_id = h.cell_id;
        entry = h.entry;
      } in
      start_idle-IsRunning alloc_page idle_loop p rounds (i + 1) _ (λ z. omega (arith, z))
        (set_idle-IsRunning idle_loop p i _ other
          (filled-IsRunning idle_loop p stack (A.kmalloc heap thread_size) _ at_heap))

  -- No thread runs yet.
  abbrev IsBlank : Threads L A → Type 0
  IsBlank t = (t.queue.current ≡ 0) × (t.queue.idle_thread ≡ 0) × (t.idle_of 0 ≡ 0)

  without_thread : (idle_loop : ℕ) (t : Threads L A) → IsBlank t → IsRunning idle_loop 0 t
  without_thread idle_loop t (current, idle, listed) = record {
    current = current;
    idle_thread = idle;
    idle_of = listed;
    thread = λ real. absurd (real refl);
    cell_id = λ real. absurd (real refl);
    entry = λ real. absurd (real refl);
  }

  first-IsRunning :
      (idle_loop stack : ℕ) (q : Option ℕ × A.Heap) (t : Threads L A)
      → IsBlank t
      → IsRunning idle_loop (address q.0) (set_idle L A 0 (filled idle_loop stack q t))
  unfolding set_idle fill_thread
  first-IsRunning idle_loop stack (none, heap) t blank = without_thread idle_loop _ blank
  first-IsRunning idle_loop stack (some p, heap) t blank = elim (Bool-cases (p == 0)) [
    | inl e ↦ rw e (record {
      current = blank.0 ∙ sym (==→eq p 0 e);
      idle_thread = blank.1 ∙ sym (==→eq p 0 e);
      idle_of = blank.2 ∙ sym (==→eq p 0 e);
      thread = λ real. absurd (real (==→eq p 0 e));
      cell_id = λ real. absurd (real (==→eq p 0 e));
      entry = λ real. absurd (real (==→eq p 0 e));
    })
    | inr e ↦ rw e (record {
      current = refl;
      idle_thread = refl;
      idle_of = refl;
      thread = λ real. rw (eq→== p p refl) refl;
      cell_id = λ real. rw (eq→== p p refl) refl;
      entry = λ real. rw (eq→== p p refl) refl;
    })
  ]

  pub start_idle-first :
      (alloc_page : A.Heap → ℕ × A.Heap) (idle_loop rounds : ℕ) (t : Threads L A)
      → 0 < rounds
      → IsBlank t
      → IsRunning idle_loop
          (idle_address alloc_page t.heap)
          (start_idle L A alloc_page idle_loop rounds 0 t)
  unfolding start_idle sched_create_thread
  start_idle-first alloc_page idle_loop zero t h blank = absurd (omega (arith, h))
  start_idle-first alloc_page idle_loop (suc rounds) t h blank =
      let (stack, heap) = alloc_page t.heap in
      start_idle-IsRunning alloc_page idle_loop (idle_address alloc_page t.heap) rounds 1 _
        (λ z. omega (arith, z))
        (first-IsRunning idle_loop stack (A.kmalloc heap thread_size) (with_heap L A heap t) blank)

  pub init_cpus-IsBlank : (n : ℕ) (t : Threads L A) → 0 < n → IsBlank (init_cpus L A n t)
  unfolding init_cpus init_runqueue
  init_cpus-IsBlank n t h =
      rw (ne→== n 0 (λ e. omega (arith, h, e)), lt→ltb 0 n h) (refl, refl, refl)

  pub init_cpus-heap : (n : ℕ) (t : Threads L A) → (init_cpus L A n t).heap ≡ t.heap
  unfolding init_cpus
  init_cpus-heap n t = refl
