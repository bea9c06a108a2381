-- ===== src/Sched/Tests.antt =====
-- The scheduler of kernel/core/scheduling.c over lists of threads.
use cellkernelqwen.Prelude.{
  ℕ, zero, suc, ◌+◌, ◌*◌, some, ◌<◌, ◌≡◌, ◌≢◌, refl, ap, inl, inr, arith, false, List, [], ◌∷◌,
  ◌++◌, Bool-cases, ◌==◌, eq→==, ne→==, if◌then◌else◌, add64, sub64,
}
use cellkernelqwen.Sched.Links.{Links, elem, remove, is_empty}
use cellkernelqwen.Sched.Queue.{
  Sched, Thread, State, schedule, init_runqueue, sched_enqueue, sched_dequeue,
}
use cellkernelqwen.Sched.Create.{
  Threads, fill_thread, sched_create_thread, init_cpus, set_idle, start_idle, scheduler_init,
}
use cellkernelqwen.Sched.Idle.{IsRunning}
use cellkernelqwen.Sched.Made.{IsIdle, sched_enqueue-sched_create_thread, scheduler_init-IsIdle}
use cellkernelqwen.Allocator.{Allocator}
use cellkernelqwen.Sched.Bitmap.{bit}
use cellkernelqwen.Sched.Pick.{IsIndexed, highest_first, filled, first_or}
use cellkernelqwen.Sched.Moves.{IsQueued, IsLoose, sched_enqueue_lem, sched_dequeue_lem}
use cellkernelqwen.Sched.Stays.{IsHeld, schedule-IsHeld}

abbrev first_of_list : List ℕ → ℕ
first_of_list [] = 0
first_of_list (x ∷ xs) = x

-- Each queue as a list of its own.
abbrev plain : Links
plain = record {
  Store = ℕ → List ℕ;
  members = λ q s. s q;
  list_init = λ q s p. if p == q then [] else s p;
  list_add_tail = λ n q s p. if p == q then s p ++ (n ∷ []) else s p;
  list_del = λ n s p. remove n (s p);
  list_empty = λ q s. is_empty (s q);
  list_first_entry = λ q s. first_of_list (s q);
  init_members = λ q s. rw (eq→== q q refl) refl;
  init_other = λ q p s h. rw (ne→== p q h) refl;
  add_members = λ n q s h. rw (eq→== q q refl) refl;
  add_other = λ n q p s h k. rw (ne→== p q k) refl;
  del_members = λ n q p s h. refl;
  empty_members = λ q s. refl;
  first_members = λ q n ns s e. ap first_of_list e;
}

abbrev normal_thread : Thread
normal_thread = record { state = State.ready; priority = 2; time_slice = 10; wake_time = 0 }

abbrev queues : ℕ → List ℕ
queues q = if q == 2 then 100 ∷ 200 ∷ [] else []

-- Two threads of normal priority, of three; the idle thread runs.
abbrev two_queued : Sched plain
two_queued = record {
  current = 50;
  idle_thread = 50;
  nr_running = 2;
  nr_switches = 0;
  bitmap = 4;
  links = queues;
  threads = λ t. normal_thread;
}

two_queued-bits : (p : ℕ) → p < 5 → bit p 4 ≡ filled (queues p)
unfolding filled
two_queued-bits zero h = refl
two_queued-bits (suc zero) h = refl
two_queued-bits (suc (suc zero)) h = refl
two_queued-bits (suc (suc (suc zero))) h = refl
two_queued-bits (suc (suc (suc (suc zero)))) h = refl
two_queued-bits (suc (suc (suc (suc (suc p))))) h = absurd (omega arith)

two_queued-IsIndexed : IsIndexed plain two_queued
two_queued-IsIndexed = (omega arith, two_queued-bits)

takes_head : highest_first plain two_queued ≡ 100
unfolding highest_first first_or
takes_head = refl

elem-none : (n q : ℕ) → n ≢ 100 → n ≢ 200 → elem n (queues q) ≡ false
unfolding elem
elem-none n q h k = elim (Bool-cases (q == 2)) [
  | inl e ↦ rw (e, ne→== n 100 h, ne→== n 200 k) refl
  | inr e ↦ rw e refl
]

sched_enqueue_lem_example :
    let after = sched_enqueue plain 300 two_queued in
    IsIndexed plain after
    × (after.links 2 ≡ (100 ∷ 200 ∷ []) ++ (300 ∷ []))
    × ((q : ℕ) → q ≢ 2 → after.links q ≡ queues q)
    × (after.nr_running ≡ add64 2 1)
sched_enqueue_lem_example =
    sched_enqueue_lem plain 300 two_queued two_queued-IsIndexed (λ e. omega (arith, e)) refl
      (omega arith) (λ q. elem-none 300 q (λ e. omega (arith, e)) (λ e. omega (arith, e)))

elem-other : (q : ℕ) → q ≢ 2 → elem 100 (queues q) ≡ false
unfolding elem
elem-other q h = rw (ne→== q 2 h) refl

first-IsQueued : IsQueued plain 100 two_queued
unfolding elem
first-IsQueued = (refl, elem-other)

sched_dequeue_lem_example :
    let after = sched_dequeue plain 100 two_queued in
    IsIndexed plain after
    × IsLoose plain 100 after
    × ((q : ℕ) → after.links q ≡ remove 100 (queues q))
    × (after.nr_running ≡ sub64 2 1)
sched_dequeue_lem_example =
    sched_dequeue_lem plain 100 two_queued two_queued-IsIndexed (λ e. omega (arith, e))
      (omega arith) first-IsQueued

schedule-IsHeld_example :
    IsHeld (schedule plain two_queued).current (schedule plain two_queued).links
unfolding filled
schedule-IsHeld_example =
    schedule-IsHeld plain two_queued 2 two_queued-IsIndexed (omega arith)
      (λ e. omega (arith, ap filled e))

abbrev with_blocked : Sched plain
with_blocked = record {
  current = 50;
  idle_thread = 50;
  nr_running = 2;
  nr_switches = 0;
  bitmap = 4;
  links = queues;
  threads = λ t.
      if t == 300
      then record { state = State.blocked; priority = 1; time_slice = 10; wake_time = 0 }
      else normal_thread;
}

-- Memory is given out from 1000 on, 100 bytes at a time.
abbrev stepping : Allocator
stepping = record { Heap = ℕ; kmalloc = λ h size. (some (1000 + 100 * h), h + 1); kfree = λ h p. h }

abbrev some_threads : Threads plain stepping
some_threads = record {
  queue = two_queued;
  idle_of = λ i. 0;
  heap = 0;
  infos = λ t. record {
    cell_id = 1;
    thread_id = 0;
    stack_base = 0;
    stack_size = 0;
    instruction_pointer = 0;
  };
  counter = 5;
}

sched_enqueue-sched_create_thread_example :
    let r = sched_create_thread plain stepping 1 64 4096 4096 2 some_threads in
    let after = sched_enqueue plain r.0 r.1.queue in
    (r.0 ≡ 1000)
    × IsIndexed plain after
    × (after.links 2 ≡ queues 2 ++ (1000 ∷ []))
    × ((q : ℕ) → q ≢ 2 → after.links q ≡ queues q)
sched_enqueue-sched_create_thread_example =
    sched_enqueue-sched_create_thread plain stepping 1 64 4096 4096 2 1000 1 some_threads refl
      (λ e. omega (arith, e)) (omega arith) two_queued-IsIndexed
      (λ q. elem-none 1000 q (λ e. omega (arith, e)) (λ e. omega (arith, e)))

scheduler_init-IsIdle_example :
    let after = scheduler_init plain stepping (λ h. (4096 * h, h + 1)) 64 2 some_threads in
    IsIdle plain stepping after.queue
    × (schedule plain after.queue ≡ after.queue)
    × IsRunning plain stepping 64 1100 after
scheduler_init-IsIdle_example =
    scheduler_init-IsIdle plain stepping (λ h. (4096 * h, h + 1)) 64 2 some_threads (omega arith)

-- The first idle thread takes the second piece of memory, after its stack.
first_idle :
    (scheduler_init plain stepping (λ h. (4096 * h, h + 1)) 64 2 some_threads).queue.current ≡ 1100
unfolding scheduler_init init_cpus start_idle sched_create_thread fill_thread set_idle init_runqueue
first_idle = refl
