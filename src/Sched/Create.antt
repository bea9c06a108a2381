-- ===== src/Sched/Create.antt =====
-- `sched_create_thread`, `sched_destroy_thread` and `scheduler_init` of kernel/core/scheduling.c.
use cellkernelqwen.Prelude.{ℕ, zero, suc, ◌+◌, Option, none, some, ◌==◌, ltb, if◌then◌else◌, add64}
use cellkernelqwen.Allocator.{Allocator}
use cellkernelqwen.Sched.Links.{Links}
use cellkernelqwen.Sched.Queue.{
  Thread, Sched, ready, zombie, time_slice_ms, set_state, sched_dequeue, init_runqueue,
}

-- The fields of `thread_info_t` that the queue does not read.
pub record Info : Type 0 where
  pub cell_id : ℕ
  pub thread_id : ℕ
  pub stack_base : ℕ
  pub stack_size : ℕ
  pub instruction_pointer : ℕ

-- `sizeof(thread_info_t)`, as it is declared.
abbrev pub thread_size : ℕ
thread_size = 48

abbrev pub cell_id_kernel : ℕ
cell_id_kernel = 1

abbrev pub priority_idle : ℕ
priority_idle = 0

abbrev pub max_cpus : ℕ
max_cpus = 256

module _ (L : Links) (A : Allocator) where
  -- The run queue of the first CPU, the idle threads of the others by number, 0 for none, the
  -- allocator, the other fields of threads by address, and `g_thread_counter`.
  pub record Threads : Type 0 where
    pub queue : Sched L
    pub idle_of : ℕ → ℕ
    pub heap : A.Heap
    pub infos : ℕ → Info
    pub counter : ℕ

  abbrev pub put_thread : ℕ → Thread → Sched L → Sched L
  put_thread p thread s = record {
    current = s.current;
    idle_thread = s.idle_thread;
    nr_running = s.nr_running;
    nr_switches = s.nr_switches;
    bitmap = s.bitmap;
    links = s.links;
    threads = λ t. if t == p then thread else s.threads t;
  }

  -- The context that `arch_init_thread_context` sets up is not in the repository.
  unfoldable pub fill_thread : ℕ → ℕ → ℕ → ℕ → ℕ → Option ℕ × A.Heap → Threads → ℕ × Threads
  fill_thread cell entry stack_base stack_size priority (none, heap) t = (
    0,
    record {
      queue = t.queue;
      idle_of = t.idle_of;
      heap = heap;
      infos = t.infos;
      counter = t.counter;
    },
  )
  fill_thread cell entry stack_base stack_size priority (some p, heap) t =
      let id = add64 t.counter 1 in
      (
        p,
        record {
          queue =
              put_thread p
                (record {
                  state = ready;
                  priority = priority;
                  time_slice = time_slice_ms;
                  wake_time = 0;
                })
                t.queue;
          idle_of = t.idle_of;
          heap = heap;
          infos = λ a.
              if a == p
              then record {
                cell_id = cell;
                thread_id = id;
                stack_base = stack_base;
                stack_size = stack_size;
                instruction_pointer = entry;
              }
              else t.infos a;
          counter = id;
        },
      )

  -- The address of the thread, 0 for NULL.
  unfoldable pub sched_create_thread : ℕ → ℕ → ℕ → ℕ → ℕ → Threads → ℕ × Threads
  sched_create_thread cell entry stack_base stack_size priority t =
      fill_thread cell entry stack_base stack_size priority (A.kmalloc t.heap thread_size) t

  unfoldable pub sched_destroy_thread : ℕ → Threads → Threads
  sched_destroy_thread thread t = if thread == 0 then t else record {
    queue = set_state L thread zombie (sched_dequeue L thread t.queue);
    idle_of = t.idle_of;
    heap = A.kfree (A.kfree t.heap (t.infos thread).stack_base) thread;
    infos = t.infos;
    counter = t.counter;
  }

  -- `init_runqueue` on the CPUs below `n`.
  unfoldable pub init_cpus : ℕ → Threads → Threads
  init_cpus n t = record {
    queue = if n == 0 then t.queue else init_runqueue L t.queue;
    idle_of = λ i. if ltb i n then 0 else t.idle_of i;
    heap = t.heap;
    infos = t.infos;
    counter = t.counter;
  }

  abbrev pub with_idle : ℕ → Sched L → Sched L
  with_idle idle s = record {
    current = idle;
    idle_thread = idle;
    nr_running = s.nr_running;
    nr_switches = s.nr_switches;
    bitmap = s.bitmap;
    links = s.links;
    threads = s.threads;
  }

  -- The idle thread of a CPU, which then runs there, unless there was no memory.
  unfoldable pub set_idle : ℕ → ℕ × Threads → Threads
  set_idle i (idle, t) = if idle == 0 then t else record {
    queue = if i == 0 then with_idle idle t.queue else t.queue;
    idle_of = λ j. if j == i then idle else t.idle_of j;
    heap = t.heap;
    infos = t.infos;
    counter = t.counter;
  }

  abbrev pub with_heap : A.Heap → Threads → Threads
  with_heap heap t = record {
    queue = t.queue;
    idle_of = t.idle_of;
    heap = heap;
    infos = t.infos;
    counter = t.counter;
  }

  -- The loop over the CPUs from `i` on, with the page that is the stack; `idle_loop` is the address of
  -- a function that the repository does not define.
  unfoldable pub start_idle : (A.Heap → ℕ × A.Heap) → ℕ → ℕ → ℕ → Threads → Threads
  start_idle alloc_page idle_loop zero i t = t
  start_idle alloc_page idle_loop (suc rounds) i t =
      let (stack, heap) = alloc_page t.heap in
      start_idle alloc_page idle_loop rounds (i + 1) (
        set_idle i (
          sched_create_thread cell_id_kernel idle_loop stack 4096 priority_idle (with_heap heap t)))

  -- `detected` is what `detect_cpu_count` returns.
  unfoldable pub scheduler_init : (A.Heap → ℕ × A.Heap) → ℕ → ℕ → Threads → Threads
  scheduler_init alloc_page idle_loop detected t =
      let count = if ltb max_cpus detected then max_cpus else detected in
      start_idle alloc_page idle_loop count 0 (init_cpus count t)
