-- ===== src/Sched/Queue.antt =====
-- `runqueue_t` and the operations of kernel/core/scheduling.c on the queue of the first CPU.
use cellkernelqwen.Prelude.{
  ℕ, zero, suc, ◌-◌, ◌^◌, Bool, true, false, not, ◌&&◌, ◌||◌, if◌then◌else◌, ◌==◌, add64, sub64,
  ◌<<<◌, ◌>>>◌, bit_and, bit_or, bit_xor,
}
use cellkernelqwen.Sched.Links.{Links}

pub data State : Type 0 where
  unused : State
  ready : State
  running : State
  blocked : State
  sleeping : State
  zombie : State

unfoldable pub is_ready : State → Bool
is_ready ready = true
is_ready _ = false

unfoldable pub is_running : State → Bool
is_running running = true
is_running _ = false

unfoldable pub is_blocked : State → Bool
is_blocked blocked = true
is_blocked _ = false

-- `time_slice` and `wake_time` are written by the scheduler and missing from `thread_info_t`; the
-- first is taken to be signed and does not fall below 0.
pub record Thread : Type 0 where
  pub state : State
  pub priority : ℕ
  pub time_slice : ℕ
  pub wake_time : ℕ

abbrev pub nr_priority_levels : ℕ
nr_priority_levels = 5

abbrev pub time_slice_ms : ℕ
time_slice_ms = 10

-- `__builtin_clzll`: how many of the `width` low bits are 0 before the first 1.
unfoldable pub clz : ℕ → ℕ → ℕ
clz zero bits = 0
clz (suc width) bits = let rest = clz width bits in if (bits >>> width) == 0 then suc rest else 0

module _ (L : Links) where
  -- Addresses of threads, 0 for NULL; the nodes of the lists are the threads.
  pub record Sched : Type 0 where
    pub current : ℕ
    pub idle_thread : ℕ
    pub nr_running : ℕ
    pub nr_switches : ℕ
    pub bitmap : ℕ
    pub links : L.Store
    pub threads : ℕ → Thread

  abbrev pub with_queue : L.Store → ℕ → ℕ → Sched → Sched
  with_queue links bitmap nr s = record {
    current = s.current;
    idle_thread = s.idle_thread;
    nr_running = nr;
    nr_switches = s.nr_switches;
    bitmap = bitmap;
    links = links;
    threads = s.threads;
  }

  unfoldable pub set_state : ℕ → State → Sched → Sched
  set_state thread state s = record {
    current = s.current;
    idle_thread = s.idle_thread;
    nr_running = s.nr_running;
    nr_switches = s.nr_switches;
    bitmap = s.bitmap;
    links = s.links;
    threads = λ t.
        let old = s.threads t in
        if t == thread
        then record {
          state = state;
          priority = old.priority;
          time_slice = old.time_slice;
          wake_time = old.wake_time;
        }
        else old;
  }

  unfoldable pub add_to_queue : ℕ → Sched → Sched
  add_to_queue thread s =
      let priority = (s.threads thread).priority in
      with_queue (L.list_add_tail thread priority s.links) (bit_or s.bitmap (1 <<< priority))
        (add64 s.nr_running 1) s

  unfoldable pub sched_enqueue : ℕ → Sched → Sched
  sched_enqueue thread s =
      if (thread == 0) || not (is_ready (s.threads thread).state) then s else add_to_queue thread s

  -- `~` on 64 bits.
  abbrev complement : ℕ → ℕ
  complement bits = 2 ^ 64 - 1 - bits

  unfoldable pub take_from_queue : ℕ → Sched → Sched
  take_from_queue thread s =
      let priority = (s.threads thread).priority in
      let links = L.list_del thread s.links in
      with_queue links
        (if L.list_empty priority links
          then bit_and s.bitmap (complement (1 <<< priority))
          else s.bitmap)
        (sub64 s.nr_running 1) s

  unfoldable pub sched_dequeue : ℕ → Sched → Sched
  sched_dequeue thread s = if thread == 0 then s else take_from_queue thread s

  unfoldable pub get_next_thread : Sched → ℕ
  get_next_thread s =
      if s.bitmap == 0
      then s.idle_thread
      else L.list_first_entry (bit_xor (clz 64 s.bitmap) 63) s.links

  unfoldable pub switch_current : ℕ → Sched → Sched
  switch_current next s = record {
    current = next;
    idle_thread = s.idle_thread;
    nr_running = s.nr_running;
    nr_switches = add64 s.nr_switches 1;
    bitmap = s.bitmap;
    links = s.links;
    threads = s.threads;
  }

  -- `switch_to` is not in the repository; that it was called shows in `current`.
  unfoldable pub schedule : Sched → Sched
  schedule s =
      let next = get_next_thread s in if s.current == next then s else switch_current next s

  unfoldable pub sched_block : ℕ → Sched → Sched
  sched_block thread s =
      if thread == 0 then s else schedule (sched_dequeue thread (set_state thread blocked s))

  unfoldable pub sched_wakeup : ℕ → Sched → Sched
  sched_wakeup thread s =
      if (thread == 0) || not (is_blocked (s.threads thread).state)
      then s
      else sched_enqueue thread (set_state thread ready s)

  -- The body of `sched_yield`, whose `current` is NULL.
  unfoldable pub yield_of : ℕ → Sched → Sched
  yield_of thread s =
      if not (thread == 0) && is_running (s.threads thread).state
      then schedule (sched_enqueue thread (set_state thread ready s))
      else s

  unfoldable pub sched_yield : Sched → Sched
  sched_yield s = yield_of 0 s

  unfoldable pub set_slice : ℕ → ℕ → Sched → Sched
  set_slice thread slice s = record {
    current = s.current;
    idle_thread = s.idle_thread;
    nr_running = s.nr_running;
    nr_switches = s.nr_switches;
    bitmap = s.bitmap;
    links = s.links;
    threads = λ t.
        let old = s.threads t in
        if t == thread
        then record {
          state = old.state;
          priority = old.priority;
          time_slice = slice;
          wake_time = old.wake_time;
        }
        else old;
  }

  unfoldable pub expire : ℕ → Sched → Sched
  expire thread s =
      schedule (sched_enqueue thread (set_slice thread time_slice_ms (set_state thread ready s)))

  unfoldable pub tick_thread : ℕ → Sched → Sched
  tick_thread thread s =
      let slice = (s.threads thread).time_slice - 1 in
      let counted = set_slice thread slice s in
      if slice == 0 then expire thread counted else counted

  unfoldable pub sched_tick : Sched → Sched
  sched_tick s =
      if (s.current == 0) || (s.current == s.idle_thread) then s else tick_thread s.current s

  unfoldable pub set_wake : ℕ → ℕ → Sched → Sched
  set_wake thread time s = record {
    current = s.current;
    idle_thread = s.idle_thread;
    nr_running = s.nr_running;
    nr_switches = s.nr_switches;
    bitmap = s.bitmap;
    links = s.links;
    threads = λ t.
        let old = s.threads t in
        if t == thread
        then record {
          state = old.state;
          priority = old.priority;
          time_slice = old.time_slice;
          wake_time = time;
        }
        else old;
  }

  -- The body of `sched_sleep`, whose `current` is NULL; `now` is what `get_system_time` returns.
  unfoldable pub sleep_of : ℕ → ℕ → ℕ → Sched → Sched
  sleep_of now ms thread s =
      if thread == 0
      then s
      else schedule
          (set_wake thread (add64 now ms) (sched_dequeue thread (set_state thread sleeping s)))

  unfoldable pub sched_sleep : ℕ → ℕ → Sched → Sched
  sched_sleep now ms s = sleep_of now ms 0 s

  -- `init_runqueue`: `list_init` on the queues below `n`.
  unfoldable pub init_queues : ℕ → L.Store → L.Store
  init_queues zero links = links
  init_queues (suc n) links = L.list_init n (init_queues n links)

  unfoldable pub init_runqueue : Sched → Sched
  init_runqueue s = record {
    current = 0;
    idle_thread = 0;
    nr_running = 0;
    nr_switches = 0;
    bitmap = 0;
    links = init_queues nr_priority_levels s.links;
    threads = s.threads;
  }
