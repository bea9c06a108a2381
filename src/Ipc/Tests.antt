-- ===== src/Ipc/Tests.antt =====
-- Runs of kernel/ipc/message.c, and its theorems at concrete channels.
use cellkernelqwen.Prelude.{
  ℕ, ◌+◌, ◌-◌, ◌%◌, ◌≤◌, ◌≡◌, refl, false, none, some, List, [], ◌∷◌, ◌++◌, arith, replicate,
  get_or-replicate, length-replicate, ◌==◌, if◌then◌else◌,
}
use cellkernelqwen.Prelude.Status.{
  success, error_invalid_arg, error_not_found, error_busy, error_no_memory,
}
use cellkernelqwen.Allocator.{Allocator}
use cellkernelqwen.Ipc.Channel.{
  Message, Node, Channel, magic, queue_size, refresh_quota, spend_quota, enqueue, store_message,
  load_message, ipc_send, ipc_receive, send, receive, ipc_set_rate_limit, ipc_get_stats,
}
use cellkernelqwen.Ipc.Create.{Registry, ipc_channel_destroy, destroy, new_channel}
use cellkernelqwen.Ipc.Spec
use cellkernelqwen.Ipc.Spec.{Op, sends, receives, limits}
use cellkernelqwen.Ipc.Inv.{IsValid, IsReady}
use cellkernelqwen.Ipc.Refine.{view, run, run_refines}
use cellkernelqwen.Ipc.Account.{IsBalanced, accepted, balance_kept, accepted-run-le}
use cellkernelqwen.Ipc.Threads.{World, waiting, claimed, idle, claim, Reach, here, next}
use cellkernelqwen.Ipc.Fifo.{contents, IsOrdered}
use cellkernelqwen.Ipc.Order.{Reach-IsOrdered}
use cellkernelqwen.Ipc.Race.{Any, race_loses}

abbrev hello : Message
hello = record {
  sender = 1;
  receiver = 2;
  type = 0;
  flags = 0;
  data_size = 2;
  bytes = 104 ∷ 105 ∷ [];
}

abbrev bye : Message
bye = record hello { type = 2; data_size = 0; bytes = [] }

abbrev blank : Node
blank = record { at = 64; message = hello; timestamp = 0; mark = magic }

abbrev start : Channel
start = new_channel 8 1 2 0 (replicate queue_size (some blank))

-- One message waits, and one send is left before the time 1000.
abbrev busy : Channel
busy = record start { tail = 1; messages_sent = 1; quota_remaining = 1 }

start-IsReady : IsReady start
start-IsReady = record { good = λ i h. rw (get_or-replicate queue_size i (some blank) none h) refl }

busy-IsReady : IsReady busy
busy-IsReady = record { good = λ i h. rw (get_or-replicate queue_size i (some blank) none h) refl }

busy-IsValid : IsValid busy
busy-IsValid = record {
  slots = length-replicate queue_size (some blank);
  head_in = omega arith;
  tail_in = omega arith;
  filled = λ k h. busy-IsReady.good ((0 + k) % queue_size) (omega arith);
}

abbrev script : List Op
script = sends 5 bye ∷ sends 6 hello ∷ receives ∷ receives ∷ receives ∷ limits 7 ∷ []

run-busy :
    run busy script
    ≡ (success, none)
      ∷ (error_busy, none)
      ∷ (success, some hello)
      ∷ (success, some bye)
      ∷ (error_not_found, none)
      ∷ []
unfolding run send receive refresh_quota spend_quota enqueue store_message load_message
run-busy = refl

null_arguments :
    (ipc_send 0 none (some hello) ≡ (error_invalid_arg, none))
    × (ipc_send 0 (some busy) none ≡ (error_invalid_arg, some busy))
    × (ipc_receive (some busy) false ≡ (error_invalid_arg, none, some busy))
    × (ipc_get_stats (some busy) ≡ some (1, 0, 0))
    × (ipc_set_rate_limit (some busy) 7 ≡ some (record busy { rate_limit = 7 }))
unfolding ipc_send ipc_receive ipc_get_stats ipc_set_rate_limit
null_arguments = (refl, refl, refl, refl, refl)

-- Without a node in the slot a send spends quota and is not counted as dropped.
no_node :
    send 5 (record busy { nodes = [] }) hello
    ≡ (error_no_memory, record busy { nodes = []; quota_remaining = 0 })
unfolding send refresh_quota spend_quota enqueue store_message
no_node = refl

run_refines_example : run busy script ≡ Spec.run (view busy) script
run_refines_example = run_refines script busy-IsValid busy-IsReady

balance_kept_example : IsBalanced (view (send 5 busy bye).1) × IsBalanced (view (receive busy).2)
balance_kept_example =
    balance_kept 5 bye busy-IsValid busy-IsReady (record { small = omega arith; sum = refl })

accepted-run-le_example : accepted script (run busy script) ≤ 1
accepted-run-le_example = accepted-run-le script busy-IsValid busy-IsReady (omega arith)

-- An allocator that counts its blocks: addresses run upwards, and each is given out once.
abbrev bump : Allocator
bump = record {
  Heap = ℕ × (ℕ → ℕ);
  kmalloc = λ h size. (some h.0, (h.0 + 1, λ p. h.1 p + (if h.0 == p then 1 else 0)));
  kfree = λ h q. (h.0, λ p. h.1 p - (if q == p then 1 else 0));
}

abbrev nothing : bump.Heap
nothing = (16, λ p. 0)

abbrev full_registry : Registry
full_registry = record { channels = []; counter = 1023 }

-- A second reference keeps the channel.
destroy_shared :
    ipc_channel_destroy bump (some (record busy { refcount = 2 })) nothing
    ≡ (some (record busy { refcount = 1 }), nothing)
unfolding ipc_channel_destroy destroy
destroy_shared = refl

-- One message was sent and waits, and nobody is at work.
abbrev quiet : World
quiet = record {
  chan = busy;
  producers = λ i. idle;
  consumer = waiting;
  sent = hello ∷ [];
  got = [];
}

quiet-IsOrdered : IsOrdered quiet
quiet-IsOrdered = record {
  ring = busy-IsValid;
  ready = busy-IsReady;
  order = refl;
  producing = tt;
  consuming = tt;
}

Reach-IsOrdered_example : IsOrdered (record quiet { consumer = claimed 0 })
Reach-IsOrdered_example = Reach-IsOrdered quiet-IsOrdered (next here (claim quiet refl refl))

race_loses_example :
    (u : World) × Reach Any quiet u
    × (u.sent ≡ ((hello ∷ []) ++ (bye ∷ [])) ++ (hello ∷ []))
    × (contents u.chan ≡ contents busy ++ (hello ∷ []))
    × (u.producers 1 ≡ idle)
    × (u.producers 2 ≡ idle)
race_loses_example =
    race_loses quiet bye hello 9 busy-IsValid busy-IsReady (omega arith) (refl, refl)
