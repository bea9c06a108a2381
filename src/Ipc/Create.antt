-- ===== src/Ipc/Create.antt =====
-- `ipc_subsystem_init`, `ipc_channel_create` and `ipc_channel_destroy` of kernel/ipc/message.c,
-- over any allocator.
use cellkernelqwen.Prelude.{
  ℕ, zero, suc, ◌+◌, ◌-◌, ◌^◌, Option, none, some, List, [], ◌∷◌, leb, ltb, if◌then◌else◌,
  replicate, set, u32, add64,
}
use cellkernelqwen.Allocator.{Allocator}
use cellkernelqwen.Ipc.Channel.{Message, Node, Channel, queue_size, magic}

abbrev pub max_channels : ℕ
max_channels = 1024

-- `g_channels` holds addresses, 0 for NULL.
pub record Registry : Type 0 where
  pub channels : List ℕ
  pub counter : ℕ

unfoldable pub ipc_subsystem_init : Registry
ipc_subsystem_init = record { channels = replicate max_channels 0; counter = 0 }

-- `sizeof(ipc_channel_t)` and `sizeof(ipc_node_t)` on a 64-bit machine.
abbrev pub channel_size : ℕ
channel_size = 8280

abbrev pub node_size : ℕ
node_size = 4152

abbrev pub zero_message : Message
zero_message = record {
  sender = 0;
  receiver = 0;
  type = 0;
  flags = 0;
  data_size = 0;
  bytes = replicate 4096 0;
}

-- A node that `kmalloc` returned, cleared and marked.
abbrev pub fresh_node : Option ℕ → Option Node
fresh_node none = none
fresh_node (some p) = some (record { at = p; message = zero_message; timestamp = 0; mark = magic })

abbrev pub new_channel : ℕ → ℕ → ℕ → ℕ → List (Option Node) → Channel
new_channel p sender receiver now nodes = record {
  at = p;
  sender_id = sender;
  receiver_id = receiver;
  head = 0;
  tail = 0;
  nodes = nodes;
  messages_sent = 0;
  messages_received = 0;
  messages_dropped = 0;
  rate_limit = 1000;
  quota_remaining = 10000;
  quota_reset_time = add64 now 1000;
  flags = 0;
  refcount = 1;
}

module _ (a : Allocator) where
  open a use {Heap, kmalloc, kfree}

  -- The loop that allocates the queue's nodes: `n` are still to come.
  unfoldable pub alloc_nodes : ℕ → Heap → List (Option Node) × Heap
  alloc_nodes zero h = ([], h)
  alloc_nodes (suc n) h =
      let (p, h') = kmalloc h node_size in
      let (rest, h'') = alloc_nodes n h' in (fresh_node p ∷ rest, h'')

  unfoldable pub fill_channel :
      Registry → ℕ → ℕ → ℕ → ℕ → Option ℕ × Heap → Option Channel × Registry × Heap
  fill_channel g id sender receiver now (none, h) = (none, g, h)
  fill_channel g id sender receiver now (some p, h) =
      let (nodes, h') = alloc_nodes queue_size h in
      (
        some (new_channel p sender receiver now nodes),
        record g { channels = set g.channels id p },
        h',
      )

  unfoldable pub ipc_channel_create : Registry → ℕ → ℕ → ℕ → Heap → Option Channel × Registry × Heap
  ipc_channel_create g sender receiver now h =
      let counted : Registry = record g { counter = add64 g.counter 1 } in
      let id = u32 counted.counter in
      if leb max_channels id
      then (none, counted, h)
      else fill_channel counted id sender receiver now (kmalloc h channel_size)

  -- The loop that frees the nodes.
  unfoldable pub free_nodes : List (Option Node) → Heap → Heap
  free_nodes [] h = h
  free_nodes (none ∷ rest) h = free_nodes rest h
  free_nodes (some n ∷ rest) h = free_nodes rest (kfree h n.at)

  -- The channel that is left, if it was not freed.
  unfoldable pub destroy : Channel → Heap → Option Channel × Heap
  destroy c h =
      let refs = u32 (c.refcount + 2 ^ 32 - 1) in
      if ltb 0 refs
      then (some (record c { refcount = refs }), h)
      else (none, kfree (free_nodes c.nodes h) c.at)

  unfoldable pub ipc_channel_destroy : Option Channel → Heap → Option Channel × Heap
  ipc_channel_destroy none h = (none, h)
  ipc_channel_destroy (some c) h = destroy c h
