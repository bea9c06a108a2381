-- ===== src/Ipc/Lifetime.antt =====
-- Creation and destruction of a channel.
use cellkernelqwen.Prelude.{
  ℕ, zero, suc, ◌+◌, ◌^◌, ◌≤◌, ◌<◌, ◌≡◌, refl, ap, true, none, some, Option, [], arith, length,
  get_or, leb, is_some, add64, u32, Bool-cases, inl, inr,
}
use cellkernelqwen.Allocator.{Allocator}
use cellkernelqwen.Ipc.Channel.{Channel, queue_size, is_good}
use cellkernelqwen.Ipc.Create.{
  Registry, max_channels, fresh_node, channel_size, node_size, new_channel, alloc_nodes,
  fill_channel, ipc_channel_create,
}
use cellkernelqwen.Ipc.Inv.{IsValid, IsReady}
use cellkernelqwen.Ipc.Refine.{view}

module _ (a : Allocator) where
  open a use {Heap, kmalloc, kfree}

  length-alloc_nodes : (n : ℕ) (h : Heap) → length (alloc_nodes a n h).0 ≡ n
  unfolding alloc_nodes
  length-alloc_nodes zero h = refl
  length-alloc_nodes (suc n) h = ap suc (length-alloc_nodes n (kmalloc h node_size).1)

  good_fresh : (o : Option ℕ) → is_some o ≡ true → is_good (fresh_node o) ≡ true
  good_fresh none e = cc
  good_fresh (some p) e = refl

  alloc_nodes-good :
      ((h : Heap) → is_some (kmalloc h node_size).0 ≡ true)
      → (n : ℕ) (h : Heap) (i : ℕ) → i < n
      → is_good (get_or (alloc_nodes a n h).0 i none) ≡ true
  unfolding alloc_nodes
  alloc_nodes-good never_null zero h i p = absurd (omega arith)
  alloc_nodes-good never_null (suc n) h zero p = good_fresh (kmalloc h node_size).0 (never_null h)
  alloc_nodes-good never_null (suc n) h (suc i) p =
      alloc_nodes-good never_null n (kmalloc h node_size).1 i (omega arith)

  fill_channel-some :
      (g : Registry) (id sender receiver now : ℕ) (r : Option ℕ × Heap) {c : Channel}
      → (fill_channel a g id sender receiver now r).0 ≡ some c
      → (p : ℕ) × (h : Heap) × (r ≡ (some p, h))
        × (c ≡ new_channel p sender receiver now (alloc_nodes a queue_size h).0)
        × ((fill_channel a g id sender receiver now r).2 ≡ (alloc_nodes a queue_size h).1)
  unfolding fill_channel
  fill_channel-some g id sender receiver now (none, h) e = cc
  fill_channel-some g id sender receiver now (some p, h) e = (p, h, refl, cc, refl)

  pub create-some :
      (g : Registry) (sender receiver now : ℕ) (h : Heap) {c : Channel}
      → (ipc_channel_create a g sender receiver now h).0 ≡ some c
      → (p : ℕ) × (h' : Heap) × (kmalloc h channel_size ≡ (some p, h'))
        × (c ≡ new_channel p sender receiver now (alloc_nodes a queue_size h').0)
        × ((ipc_channel_create a g sender receiver now h).2 ≡ (alloc_nodes a queue_size h').1)
  unfolding ipc_channel_create
  create-some g sender receiver now h e =
      elim (Bool-cases (leb max_channels (u32 (add64 g.counter 1)))) [
        | inl full ↦ cc (refused full)
        | inr room ↦ rw room (
            fill_channel-some (record g { counter = add64 g.counter 1 }) (u32 (add64 g.counter 1))
              sender receiver now (kmalloc h channel_size) (rw room at e))
      ]
    where
      refused :
          leb max_channels (u32 (add64 g.counter 1)) ≡ true
          → (ipc_channel_create a g sender receiver now h).0 ≡ none
      refused full = rw full

  -- A channel that `ipc_channel_create` returns is well formed and empty, has sent, received and
  -- dropped nothing, and has one reference; if `kmalloc` gave every node, it is ready as well.
  pub create-IsValid :
      (g : Registry) (sender receiver now : ℕ) (h : Heap) {c : Channel}
      → (ipc_channel_create a g sender receiver now h).0 ≡ some c
      → IsValid c
        × (view c ≡ record {
          queue = [];
          limit = 1000;
          quota = 10000;
          reset_time = add64 now 1000;
          sent = 0;
          received = 0;
          dropped = 0;
        })
        × (c.refcount ≡ 1)
        × (((h' : Heap) → is_some (kmalloc h' node_size).0 ≡ true) → IsReady c)
  create-IsValid g sender receiver now h {c} e =
      let (p, h', got, is, heap) = create-some g sender receiver now h e in
      rw is (
        record {
          slots = length-alloc_nodes queue_size h';
          head_in = omega arith;
          tail_in = omega arith;
          filled = λ k below. absurd (omega arith);
        },
        refl,
        refl,
        λ never_null. record { good = alloc_nodes-good never_null queue_size h' },
      )

  -- The identifiers run from 1 to 1023: a call that raises the counter to 1024 or more, below
  -- 2^32, returns NULL, allocates nothing and leaves the table as it is.
  pub create_exhausted :
      (g : Registry) (sender receiver now : ℕ) (h : Heap)
      → 1023 ≤ g.counter
      → g.counter + 1 < 2 ^ 32
      → ipc_channel_create a g sender receiver now h
        ≡ (none, record g { counter = g.counter + 1 }, h)
  unfolding ipc_channel_create
  create_exhausted g sender receiver now h many few =
      let counted : add64 g.counter 1 ≡ g.counter + 1 = omega arith in
      let full : leb max_channels (u32 (g.counter + 1)) ≡ true = ground arith in rw (counted, full)
