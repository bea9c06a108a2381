-- ===== src/Ipc/Inv.antt =====
-- The representation invariant of a channel, and that `ipc_send` and `ipc_receive` keep it.
use native.Mathlib.Decide.{dec_lt}
use cellkernelqwen.Prelude.{
  ℕ, ◌+◌, ◌%◌, ◌<◌, ◌≡◌, ◌≢◌, refl, inl, inr, true, none, some, Option, arith, length, get_or, set,
  length-set, get_or-set_self, get_or-set_ne, Bool-cases, ◌==◌, u32, leb,
}
use cellkernelqwen.Ipc.Channel.{
  Message, Node, Channel, queue_size, magic, next_index, node_at, is_good, refresh_quota,
  store_message, enqueue, spend_quota, send, load_message, receive,
}
use cellkernelqwen.Ipc.Window.{used}

-- Both indices lie in the ring, and each slot in use holds a node with its mark.
pub record IsValid (c : Channel) : Type 0 where
  pub slots : length c.nodes ≡ queue_size
  pub head_in : c.head < queue_size
  pub tail_in : c.tail < queue_size
  pub filled :
      (k : ℕ)
      → k < used c.head c.tail
      → is_good (get_or c.nodes ((c.head + k) % queue_size) none) ≡ true

-- Every node was allocated.
pub record IsReady (c : Channel) : Type 0 where
  pub good : (i : ℕ) → i < queue_size → is_good (get_or c.nodes i none) ≡ true

-- The invariant reads the ring alone.
pub same_ring :
    {c d : Channel}
    → IsValid c
    → (d.nodes ≡ c.nodes) × (d.head ≡ c.head) × (d.tail ≡ c.tail)
    → IsValid d
same_ring {c} {d} v (en, eh, et) = record {
  slots = rw en v.slots;
  head_in = rw eh v.head_in;
  tail_in = rw et v.tail_in;
  filled = λ k h. rw (en, eh) (v.filled k (omega arith));
}

module _ (now : ℕ) (m : Message) where
  filled-set :
      {c : Channel} (n : Node)
      → IsValid c
      → next_index c.tail ≢ c.head
      → (n.mark == magic) ≡ true
      → (k : ℕ) → k < used c.head (next_index c.tail)
      → is_good (
          get_or
            (set c.nodes (u32 c.tail) (some (record n { message = m; timestamp = now })))
            ((c.head + k) % queue_size)
            none)
        ≡ true
  filled-set {c} n v room hit k h = elim (dec_lt k (used c.head c.tail)) [
    | yes old ↦
        rw
          (get_or-set_ne c.nodes (u32 c.tail) ((c.head + k) % queue_size)
            (some (record n { message = m; timestamp = now })) none (omega arith))
          (v.filled k old)
    | no new ↦
        let at : (c.head + k) % queue_size ≡ u32 c.tail = omega arith in
        rw
          (
            at,
            get_or-set_self c.nodes (u32 c.tail) (some (record n { message = m; timestamp = now }))
                none (omega arith),
          )
          hit
  ]

  store_message-IsValid :
      {c : Channel} (o : Option Node)
      → IsValid c
      → next_index c.tail ≢ c.head
      → IsValid (store_message now c m o).1
  unfolding store_message
  store_message-IsValid none v room = v
  store_message-IsValid {c} (some n) v room = elim (Bool-cases (n.mark == magic)) [
    | inl hit ↦ rw hit (record {
      slots = omega (
        arith,
        length-set c.nodes (u32 c.tail) (some (record n { message = m; timestamp = now })),
      );
      head_in = v.head_in;
      tail_in = omega arith;
      filled = filled-set n v room hit;
    })
    | inr miss ↦ rw miss v
  ]

  enqueue-IsValid : {c : Channel} → IsValid c → IsValid (enqueue now c m).1
  unfolding enqueue
  enqueue-IsValid {c} v = elim (Bool-cases (next_index c.tail == c.head)) [
    | inl full ↦ rw full (same_ring v (refl, refl, refl))
    | inr room ↦ rw room (store_message-IsValid (node_at c.nodes c.tail) v (ground arith))
  ]

  spend_quota-IsValid : {c : Channel} → IsValid c → IsValid (spend_quota now c m).1
  unfolding spend_quota
  spend_quota-IsValid {c} v = elim (Bool-cases (c.quota_remaining == 0)) [
    | inl spent ↦ rw spent (same_ring v (refl, refl, refl))
    | inr left ↦ rw left (enqueue-IsValid (same_ring v (refl, refl, refl)))
  ]

  -- `ipc_send` keeps the ring well formed, whatever it returns.
  pub send-IsValid : {c : Channel} → IsValid c → IsValid (send now c m).1
  unfolding send refresh_quota
  send-IsValid {c} v = spend_quota-IsValid (elim (Bool-cases (leb c.quota_reset_time now)) [
    | inl over ↦ rw over (same_ring v (refl, refl, refl))
    | inr within ↦ rw within v
  ])

load_message-IsValid :
    {c : Channel} (o : Option Node)
    → IsValid c
    → 0 < used c.head c.tail
    → IsValid (load_message c o).2
unfolding load_message
load_message-IsValid none v some_used = v
load_message-IsValid {c} (some n) v some_used = elim (Bool-cases (n.mark == magic)) [
  | inl hit ↦ rw hit (record {
    slots = v.slots;
    head_in = omega arith;
    tail_in = v.tail_in;
    filled = λ k h.
        let at : (next_index c.head + k) % queue_size ≡ (c.head + (k + 1)) % queue_size =
          omega arith in
        rw at (v.filled (k + 1) (omega arith));
  })
  | inr miss ↦ rw miss v
]

-- `ipc_receive` keeps the ring well formed, whatever it returns.
pub receive-IsValid : {c : Channel} → IsValid c → IsValid (receive c).2
unfolding receive
receive-IsValid {c} v = elim (Bool-cases (u32 c.head == u32 c.tail)) [
  | inl empty ↦ rw empty v
  | inr more ↦ rw more (load_message-IsValid (node_at c.nodes c.head) v (ground arith))
]
