-- ===== src/Ipc/Ready.antt =====
-- A channel all of whose nodes were allocated stays one.
use native.Mathlib.Decide.{ℕ_discrete}
use cellkernelqwen.Prelude.{
  ℕ, ◌<◌, ◌≡◌, refl, inl, inr, true, none, some, Option, arith, length, get_or, set,
  get_or-set_self, get_or-set_ne, Bool-cases, ◌==◌, u32, leb,
}
use cellkernelqwen.Ipc.Channel.{
  Message, Node, Channel, queue_size, magic, next_index, node_at, is_good, refresh_quota,
  store_message, enqueue, spend_quota, send, load_message, receive,
}
use cellkernelqwen.Ipc.Inv.{IsValid, IsReady}

pub same_nodes : {c d : Channel} → IsReady c → d.nodes ≡ c.nodes → IsReady d
same_nodes r e = record { good = λ i h. rw e (r.good i h) }

module _ (now : ℕ) (m : Message) where
  pub good-set :
      {c : Channel} (n : Node)
      → IsReady c
      → length c.nodes ≡ queue_size
      → (n.mark == magic) ≡ true
      → (t i : ℕ) → i < queue_size
      → is_good (get_or (set c.nodes t (some (record n { message = m; timestamp = now }))) i none)
        ≡ true
  good-set {c} n r len hit t i h = elim (ℕ_discrete t i) [
    | yes same ↦
        rw
          (
            same,
            get_or-set_self c.nodes i (some (record n { message = m; timestamp = now })) none
                (omega arith),
          )
          hit
    | no other ↦
        rw (get_or-set_ne c.nodes t i (some (record n { message = m; timestamp = now })) none other)
          (r.good i h)
  ]

  store_message-IsReady :
      {c : Channel} (o : Option Node)
      → length c.nodes ≡ queue_size
      → IsReady c
      → IsReady (store_message now c m o).1
  unfolding store_message
  store_message-IsReady none len r = r
  store_message-IsReady {c} (some n) len r = elim (Bool-cases (n.mark == magic)) [
    | inl hit ↦ rw hit (record { good = λ i h. good-set n r len hit (u32 c.tail) i h })
    | inr miss ↦ rw miss r
  ]

  enqueue-IsReady :
      {c : Channel} → length c.nodes ≡ queue_size → IsReady c → IsReady (enqueue now c m).1
  unfolding enqueue
  enqueue-IsReady {c} len r = elim (Bool-cases (next_index c.tail == c.head)) [
    | inl full ↦ rw full (same_nodes r refl)
    | inr room ↦ rw room (store_message-IsReady (node_at c.nodes c.tail) len r)
  ]

  spend_quota-IsReady :
      {c : Channel} → length c.nodes ≡ queue_size → IsReady c → IsReady (spend_quota now c m).1
  unfolding spend_quota
  spend_quota-IsReady {c} len r = elim (Bool-cases (c.quota_remaining == 0)) [
    | inl spent ↦ rw spent (same_nodes r refl)
    | inr left ↦ rw left (enqueue-IsReady len (same_nodes r refl))
  ]

  pub send-IsReady : {c : Channel} → IsValid c → IsReady c → IsReady (send now c m).1
  unfolding send refresh_quota
  send-IsReady {c} v r = elim (Bool-cases (leb c.quota_reset_time now)) [
    | inl over ↦ rw over (spend_quota-IsReady v.slots (same_nodes r refl))
    | inr within ↦ rw within (spend_quota-IsReady v.slots r)
  ]

load_message-IsReady : {c : Channel} (o : Option Node) → IsReady c → IsReady (load_message c o).2
unfolding load_message
load_message-IsReady none r = r
load_message-IsReady {c} (some n) r = elim (Bool-cases (n.mark == magic)) [
  | inl hit ↦ rw hit (same_nodes r refl)
  | inr miss ↦ rw miss r
]

pub receive-IsReady : {c : Channel} → IsReady c → IsReady (receive c).2
unfolding receive
receive-IsReady {c} r = elim (Bool-cases (u32 c.head == u32 c.tail)) [
  | inl empty ↦ rw empty r
  | inr more ↦ rw more (load_message-IsReady (node_at c.nodes c.head) r)
]
