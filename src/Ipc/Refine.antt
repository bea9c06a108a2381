-- ===== src/Ipc/Refine.antt =====
-- A channel behaves as the bounded mailbox of the messages in its ring.
use cellkernelqwen.Prelude.{
  ℕ, suc, ◌≢◌, ◌+◌, ◌-◌, ◌%◌, ◌<◌, ◌≡◌, refl, inl, inr, true, false, none, some, Option, List, [],
  ◌∷◌, ◌++◌, arith, ap, ap₂, ◌∙◌, sym, length, get_or, Bool-cases, ◌==◌, u32, leb, add64,
}
use cellkernelqwen.Prelude.Status.{success}
use cellkernelqwen.Ipc.Channel.{
  Message, Node, Channel, queue_size, magic, next_index, node_at, is_good, refresh_quota,
  store_message, enqueue, spend_quota, send, load_message, receive,
}
use cellkernelqwen.Ipc.Window.{message_of, used, window, length-window, window_of_pos, window-set}
use cellkernelqwen.Ipc.Inv.{same_ring, IsValid, IsReady, send-IsValid, receive-IsValid}
use cellkernelqwen.Ipc.Ready.{same_nodes, send-IsReady, receive-IsReady}
use cellkernelqwen.Ipc.Spec
use cellkernelqwen.Ipc.Spec.{
  Mailbox, capacity, refuse, renew, put, post, take_from, fetch, Op, sends, receives, limits, Reply,
}

abbrev pub view : Channel → Mailbox
view c = record {
  queue = window c.nodes c.head (used c.head c.tail);
  limit = c.rate_limit;
  quota = c.quota_remaining;
  reset_time = c.quota_reset_time;
  sent = c.messages_sent;
  received = c.messages_received;
  dropped = c.messages_dropped;
}

-- A good slot holds a node with the mark.
pub node_of_good :
    (o : Option Node) → is_good o ≡ true → (n : Node) × (o ≡ some n) × ((n.mark == magic) ≡ true)
node_of_good none h = cc
node_of_good (some n) h = (n, refl, h)

module _ (now : ℕ) (m : Message) where
  store_message_lem :
      {c : Channel} (n : Node)
      → IsValid c
      → next_index c.tail ≢ c.head
      → (n.mark == magic) ≡ true
      → view (store_message now c m (some n)).1
        ≡ record (view c) { queue = (view c).queue ++ (m ∷ []); sent = add64 c.messages_sent 1 }
  unfolding store_message
  store_message_lem {c} n v room hit =
      let k = used c.head c.tail in
      let slot : Option Node = some (record n { message = m; timestamp = now }) in
      let grown : used c.head (next_index c.tail) ≡ suc k = omega arith in
      let longer =
        window-set c.nodes slot k c.head (u32 c.tail) v.slots v.head_in (omega arith)
          (omega arith) in
      rw (hit, grown)
        (ap (λ q. record (view c) { queue = q; sent = add64 c.messages_sent 1 }) longer)

  store_message-success :
      (c : Channel) (n : Node)
      → (n.mark == magic) ≡ true
      → (store_message now c m (some n)).0 ≡ success
  unfolding store_message
  store_message-success c n hit = rw hit

  enqueue_refines :
      {c : Channel}
      → IsValid c
      → IsReady c
      → let (s, c') = enqueue now c m in (s, view c') ≡ Spec.deliver (view c) m
  unfolding enqueue Spec.deliver
  enqueue_refines {c} v r = elim (Bool-cases (next_index c.tail == c.head)) [
    | inl full ↦
        let e : (length (view c).queue == capacity) ≡ true =
          ground (arith, length-window c.nodes c.head (used c.head c.tail)) in
        rw (full, e)
    | inr room ↦
        let (n, found, hit) =
          node_of_good (node_at c.nodes c.tail) (r.good (u32 c.tail) (omega (arith, v.tail_in))) in
        let e : (length (view c).queue == capacity) ≡ false =
          ground (arith, length-window c.nodes c.head (used c.head c.tail)) in
        rw (room, e, found)
          (ap₂ (λ s b. (s, b)) (store_message-success c n hit)
            (store_message_lem n v (ground arith) hit))
  ]

  spend_quota_refines :
      {c : Channel}
      → IsValid c
      → IsReady c
      → let (s, c') = spend_quota now c m in (s, view c') ≡ Spec.put (view c) m
  unfolding spend_quota Spec.put
  spend_quota_refines {c} v r = elim (Bool-cases (c.quota_remaining == 0)) [
    | inl spent ↦ rw spent
    | inr left ↦ rw left (enqueue_refines (same_ring v (refl, refl, refl)) (same_nodes r refl))
  ]

  -- `ipc_send` returns the status of `Spec.post` and leaves the channel holding its mailbox: the
  -- quota is renewed when its window is over, an empty quota gives CK_ERROR_BUSY, a full ring
  -- CK_ERROR_OVERFLOW, each counted as dropped, and otherwise the message goes behind the others.
  -- The channel is well formed and all its nodes were allocated.
  pub send_refines :
      {c : Channel}
      → IsValid c
      → IsReady c
      → let (s, c') = send now c m in (s, view c') ≡ Spec.post now (view c) m
  unfolding send refresh_quota Spec.post Spec.renew
  send_refines {c} v r = elim (Bool-cases (leb c.quota_reset_time now)) [
    | inl over ↦ rw over (spend_quota_refines (same_ring v (refl, refl, refl)) (same_nodes r refl))
    | inr within ↦ rw within (spend_quota_refines v r)
  ]

head_good :
    {c : Channel} → IsValid c → 0 < used c.head c.tail → is_good (node_at c.nodes c.head) ≡ true
head_good {c} v some_used =
    let at : u32 c.head ≡ (c.head + 0) % queue_size = omega arith in rw at (v.filled 0 some_used)

take_from_cons :
    (b : Mailbox) (q rest : List Message) (m : Message)
    → q ≡ m ∷ rest
    → Spec.take_from b q
      ≡ (success, some m, record b { queue = rest; received = add64 b.received 1 })
unfolding Spec.take_from
take_from_cons b q rest m e = rw e

load_message_lem :
    {c : Channel} (n : Node)
    → IsValid c
    → 0 < used c.head c.tail
    → node_at c.nodes c.head ≡ some n
    → (n.mark == magic) ≡ true
    → let (s, out, c') = load_message c (some n) in (s, out, view c') ≡ Spec.fetch (view c)
unfolding load_message Spec.fetch
load_message_lem {c} n v some_used found hit =
    let k = used c.head c.tail in
    let fewer : used (next_index c.head) c.tail ≡ k - 1 = omega arith in
    let stepped : next_index c.head ≡ (c.head + 1) % queue_size = omega arith in
    let here : get_or c.nodes c.head none ≡ some n =
      ap (λ i. get_or c.nodes i none) (omega arith) ∙ found in
    let front : window c.nodes c.head k ≡ n.message ∷ window c.nodes (next_index c.head) (k - 1) =
      window_of_pos c.nodes c.head k some_used
      ∙ ap₂ ◌∷◌ (ap message_of here) (ap (λ i. window c.nodes i (k - 1)) (sym stepped)) in
    rw (hit, fewer) (sym (take_from_cons (view c) _ _ n.message front))

-- `ipc_receive` returns the status and the message of `Spec.fetch` and leaves the channel holding
-- the rest: an empty ring gives CK_ERROR_NOT_FOUND, any other its oldest message. So on a
-- well-formed channel it never returns CK_ERROR.
pub receive_refines :
    {c : Channel}
    → IsValid c
    → let (s, out, c') = receive c in (s, out, view c') ≡ Spec.fetch (view c)
unfolding receive Spec.fetch Spec.take_from
receive_refines {c} v = elim (Bool-cases (u32 c.head == u32 c.tail)) [
  | inl empty ↦ let none_used : used c.head c.tail ≡ 0 = ground arith in rw (empty, none_used)
  | inr more ↦
      let some_used : 0 < used c.head c.tail = ground arith in
      let (n, found, hit) = node_of_good (node_at c.nodes c.head) (head_good v some_used) in
      rw (more, found) (load_message_lem n v some_used found hit)
]

-- A client's calls on a channel, in order, with what each returns.
unfoldable pub run : Channel → List Op → List Reply
run c [] = []
run c (sends now m ∷ ops) = let (s, c') = send now c m in (s, none) ∷ run c' ops
run c (receives ∷ ops) = let (s, out, c') = receive c in (s, out) ∷ run c' ops
run c (limits n ∷ ops) = run (record c { rate_limit = n }) ops

-- No sequence of sends, receives and changes of the rate limit tells a well-formed channel, all of
-- whose nodes were allocated, from the bounded mailbox of its messages.
pub run_refines :
    (ops : List Op) {c : Channel} → IsValid c → IsReady c → run c ops ≡ Spec.run (view c) ops
unfolding run Spec.run
run_refines [] v r = refl
run_refines (sends now m ∷ ops) v r =
    rw (run_refines ops (send-IsValid now m v) (send-IsReady now m v r), ← send_refines now m v r)
run_refines (receives ∷ ops) v r =
    rw (run_refines ops (receive-IsValid v) (receive-IsReady r), ← receive_refines v)
run_refines (limits n ∷ ops) v r =
    run_refines ops (same_ring v (refl, refl, refl)) (same_nodes r refl)
