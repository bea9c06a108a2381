-- ===== src/Ipc/Fifo.antt =====
-- One producer and one consumer: the ring is a queue under every interleaving.
use cellkernelqwen.Prelude.{
  ℕ, ◌+◌, ◌-◌, ◌%◌, ◌<◌, ◌≡◌, refl, sym, ap, ◌∙◌, true, false, none, some, Option, List, ◌++◌,
  arith, get_or, set, length, length-set, get_or-set_self, get_or-set_ne, ◌==◌, u32,
}
use cellkernelqwen.Ipc.Channel.{
  Message, Node, Channel, queue_size, magic, next_index, node_at, is_good,
}
use cellkernelqwen.Ipc.Window.{message_of, used, window, window-set_past}
use cellkernelqwen.Ipc.Inv.{IsValid, IsReady}
use cellkernelqwen.Ipc.Ready.{good-set}
use cellkernelqwen.Ipc.Threads.{
  Producer, idle, reserved, written, Consumer, waiting, claimed, copied, World, update, write_slot,
}

abbrev pub contents : Channel → List Message
contents c = window c.nodes c.head (used c.head c.tail)

-- A producer past its test holds the tail, there is room, and its slot holds a node, with its
-- message once it was written.
abbrev pub Producing : Channel → Producer → Type 0
Producing c idle = Unit
Producing c (reserved t m) = (t ≡ c.tail) × (used c.head c.tail < queue_size - 1)
Producing c (written t m) =
    (t ≡ c.tail)
    × (used c.head c.tail < queue_size - 1)
    × (is_good (get_or c.nodes c.tail none) ≡ true)
    × (message_of (get_or c.nodes c.tail none) ≡ m)

-- A consumer past its test holds the head, and there is a message, the one that it copied.
abbrev pub Consuming : Channel → Consumer → Type 0
Consuming c waiting = Unit
Consuming c (claimed h) = (h ≡ c.head) × (0 < used c.head c.tail)
Consuming c (copied h m) =
    (h ≡ c.head) × (0 < used c.head c.tail) × (message_of (get_or c.nodes c.head none) ≡ m)

pub record IsOrdered (w : World) : Type 0 where
  pub ring : IsValid w.chan
  pub ready : IsReady w.chan
  pub order : w.sent ≡ w.got ++ contents w.chan
  pub producing : Producing w.chan (w.producers 0)
  pub consuming : Consuming w.chan w.consumer

abbrev pub First : ℕ → Type 0
First i = i ≡ 0

pub update-First : (f : ℕ → Producer) (i : ℕ) (p : Producer) → First i → update f i p 0 ≡ p
update-First f i p e = rw e

-- The producer that moves is the one of the invariant.
pub First-is : (f : ℕ → Producer) (i : ℕ) {p : Producer} → First i → f i ≡ p → f 0 ≡ p
First-is f i e h = rw e at h

pub IsValid-of_ready :
    {c : Channel}
    → length c.nodes ≡ queue_size
    → c.head < queue_size
    → c.tail < queue_size
    → IsReady c
    → IsValid c
IsValid-of_ready {c} len h t r = record {
  slots = len;
  head_in = h;
  tail_in = t;
  filled = λ k below. r.good ((c.head + k) % queue_size) (omega arith);
}

pub reserve-IsOrdered :
    (w : World) (i : ℕ) (m : Message)
    → First i
    → (next_index w.chan.tail == w.chan.head) ≡ false
    → IsOrdered w
    → IsOrdered (record w { producers = update w.producers i (reserved w.chan.tail m) })
reserve-IsOrdered w i m e room o = record {
  ring = o.ring;
  ready = o.ready;
  order = o.order;
  producing =
      let t = o.ring.tail_in in
      let h = o.ring.head_in in
      rw (update-First w.producers i (reserved w.chan.tail m) e) (refl, ground arith);
  consuming = o.consuming;
}

module _ (w : World) (t now : ℕ) (m : Message) (n : Node) (o : IsOrdered w)
    (found : node_at w.chan.nodes t ≡ some n) (p : Producing w.chan (reserved t m)) where
  abbrev slot : Option Node
  slot = some (record n { message = m; timestamp = now })

  in_ring : (u32 t ≡ w.chan.tail) × (w.chan.tail < queue_size)
  in_ring = omega (arith, p, o.ring.tail_in)

  hit : (n.mark == magic) ≡ true
  hit = rw found at (o.ready.good (u32 t) (omega (arith, in_ring)))

  write-IsReady : IsReady (write_slot t m now n w.chan)
  write-IsReady = record { good = λ i h. good-set now m n o.ready o.ring.slots hit (u32 t) i h }

  write-contents : contents (write_slot t m now n w.chan) ≡ contents w.chan
  write-contents =
      let tail_in = o.ring.tail_in in
      let head_in = o.ring.head_in in
      window-set_past w.chan.nodes slot (used w.chan.head w.chan.tail) w.chan.head (u32 t) head_in
        (omega arith) (omega (arith, in_ring))

  write-Consuming : (k : Consumer) → Consuming w.chan k → Consuming (write_slot t m now n w.chan) k
  write-Consuming waiting h = h
  write-Consuming (claimed h) k = k
  write-Consuming (copied h m') (e, pos, is) = (
    e,
    pos,
    ap message_of (
          get_or-set_ne w.chan.nodes (u32 t) w.chan.head slot none
            (omega (arith, in_ring, o.ring.head_in)))
        ∙ is,
  )

  written_back : get_or (set w.chan.nodes (u32 t) slot) (u32 t) none ≡ slot
  written_back =
      get_or-set_self w.chan.nodes (u32 t) slot none (omega (arith, in_ring, o.ring.slots))

  pub write-IsOrdered :
      (i : ℕ)
      → First i
      → IsOrdered (record w {
        chan = write_slot t m now n w.chan;
        producers = update w.producers i (written t m);
      })
  write-IsOrdered i e = record {
    ring =
        IsValid-of_ready (length-set w.chan.nodes (u32 t) slot ∙ o.ring.slots) o.ring.head_in
          o.ring.tail_in write-IsReady;
    ready = write-IsReady;
    order = o.order ∙ ap (λ q. w.got ++ q) (sym write-contents);
    producing =
        rw (update-First w.producers i (written t m) e)
          (p.0, p.1, rw (← in_ring.0, written_back) hit, rw (← in_ring.0, written_back));
    consuming = write-Consuming w.consumer o.consuming;
  }
