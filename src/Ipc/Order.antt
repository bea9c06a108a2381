-- ===== src/Ipc/Order.antt =====
-- Every step of one producer and one consumer keeps the order of the messages.
use cellkernelqwen.Prelude.{
  ℕ, suc, ◌+◌, ◌-◌, ◌%◌, ◌<◌, ◌≡◌, refl, sym, ap, ◌∙◌, false, none, some, [], ◌∷◌, ◌++◌,
  append_assoc, arith, get_or, ◌==◌, u32,
}
use cellkernelqwen.Ipc.Channel.{Message, Node, queue_size, next_index, node_at}
use cellkernelqwen.Ipc.Window.{message_of, used, window, window_of_pos, window_snoc}
use cellkernelqwen.Ipc.Ready.{same_nodes}
use cellkernelqwen.Ipc.Threads.{
  Producer, idle, reserved, written, Consumer, waiting, claimed, copied, World, update, store_tail,
  store_head, Step, reserve, write, publish, claim, copy, advance, Reach, here, next,
}
use cellkernelqwen.Ipc.Fifo.{
  contents, Producing, Consuming, IsOrdered, First, update-First, First-is, IsValid-of_ready,
  reserve-IsOrdered, write-IsOrdered,
}

module _ (w : World) (t : ℕ) (m : Message) (o : IsOrdered w)
    (p : Producing w.chan (written t m)) where
  in_ring : (w.chan.tail < queue_size) × (w.chan.head < queue_size)
  in_ring = (o.ring.tail_in, o.ring.head_in)

  store_tail-contents : contents (store_tail t w.chan) ≡ contents w.chan ++ (m ∷ [])
  store_tail-contents =
      let k = used w.chan.head w.chan.tail in
      let grown : used w.chan.head (next_index t) ≡ suc k = omega (arith, in_ring, p.0, p.1) in
      let last : (w.chan.head + k) % queue_size ≡ w.chan.tail = omega (arith, in_ring) in
      ap (window w.chan.nodes w.chan.head) grown
      ∙ window_snoc w.chan.nodes w.chan.head k in_ring.1
      ∙ ap (λ x. contents w.chan ++ (x ∷ []))
          (ap (λ i. message_of (get_or w.chan.nodes i none)) last ∙ p.3)

  store_tail-Consuming : (k : Consumer) → Consuming w.chan k → Consuming (store_tail t w.chan) k
  store_tail-Consuming waiting h = h
  store_tail-Consuming (claimed h) k = (k.0, omega (arith, in_ring, p.0, p.1, k.1))
  store_tail-Consuming (copied h m') k = (k.0, omega (arith, in_ring, p.0, p.1, k.1), k.2)

  publish-IsOrdered :
      (i : ℕ)
      → First i
      → IsOrdered (record w {
        chan = store_tail t w.chan;
        producers = update w.producers i idle;
        sent = w.sent ++ (m ∷ []);
      })
  publish-IsOrdered i e = record {
    ring = IsValid-of_ready o.ring.slots o.ring.head_in (omega arith) (same_nodes o.ready refl);
    ready = same_nodes o.ready refl;
    order =
        ap (λ q. q ++ (m ∷ [])) o.order
        ∙ append_assoc w.got (contents w.chan) (m ∷ [])
        ∙ ap (λ q. w.got ++ q) (sym store_tail-contents);
    producing = rw (update-First w.producers i idle e) tt;
    consuming = store_tail-Consuming w.consumer o.consuming;
  }

claim-IsOrdered :
    (w : World)
    → (u32 w.chan.head == u32 w.chan.tail) ≡ false
    → IsOrdered w
    → IsOrdered (record w { consumer = claimed w.chan.head })
claim-IsOrdered w more o = record {
  ring = o.ring;
  ready = o.ready;
  order = o.order;
  producing = o.producing;
  consuming = let t = o.ring.tail_in in let h = o.ring.head_in in (refl, ground arith);
}

copy-IsOrdered :
    (w : World) (h : ℕ) (n : Node)
    → Consuming w.chan (claimed h)
    → node_at w.chan.nodes h ≡ some n
    → IsOrdered w
    → IsOrdered (record w { consumer = copied h n.message })
copy-IsOrdered w h n k found o = record {
  ring = o.ring;
  ready = o.ready;
  order = o.order;
  producing = o.producing;
  consuming = (k.0, k.1, ap message_of (ap (λ i. get_or w.chan.nodes i none) at ∙ found));
}
  where
    at : w.chan.head ≡ u32 h
    at = omega (arith, k, o.ring.head_in)

module _ (w : World) (h : ℕ) (m : Message) (o : IsOrdered w)
    (k : Consuming w.chan (copied h m)) where
  inside : (w.chan.tail < queue_size) × (w.chan.head < queue_size)
  inside = (o.ring.tail_in, o.ring.head_in)

  store_head-contents : contents w.chan ≡ m ∷ contents (store_head h w.chan)
  store_head-contents =
      let n = used w.chan.head w.chan.tail in
      let fewer : used (next_index h) w.chan.tail ≡ n - 1 = omega (arith, inside, k.0, k.1) in
      let stepped : (w.chan.head + 1) % queue_size ≡ next_index h = omega (arith, inside, k.0) in
      window_of_pos w.chan.nodes w.chan.head n k.1
      ∙ ap (λ x. x ∷ window w.chan.nodes ((w.chan.head + 1) % queue_size) (n - 1)) k.2
      ∙ ap (λ i. m ∷ window w.chan.nodes i (n - 1)) stepped
      ∙ ap (λ j. m ∷ window w.chan.nodes (next_index h) j) (sym fewer)

  store_head-Producing : (q : Producer) → Producing w.chan q → Producing (store_head h w.chan) q
  store_head-Producing idle p = p
  store_head-Producing (reserved t m') p = (p.0, omega (arith, inside, k.0, k.1, p.1))
  store_head-Producing (written t m') p = (p.0, omega (arith, inside, k.0, k.1, p.1), p.2, p.3)

  advance-IsOrdered :
      IsOrdered
        (record w { chan = store_head h w.chan; consumer = waiting; got = w.got ++ (m ∷ []) })
  advance-IsOrdered = record {
    ring = IsValid-of_ready o.ring.slots (omega arith) o.ring.tail_in (same_nodes o.ready refl);
    ready = same_nodes o.ready refl;
    order =
        o.order
        ∙ ap (λ q. w.got ++ q) store_head-contents
        ∙ sym (append_assoc w.got (m ∷ []) (contents (store_head h w.chan)));
    producing = store_head-Producing (w.producers 0) o.producing;
    consuming = tt;
  }

Step-IsOrdered : {w v : World} → Step First w v → IsOrdered w → IsOrdered v
Step-IsOrdered (reserve w i m e at room good) o = reserve-IsOrdered w i m e room o
Step-IsOrdered (write w i t now m n e at found) o =
    write-IsOrdered w t now m n o found (rw (First-is w.producers i e at) at o.producing) i e
Step-IsOrdered (publish w i t m e at) o =
    publish-IsOrdered w t m o (rw (First-is w.producers i e at) at o.producing) i e
Step-IsOrdered (claim w at more) o = claim-IsOrdered w more o
Step-IsOrdered (copy w h n at found) o = copy-IsOrdered w h n (rw at at o.consuming) found o
Step-IsOrdered (advance w h m at) o = advance-IsOrdered w h m o (rw at at o.consuming)

-- With one producer and one consumer, however their accesses interleave, what was sent is what was
-- received followed by what stands in the ring: no message is lost, doubled or reordered, and the
-- ring stays well formed. The starting point is any world in which this holds.
pub Reach-IsOrdered : {w v : World} → IsOrdered w → Reach First w v → IsOrdered v
Reach-IsOrdered o here = o
Reach-IsOrdered o (next r s) = Step-IsOrdered s (Reach-IsOrdered o r)
