-- ===== src/Ipc/Race.antt =====
-- Two producers on one channel, which the comment "Lock-free MPSC queue node" of
-- kernel/ipc/message.c allows: both may read the same tail.
use cellkernelqwen.Prelude.{
  ℕ, suc, ◌-◌, ◌<◌, ◌≡◌, refl, ap, ◌∙◌, false, none, some, Option, List, [], ◌∷◌, ◌++◌, arith, set,
  length-set, get_or-set_self, ◌==◌, u32,
}
use cellkernelqwen.Ipc.Channel.{Message, Node, queue_size, next_index, node_at}
use cellkernelqwen.Ipc.Window.{used, window, window-set, window-set_past}
use cellkernelqwen.Ipc.Inv.{IsValid, IsReady}
use cellkernelqwen.Ipc.Threads.{
  idle, reserved, written, World, update, write_slot, store_tail, reserve, write, publish, Reach,
  here, next,
}
use cellkernelqwen.Ipc.Refine.{node_of_good}
use cellkernelqwen.Ipc.Fifo.{contents}

abbrev pub Any : ℕ → Type 0
Any i = Unit

-- A world as both producers leave it that read the tail before either stored it.
abbrev pub collided : World → Message → Message → ℕ → Node → Node → World
collided w m m' now n n' =
    let t = w.chan.tail in
    record w {
      chan = store_tail t (store_tail t (write_slot t m' now n' (write_slot t m now n w.chan)));
      producers =
          update
            (update
              (update
                (update (update (update w.producers 1 (reserved t m)) 2 (reserved t m')) 1
                  (written t m))
                2 (written t m'))
              1 idle)
            2 idle;
      sent = (w.sent ++ (m ∷ [])) ++ (m' ∷ []);
    }

module _ (w : World) (m m' : Message) (now : ℕ) (v : IsValid w.chan) (r : IsReady w.chan)
    (room : used w.chan.head w.chan.tail < queue_size - 1)
    (free : (w.producers 1 ≡ idle) × (w.producers 2 ≡ idle)) where
  in_ring :
      (u32 w.chan.tail ≡ w.chan.tail) × (w.chan.tail < queue_size) × (w.chan.head < queue_size)
  in_ring = omega (arith, v.tail_in, v.head_in)

  not_full : (next_index w.chan.tail == w.chan.head) ≡ false
  not_full = ground (arith, in_ring)

  module _ (n : Node) (found : node_at w.chan.nodes w.chan.tail ≡ some n) where
    abbrev first : Node
    first = record n { message = m; timestamp = now }

    found_first : node_at (write_slot w.chan.tail m now n w.chan).nodes w.chan.tail ≡ some first
    found_first =
        get_or-set_self w.chan.nodes (u32 w.chan.tail) (some first) none
          (omega (arith, in_ring, v.slots))

    collided_reached : Reach Any w (collided w m m' now n first)
    collided_reached =
        next
          (next
            (next
              (next
                (next
                  (next here (
                    reserve w 1 m tt free.0 not_full
                      (r.good (u32 w.chan.tail) (omega (arith, in_ring)))))
                  (reserve _ 2 m' tt free.1 not_full
                    (r.good (u32 w.chan.tail) (omega (arith, in_ring)))))
                (write _ 1 w.chan.tail now m n tt refl found))
              (write _ 2 w.chan.tail now m' first tt refl found_first))
            (publish _ 1 w.chan.tail m tt refl))
          (publish _ 2 w.chan.tail m' tt refl)

    collided-contents : contents (collided w m m' now n first).chan ≡ contents w.chan ++ (m' ∷ [])
    collided-contents =
        let t = w.chan.tail in
        let h = w.chan.head in
        let k = used h t in
        let one : List (Option Node) = set w.chan.nodes (u32 t) (some first) in
        let second : Option Node = some (record first { message = m'; timestamp = now }) in
        let grown : used h (next_index t) ≡ suc k = omega (arith, in_ring) in
        ap (window (set one (u32 t) second) h) grown
        ∙ window-set one second k h (u32 t) (length-set w.chan.nodes (u32 t) (some first) ∙ v.slots)
            in_ring.2 room (omega (arith, in_ring))
        ∙ ap (λ q. q ++ (m' ∷ []))
            (window-set_past w.chan.nodes (some first) k h (u32 t) in_ring.2 (omega arith)
              (omega (arith, in_ring)))

  -- Two producers lose a message: from any world whose channel is well formed, has all its nodes
  -- and room for one message more, and in which two producers are idle, an interleaving leads to a
  -- world in which both sends have ended, and both messages count as sent, but of the two only the
  -- second stands in the ring.
  pub race_loses :
      (u : World) × Reach Any w u
      × (u.sent ≡ (w.sent ++ (m ∷ [])) ++ (m' ∷ []))
      × (contents u.chan ≡ contents w.chan ++ (m' ∷ []))
      × (u.producers 1 ≡ idle)
      × (u.producers 2 ≡ idle)
  race_loses =
      let (n, found, hit) =
        node_of_good (node_at w.chan.nodes w.chan.tail)
          (r.good (u32 w.chan.tail) (omega (arith, in_ring))) in
      (
        collided w m m' now n (record n { message = m; timestamp = now }),
        collided_reached n found,
        refl,
        collided-contents n found,
        refl,
        refl,
      )
