-- ===== src/Ipc/Threads.antt =====
-- `ipc_send` and `ipc_receive` as the separate accesses to the shared ring that other threads see:
-- a producer reads tail and head, writes the node, stores the new tail; a consumer reads head and
-- tail, copies the node, stores the new head. Quota and counters are not part of the ring.
use cellkernelqwen.Prelude.{
  ℕ, ◌≡◌, true, false, some, List, [], ◌∷◌, ◌++◌, ◌==◌, if◌then◌else◌, set, u32,
}
use cellkernelqwen.Ipc.Channel.{Message, Node, Channel, next_index, node_at, is_good}

-- Where a producer stands: after the test for room, with the tail that it read, or after the copy.
pub data Producer : Type 0 where
  idle : Producer
  reserved : ℕ → Message → Producer
  written : ℕ → Message → Producer

-- Where the consumer stands: after the test for a message, or after the copy.
pub data Consumer : Type 0 where
  waiting : Consumer
  claimed : ℕ → Consumer
  copied : ℕ → Message → Consumer

-- `sent` and `got` record the messages whose `ipc_send` or `ipc_receive` has stored its index.
pub record World : Type 0 where
  pub chan : Channel
  pub producers : ℕ → Producer
  pub consumer : Consumer
  pub sent : List Message
  pub got : List Message

abbrev pub update : (ℕ → Producer) → ℕ → Producer → ℕ → Producer
update f i p j = if i == j then p else f j

abbrev pub write_slot : ℕ → Message → ℕ → Node → Channel → Channel
write_slot t m now n c = record c {
  nodes = set c.nodes (u32 t) (some (record n { message = m; timestamp = now }));
}

abbrev pub store_tail : ℕ → Channel → Channel
store_tail t c = record c { tail = next_index t }

abbrev pub store_head : ℕ → Channel → Channel
store_head h c = record c { head = next_index h }

-- One access by a thread. The producers are those of which `May` holds.
pub data Step (May : ℕ → Type 0) : World → World → Type 0 where
  reserve :
      (w : World) (i : ℕ) (m : Message)
      → May i
      → w.producers i ≡ idle
      → (next_index w.chan.tail == w.chan.head) ≡ false
      → is_good (node_at w.chan.nodes w.chan.tail) ≡ true
      → Step May w (record w { producers = update w.producers i (reserved w.chan.tail m) })
  write :
      (w : World) (i t now : ℕ) (m : Message) (n : Node)
      → May i
      → w.producers i ≡ reserved t m
      → node_at w.chan.nodes t ≡ some n
      → Step May w (record w {
        chan = write_slot t m now n w.chan;
        producers = update w.producers i (written t m);
      })
  publish :
      (w : World) (i t : ℕ) (m : Message)
      → May i
      → w.producers i ≡ written t m
      → Step May w (record w {
        chan = store_tail t w.chan;
        producers = update w.producers i idle;
        sent = w.sent ++ (m ∷ []);
      })
  claim :
      (w : World)
      → w.consumer ≡ waiting
      → (u32 w.chan.head == u32 w.chan.tail) ≡ false
      → Step May w (record w { consumer = claimed w.chan.head })
  copy :
      (w : World) (h : ℕ) (n : Node)
      → w.consumer ≡ claimed h
      → node_at w.chan.nodes h ≡ some n
      → Step May w (record w { consumer = copied h n.message })
  advance :
      (w : World) (h : ℕ) (m : Message)
      → w.consumer ≡ copied h m
      → Step May w
          (record w { chan = store_head h w.chan; consumer = waiting; got = w.got ++ (m ∷ []) })

pub data Reach (May : ℕ → Type 0) (w : World) : World → Type 0 where
  here : Reach May w w
  next : {u v : World} → Reach May w u → Step May u v → Reach May w v
