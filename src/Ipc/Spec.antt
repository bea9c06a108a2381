-- ===== src/Ipc/Spec.antt =====
-- What a channel of kernel/ipc/message.c promises: a bounded mailbox, oldest message first, with
-- a sending quota that is filled again when its window ends.
use cellkernelqwen.Prelude.{
  ℕ, ◌-◌, Option, none, some, List, [], ◌∷◌, ◌++◌, leb, ◌==◌, if◌then◌else◌, length, add64,
}
use cellkernelqwen.Prelude.Status.{ℤ, success, error_not_found, error_busy, error_overflow}
use cellkernelqwen.Ipc.Channel.{Message}

-- One slot of the ring stays empty.
abbrev pub capacity : ℕ
capacity = 1023

pub record Mailbox : Type 0 where
  pub queue : List Message
  pub limit : ℕ
  pub quota : ℕ
  pub reset_time : ℕ
  pub sent : ℕ
  pub received : ℕ
  pub dropped : ℕ

abbrev pub refuse : Mailbox → Mailbox
refuse b = record b { dropped = add64 b.dropped 1 }

unfoldable pub renew : ℕ → Mailbox → Mailbox
renew now b =
    if leb b.reset_time now then record b { quota = b.limit; reset_time = add64 now 1000 } else b

-- A message for which the quota was spent.
unfoldable pub deliver : Mailbox → Message → ℤ × Mailbox
deliver b m =
    if length b.queue == capacity
    then (error_overflow, refuse b)
    else (success, record b { queue = b.queue ++ (m ∷ []); sent = add64 b.sent 1 })

unfoldable pub put : Mailbox → Message → ℤ × Mailbox
unfolding deliver
put b m =
    if b.quota == 0 then (error_busy, refuse b) else deliver (record b { quota = b.quota - 1 }) m

unfoldable pub post : ℕ → Mailbox → Message → ℤ × Mailbox
unfolding put renew
post now b m = put (renew now b) m

unfoldable pub take_from : Mailbox → List Message → ℤ × Option Message × Mailbox
take_from b [] = (error_not_found, none, b)
take_from b (m ∷ rest) = (success, some m, record b { queue = rest; received = add64 b.received 1 })

unfoldable pub fetch : Mailbox → ℤ × Option Message × Mailbox
unfolding take_from
fetch b = take_from b b.queue

-- A client's calls, and what each returns.
pub data Op : Type 0 where
  sends : ℕ → Message → Op
  receives : Op
  limits : ℕ → Op

abbrev pub Reply : Type 0
Reply = ℤ × Option Message

unfoldable pub run : Mailbox → List Op → List Reply
unfolding post fetch
run b [] = []
run b (sends now m ∷ ops) = let (s, b') = post now b m in (s, none) ∷ run b' ops
run b (receives ∷ ops) = let (s, out, b') = fetch b in (s, out) ∷ run b' ops
run b (limits n ∷ ops) = run (record b { limit = n }) ops
