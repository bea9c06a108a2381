-- ===== src/Ipc/Channel.antt =====
-- The data of kernel/ipc/message.c, `ipc_send`, `ipc_receive` and the accessors.
use cellkernelqwen.Prelude.{
  ℕ, ◌+◌, ◌-◌, ◌%◌, Bool, true, false, Option, none, some, List, leb, ◌==◌, if◌then◌else◌, get_or,
  set, u32, add64,
}
use cellkernelqwen.Prelude.Status.{
  ℤ, success, error, error_invalid_arg, error_no_memory, error_not_found, error_busy,
  error_overflow,
}

abbrev pub queue_size : ℕ
queue_size = 1024

abbrev pub magic : ℕ
magic = 0xCAFEBABE

-- `ipc_message_t`
pub record Message : Type 0 where
  pub sender : ℕ
  pub receiver : ℕ
  pub type : ℕ
  pub flags : ℕ
  pub data_size : ℕ
  pub bytes : List ℕ

-- `ipc_node_t`, with the address that `kmalloc` gave it. The field `next` is never used.
pub record Node : Type 0 where
  pub at : ℕ
  pub message : Message
  pub timestamp : ℕ
  pub mark : ℕ

-- `ipc_channel_t`, with its address. A node pointer that is NULL is `none`.
pub record Channel : Type 0 where
  pub at : ℕ
  pub sender_id : ℕ
  pub receiver_id : ℕ
  pub head : ℕ
  pub tail : ℕ
  pub nodes : List (Option Node)
  pub messages_sent : ℕ
  pub messages_received : ℕ
  pub messages_dropped : ℕ
  pub rate_limit : ℕ
  pub quota_remaining : ℕ
  pub quota_reset_time : ℕ
  pub flags : ℕ
  pub refcount : ℕ

abbrev pub next_index : ℕ → ℕ
next_index i = u32 (u32 i + 1) % queue_size

abbrev pub node_at : List (Option Node) → ℕ → Option Node
node_at nodes i = get_or nodes (u32 i) none

-- The test `node && node->magic == IPC_MAGIC`.
abbrev pub is_good : Option Node → Bool
is_good none = false
is_good (some n) = n.mark == magic

abbrev pub drop_message : Channel → Channel
drop_message c = record c { messages_dropped = add64 c.messages_dropped 1 }

-- The rate limit's window: past its end the quota is filled again.
unfoldable pub refresh_quota : ℕ → Channel → Channel
refresh_quota now c =
    if leb c.quota_reset_time now
    then record c { quota_remaining = c.rate_limit; quota_reset_time = add64 now 1000 }
    else c

-- The copy into the slot, then the new tail.
unfoldable pub store_message : ℕ → Channel → Message → Option Node → ℤ × Channel
store_message now c m none = (error_no_memory, c)
store_message now c m (some n) =
    if n.mark == magic
    then (
      success,
      record c {
        nodes = set c.nodes (u32 c.tail) (some (record n { message = m; timestamp = now }));
        tail = next_index c.tail;
        messages_sent = add64 c.messages_sent 1;
      },
    )
    else (error_no_memory, c)

unfoldable pub enqueue : ℕ → Channel → Message → ℤ × Channel
enqueue now c m =
    if next_index c.tail == c.head
    then (error_overflow, drop_message c)
    else store_message now c m (node_at c.nodes c.tail)

unfoldable pub spend_quota : ℕ → Channel → Message → ℤ × Channel
spend_quota now c m =
    if c.quota_remaining == 0
    then (error_busy, drop_message c)
    else enqueue now (record c { quota_remaining = c.quota_remaining - 1 }) m

-- What `ipc_send` does with a channel and a message.
unfoldable pub send : ℕ → Channel → Message → ℤ × Channel
send now c m = spend_quota now (refresh_quota now c) m

unfoldable pub ipc_send : ℕ → Option Channel → Option Message → ℤ × Option Channel
ipc_send now none m = (error_invalid_arg, none)
ipc_send now (some c) none = (error_invalid_arg, some c)
ipc_send now (some c) (some m) = let (s, c') = send now c m in (s, some c')

-- The copy out of the slot, then the new head. The message goes through the second argument.
unfoldable pub load_message : Channel → Option Node → ℤ × Option Message × Channel
load_message c none = (error, none, c)
load_message c (some n) =
    if n.mark == magic
    then (
      success,
      some n.message,
      record c { head = next_index c.head; messages_received = add64 c.messages_received 1 },
    )
    else (error, none, c)

-- What `ipc_receive` does with a channel and a buffer.
unfoldable pub receive : Channel → ℤ × Option Message × Channel
receive c =
    if u32 c.head == u32 c.tail
    then (error_not_found, none, c)
    else load_message c (node_at c.nodes c.head)

-- `has_buffer` is the test `msg != NULL`.
unfoldable pub ipc_receive : Option Channel → Bool → ℤ × Option Message × Option Channel
ipc_receive none has_buffer = (error_invalid_arg, none, none)
ipc_receive (some c) false = (error_invalid_arg, none, some c)
ipc_receive (some c) true = let (s, out, c') = receive c in (s, out, some c')

unfoldable pub ipc_set_rate_limit : Option Channel → ℕ → Option Channel
ipc_set_rate_limit none limit = none
ipc_set_rate_limit (some c) limit = some (record c { rate_limit = limit })

-- The three counters as the caller's variables get them, each cast to `uint64_t`.
unfoldable pub ipc_get_stats : Option Channel → Option (ℕ × ℕ × ℕ)
ipc_get_stats none = none
ipc_get_stats (some c) = some (c.messages_sent, c.messages_received, c.messages_dropped)
