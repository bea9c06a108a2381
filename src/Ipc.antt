-- ===== src/Ipc.antt =====
-- kernel/ipc/message.c: the channel of the lock-free message queue and its operations.
-- Each pointer argument that the C code tests for NULL is an `Option`; `now` is what
-- `get_system_time` returns. The barriers order the writes that the model makes in program order.
pub mod Channel
pub mod Create
pub mod Window
pub mod Inv
pub mod Spec
pub mod Ready
pub mod Refine
pub mod Account
pub mod Lifetime
pub mod Kept
pub mod Threads
pub mod Fifo
pub mod Order
pub mod Race
mod Tests
