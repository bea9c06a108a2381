-- ===== src/Lib.antt =====
-- CellKernel: a verification library for the kernel's C code.
--
-- The program is a small microkernel. The boot loader checks the kernel image (boot/secure) and hands
-- over to `kernel_main` (kernel/core/main.c), which calls the initialisation functions of the
-- subsystems. The kernel's parts are the physical frame allocator, the slab allocator and paging
-- (kernel/memory), the scheduler, interrupts, system calls and the report of a panic (kernel/core),
-- message passing (kernel/ipc) and the virtual file system (filesystems/vfs). Paging and the slabs take
-- their pages from the frame allocator; channels and threads take their memory from `kmalloc`, which
-- is the interface Allocator here and which Kernel/NoMemory fills with the slab allocator.
-- Each C function that changes state is a function here that takes the state and returns the new
-- one beside its result; a pointer that the code tests for NULL is an `Option` or an address with 0
-- for NULL; unsigned words are natural numbers with their wrap-around written out.
--
-- Prelude: the shared names, lists as arrays, words, the laws of bit operations, status codes.
-- Allocator: the interface by which clients reach `kmalloc` and `kfree`.
-- Ipc: kernel/ipc/message.c. Ipc/Channel has `ipc_send`, `ipc_receive` and the accessors, Ipc/Create
--   `ipc_channel_create` and `ipc_channel_destroy` over any allocator. Ipc/Spec is the bounded mailbox
--   that a channel promises, Ipc/Inv and Ipc/Ready the invariants, Ipc/Refine the refinement,
--   Ipc/Account the counters and the rate limit, Ipc/Lifetime and Ipc/Kept creation and what
--   the calls leave. Ipc/Threads has the single accesses of concurrent senders and receivers, Ipc/Fifo and
--   Ipc/Order one producer with one consumer, Ipc/Race two producers. The barriers are taken to order
--   the accesses as written; `ipc_subsystem_init` and the table of channels are in Ipc/Create. The
--   copy of 4096 bytes is the copy of one message value.
-- Secure: boot/secure/verify_signature.c. Secure/Sha512 and Secure/Constants are SHA-512 as written
--   there, Secure/Stream and Secure/Update compare its streaming interface with one byte at a time,
--   Secure/Hash gives the message that is compressed and Secure/Standard its padding beside the
--   standard's. Secure/Verify is the signature check, Secure/Check what it accepts. Lengths are those
--   of lists, so `kernel_size` below 2^64 is not stated; `absorb_blocks` runs on the length of the
--   input as fuel, of which each round needs one and takes 128 bytes.
-- Frames: kernel/memory/frame_alloc.c. Frames/Zone has the zones and `get_buddy`, Frames/Init
--   `frame_allocator_init`, Frames/Alloc and Frames/Free the two requests; the recursion and the loop
--   run on the orders that are left, 12 at most. A free block's link is read and written in a memory
--   from addresses to words. Frames/Buddy is the arithmetic of buddies, Frames/Listed the pages on
--   the lists, Frames/Found, Frames/Account and Frames/First what an allocation does to them,
--   Frames/Merge the merging of buddies, Frames/Requests, Frames/Exhausted and Frames/Underflow the
--   statements about the whole state. Frames/Bitmap has the bitmap helpers, which nothing calls.
-- Sched: kernel/core/scheduling.c. Sched/Links is the interface of the list operations, with their
--   documented effect on the members of a queue as laws, Sched/Queue the run queue of the first CPU
--   and the operations on it. The spinlock is left out: each operation is one step. Sched/Bitmap
--   checks the arithmetic of the bitmap over its 32 values, Sched/Pick is the choice of a thread,
--   Sched/Moves, Sched/Switch, Sched/Stays and Sched/Start the operations. Sched/Create has threads in
--   the memory of any allocator and `scheduler_init`, Sched/Idle the idle thread and Sched/Made what
--   they do.
-- Syscalls: kernel/core/syscalls.c. Syscalls/Table is the table with `register_syscall` and
--   `syscall_dispatch`, Syscalls/Start the handlers, `syscall_init` and the registers that it writes,
--   Syscalls/Answers what is answered. A handler is a function of the six argument registers.
-- Interrupts: kernel/core/interrupts.c. Interrupts/Idt is the descriptor table, Interrupts/Irq the
--   dispatch of requests, Interrupts/Gates and Interrupts/Calls what they do. Port writes are a list
--   of bytes; the assembly that remaps the controllers is not modelled.
-- Vfs: filesystems/vfs/vfs_core.c. Vfs/Files has the open files and the operations on them, Vfs/Mounts
--   the types and the mount points, Vfs/Descriptors, Vfs/Bare and Vfs/Types what they do. Texts are
--   lists of bytes without the final NUL. Operations of a file system are functions that the caller
--   supplies, and a type is registered once.
-- Tpm: boot/secure/tpm_measure.c. Tpm/Device has the register accesses, with a device that answers
--   the read number n of each register, and the loops, which end after a million reads as in the
--   source; Tpm/Commands has the commands, Tpm/Missing what happens without a TPM and while waiting.
--   `tpm_get_random` is modelled for sizes that stay inside its response buffer.
-- Paging: kernel/memory/paging.c. Paging/Tables has the page tables as a store by address and number,
--   over a `Platform` with the frame allocator and the conversions of addresses, which the repository
--   only declares; Paging/Start has `paging_init` and `enable_paging`. Paging/Lookup is the translation
--   of an address, the promise `IsSound` on frames, and the tree that the tables form, Paging/Entries the
--   arithmetic of entries. Paging/Grow, Paging/Descend and Paging/Leaf are the new table, the step of a
--   walk and the write of an entry, Paging/Map, Paging/Unmap and Paging/Identity the operations.
--   Paging/NoFrames is paging over the frame allocator of Frames, Paging/Pool the pages that it lists
--   and Paging/Given the proof that it keeps the promise `IsSound`, with which Paging/Program has
--   `map_page` over it. Loops run on the number of pages.
--
-- Slab: kernel/memory/slab.c over the frame allocator of Frames. Slab/Cache has the caches, the slab
--   descriptors and `slab_init`, Slab/Lists the links of the lists of slabs and the search, which ends
--   after 2^36 slabs, as many as there are pages below 2^48; Slab/Alloc, Slab/Free and Slab/General are
--   the operations. The loop over the orders of pages runs on the 64 orders that a word can be shifted
--   by. Slab/Order is that loop, Slab/Classes the choice of a cache, Slab/Chain the free objects of a
--   slab, Slab/Taken and Slab/Back an allocation and its return, Slab/Layout the caches and where the
--   objects end, Slab/Overrun what they overwrite,
--   Slab/Lost and Slab/Pages what is not given back.
--
-- Kernel: kernel/core/main.c. Kernel/Console is the serial output, as events with the literals named
--   and not spelled, Kernel/Start `kernel_main` up to the idle loop, Kernel/Hex the printed numbers,
--   Kernel/Calls the initialisation functions that are called and reported. The loops run on the
--   16 digits and on the number of descriptors. Kernel/NoMemory is the slab allocator as the allocator
--   of message channels, Kernel/Leak what a destroyed channel keeps.
-- Panic: kernel/core/panic.c. Panic/Dump is the crash dump, Panic/Report what is printed, with the
--   labels of registers by number, and `kernel_panic` as steps, Panic/Message the message in the
--   dump, Panic/Steps the faults between them and
--   a call that none meets, Panic/Kept and Panic/First what stays of a panic when others follow.
--
-- Not modelled: `assert_fail` (kernel/core/panic.c), the boot loaders, which are sequences of firmware
-- calls (boot/efi, CellKernel/boot/efi), the assembly of boot/bios and boot/multiboot, and the Python
-- prototype in Cellkernelqwen, which the kernel does not use.
pub mod Prelude
pub mod Allocator
pub mod Ipc
pub mod Secure
pub mod Frames
pub mod Sched
pub mod Syscalls
pub mod Interrupts
pub mod Vfs
pub mod Tpm
pub mod Paging
pub mod Slab
pub mod Kernel
pub mod Panic
