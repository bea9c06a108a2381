-- ===== src/Syscalls/Answers.antt =====
-- What `syscall_dispatch` of kernel/core/syscalls.c answers.
use cellkernelqwen.Prelude.{
  ℕ, ◌+◌, ◌*◌, ◌^◌, ◌<◌, ◌≡◌, refl, sym, ap, ◌∙◌, inl, inr, arith, Bool, true, false, ◌&&◌, Option,
  none, some, length, length-set, length-replicate, get_or-set_self, get_or-set_ne,
  get_or-replicate, Bool-cases, ◌==◌, ==→eq, ==→ne, leb, ltb, leb→le, le→leb, le→ltb, lt→ltb,
  ltb→lt, if◌then◌else◌,
}
use Prim.Native.String.{String}
use cellkernelqwen.Prelude.Bits.{bit_and_mask}
use cellkernelqwen.Prelude.Status.{ℤ, pos, error_not_supported}
use cellkernelqwen.Syscalls.Table.{Args, Handler, Table, register_syscall, call, syscall_dispatch}
use cellkernelqwen.Syscalls.Start.{
  empty_table, syscall_init, sys_read, sys_write, sys_exit, sys_getpid, sys_cell_create,
  sys_ipc_send, sys_ipc_recv, write_halves,
}

leb→ltb : (a b : ℕ) → leb b a ≡ false → ltb a b ≡ true
leb→ltb a b h = ground (arith, le→leb b a, lt→ltb a b)

-- After a registration, with the table at its full length, the number that was registered is
-- answered by the new handler, or with CK_ERROR_NOT_SUPPORTED when that is NULL, if it is below
-- 512; every other number is answered as before.
pub syscall_dispatch-register_syscall :
    (nr n : ℕ) (handler : Option Handler) (name : Option String) (args : Args) (t : Table)
    → length t.handlers ≡ 512
    → syscall_dispatch n args (register_syscall nr handler name t).1
      ≡ (if ltb nr 512 && (n == nr) then call handler args else syscall_dispatch n args t)
unfolding syscall_dispatch register_syscall
syscall_dispatch-register_syscall nr n handler name args t len = elim (Bool-cases (leb 512 nr)) [
  | inl big ↦ rw (big, le→ltb nr 512 (leb→le 512 nr big)) refl
  | inr small ↦
      let short = ltb→lt nr 512 (leb→ltb nr 512 small) in
      rw (small, leb→ltb nr 512 small)
        (elim (Bool-cases (n == nr)) [
          | inl e ↦
              rw (e, ==→eq n nr e, small, get_or-set_self t.handlers nr handler none (omega arith))
                refl
          | inr e ↦
              rw (e, get_or-set_ne t.handlers nr n handler none (λ z. ==→ne n nr e (sym z))) refl
        ])
]

-- Both tables stay at their full length.
length-register_syscall :
    (nr : ℕ) (handler : Option Handler) (name : Option String) (t : Table)
    → length (register_syscall nr handler name t).1.handlers ≡ length t.handlers
unfolding register_syscall
length-register_syscall nr handler name t = elim (Bool-cases (leb 512 nr)) [
  | inl e ↦ rw e refl
  | inr e ↦ rw e (length-set t.handlers nr handler)
]

-- What a full table answers, number by number.
abbrev Answers : Table → (ℕ → Args → ℤ) → Type 0
Answers t f =
    (length t.handlers ≡ 512) × ((n : ℕ) (args : Args) → syscall_dispatch n args t ≡ f n args)

abbrev also : ℕ → Handler → (ℕ → Args → ℤ) → ℕ → Args → ℤ
also nr handler f n args = if n == nr then handler args else f n args

Answers-register_syscall :
    (nr : ℕ) (handler : Handler) (name : Option String) (t : Table) (f : ℕ → Args → ℤ)
    → nr < 512
    → Answers t f
    → Answers (register_syscall nr (some handler) name t).1 (also nr handler f)
unfolding call
Answers-register_syscall nr handler name t f h (len, same) = (
  length-register_syscall nr (some handler) name t ∙ len,
  λ n args.
      syscall_dispatch-register_syscall nr n (some handler) name args t len
      ∙ rw (lt→ltb nr 512 h) (ap (λ (z : ℤ). if n == nr then handler args else z) (same n args)),
)

Answers-empty_table : Answers empty_table (λ n args. error_not_supported)
unfolding empty_table syscall_dispatch call
Answers-empty_table = (
  length-replicate {A = Option Handler} 512 none,
  λ n args. elim (Bool-cases (leb 512 n)) [
    | inl e ↦ rw e refl
    | inr e ↦
        rw
          (
            e,
            get_or-replicate {A = Option Handler} 512 n none none (ltb→lt n 512 (leb→ltb n 512 e)),
          )
          refl
  ],
)

-- The number of an exit or of getpid is answered; every other is not supported.
unfoldable pub answer : ℕ → ℤ
answer n = if n == 39 then pos 1 else if n == 60 then pos 0 else error_not_supported

abbrev unless : ℕ → ℕ → ℤ → ℤ
unless n k z = if n == k then error_not_supported else z

either_way : (b : Bool) (z : ℤ) → (if b then z else z) ≡ z
either_way true z = refl
either_way false z = refl

rest_unsupported :
    (n : ℕ)
    → (if n == 39
        then pos 1
        else if n == 60
        then pos 0
        else unless n 1 (unless n 0 error_not_supported))
      ≡ answer n
unfolding answer
rest_unsupported n =
    ap (λ (z : ℤ). if n == 39 then pos 1 else if n == 60 then pos 0 else z)
      (ap (unless n 1) (either_way (n == 0) error_not_supported)
        ∙ either_way (n == 1) error_not_supported)

other_number :
    (n k : ℕ)
    → answer k ≡ error_not_supported
    → (if n == k then error_not_supported else answer n) ≡ answer n
other_number n k h = elim (Bool-cases (n == k)) [
  | inl e ↦ rw (e, ==→eq n k e) (sym h)
  | inr e ↦ rw e refl
]

-- After syscall_init, syscall_dispatch answers exit (60) with 0 and getpid (39) with 1, and every
-- other number, those of read, write, cell_create, ipc_send and ipc_recv among them, with
-- CK_ERROR_NOT_SUPPORTED.
pub syscall_dispatch-syscall_init :
    (n : ℕ) (args : Args) → syscall_dispatch n args syscall_init ≡ answer n
unfolding syscall_init answer sys_read sys_write sys_exit sys_getpid sys_cell_create sys_ipc_send
    sys_ipc_recv
syscall_dispatch-syscall_init n args =
    let read =
      Answers-register_syscall 0 _ (some "read") _ _ (ltb→lt 0 512 refl) Answers-empty_table in
    let write = Answers-register_syscall 1 _ (some "write") _ _ (ltb→lt 1 512 refl) read in
    let exit = Answers-register_syscall 60 _ (some "exit") _ _ (ltb→lt 60 512 refl) write in
    let getpid = Answers-register_syscall 39 _ (some "getpid") _ _ (ltb→lt 39 512 refl) exit in
    let create =
      Answers-register_syscall 300 _ (some "cell_create") _ _ (ltb→lt 300 512 refl) getpid in
    let send = Answers-register_syscall 303 _ (some "ipc_send") _ _ (ltb→lt 303 512 refl) create in
    let recv = Answers-register_syscall 304 _ (some "ipc_recv") _ _ (ltb→lt 304 512 refl) send in
    recv.1 n args
    ∙ ap (unless n 304) (
        ap (unless n 303) (ap (unless n 300) (rest_unsupported n) ∙ other_number n 300 refl)
        ∙ other_number n 303 refl)
    ∙ other_number n 304 refl

-- The two halves that `wrmsr` takes are 32 bits wide and give back the value, below 2^64.
pub write_halves_lem :
    (register value : ℕ)
    → value < 2 ^ 64
    → let w = write_halves register value in
      (w.high * 2 ^ 32 + w.low ≡ value) × (w.low < 2 ^ 32) × (w.high < 2 ^ 32)
unfolding write_halves
write_halves_lem register value h =
    rw (bit_and_mask 32 value) (omega arith, omega arith, omega arith)
