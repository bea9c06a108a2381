-- ===== src/Vfs/Descriptors.antt =====
-- The descriptors that filesystems/vfs/vfs_core.c gives out.
use cellkernelqwen.Prelude.{
  ℕ, suc, ◌+◌, ◌^◌, ◌≤◌, ◌≡◌, refl, ap, ◌∙◌, inl, inr, arith, List, [], ◌∷◌, get_or, Bool-cases,
  ltb, leb, ltb→lt, ltb→le, lt→ltb, le→ltb, le→leb, lt→leb, if◌then◌else◌, u32, add64, min,
}
use cellkernelqwen.Prelude.Status.{ℤ, pos, negsuc, error_no_memory}
use cellkernelqwen.Vfs.Files.{
  Files, zero_file, init_files, int_of, alloc_fd, free_fd, open_file, vfs_open, vfs_close,
  drop_reference, is_positive,
}

-- The calls that change the table.
pub data Op : Type 0 where
  open_op : ℕ → Op
  close_op : ℤ → Op

unfoldable pub step : Op → Files → Files
step (open_op flags) s = (vfs_open flags s).1
step (close_op fd) s = (vfs_close fd s).1

unfoldable pub run : List Op → Files → Files
run [] s = s
run (op ∷ ops) s = run ops (step op s)

unfoldable pub opens : List Op → ℕ
opens [] = 0
opens (open_op flags ∷ ops) = suc (opens ops)
opens (close_op fd ∷ ops) = opens ops

next_fd-alloc_fd :
    (s : Files) → s.next_fd ≤ 4095 → (alloc_fd s).1.next_fd ≡ min 4095 (suc s.next_fd)
unfolding alloc_fd
next_fd-alloc_fd s h = elim (Bool-cases (ltb s.next_fd 4095)) [
  | inl e ↦
      let short = ltb→lt s.next_fd 4095 e in
      rw (lt→leb 4096 (u32 (add64 s.next_fd 1)) (omega arith)) (omega arith)
  | inr e ↦
      let full = ltb→le s.next_fd 4095 e in
      rw
        (
          le→leb 4096 (u32 (add64 s.next_fd 1)) (omega arith),
          lt→ltb (u32 (add64 s.next_fd 1)) (2 ^ 31) (omega arith),
        )
        (omega arith)
]

fd-alloc_fd :
    (s : Files)
    → s.next_fd ≤ 4095
    → (alloc_fd s).0 ≡ (if ltb s.next_fd 4095 then pos (suc s.next_fd) else error_no_memory)
unfolding alloc_fd int_of
fd-alloc_fd s h = elim (Bool-cases (ltb s.next_fd 4095)) [
  | inl e ↦
      let short = ltb→lt s.next_fd 4095 e in
      rw
        (
          e,
          lt→leb 4096 (u32 (add64 s.next_fd 1)) (omega arith),
          lt→ltb (u32 (add64 s.next_fd 1)) (2 ^ 31) (omega arith),
        )
        (ap pos (omega arith))
  | inr e ↦
      let full = ltb→le s.next_fd 4095 e in
      rw
        (
          e,
          le→leb 4096 (u32 (add64 s.next_fd 1)) (omega arith),
          lt→ltb (u32 (add64 s.next_fd 1)) (2 ^ 31) (omega arith),
        )
        refl
]

next_fd-open_file : (flags : ℕ) (r : ℤ × Files) → (open_file flags r).1.next_fd ≡ r.1.next_fd
unfolding open_file
next_fd-open_file flags (pos fd, s) = refl
next_fd-open_file flags (negsuc n, s) = refl

fd-open_file : (flags : ℕ) (r : ℤ × Files) → (open_file flags r).0 ≡ r.0
unfolding open_file
fd-open_file flags (pos fd, s) = refl
fd-open_file flags (negsuc n, s) = refl

next_fd-vfs_close : (fd : ℤ) (s : Files) → (vfs_close fd s).1.next_fd ≡ s.next_fd
unfolding vfs_close free_fd drop_reference
next_fd-vfs_close (negsuc n) s = refl
next_fd-vfs_close (pos fd) s = elim (Bool-cases (leb 4096 fd)) [
  | inl e ↦ rw e refl
  | inr e ↦ rw e (elim (Bool-cases (is_positive (get_or s.open_files fd zero_file).refcount)) [
    | inl k ↦ rw k refl
    | inr k ↦ rw k refl
  ])
]

next_fd-run :
    (ops : List Op) (s : Files)
    → s.next_fd ≤ 4095
    → (run ops s).next_fd ≡ min 4095 (s.next_fd + opens ops)
unfolding run opens step vfs_open
next_fd-run [] s h = omega arith
next_fd-run (open_op flags ∷ ops) s h =
    let here = next_fd-open_file flags (alloc_fd s) ∙ next_fd-alloc_fd s h in
    omega (arith, here, next_fd-run ops (open_file flags (alloc_fd s)).1 (omega (arith, here)))
next_fd-run (close_op fd ∷ ops) s h =
    let here = next_fd-vfs_close fd s in
    omega (arith, here, next_fd-run ops (vfs_close fd s).1 (omega (arith, here)))

-- After vfs_init and any calls of vfs_open and vfs_close, vfs_open returns one more than the number
-- of calls of vfs_open so far as long as that is below 4095, and CK_ERROR_NO_MEMORY from then on,
-- whatever was closed.
pub vfs_open-run :
    (ops : List Op) (flags : ℕ)
    → (vfs_open flags (run ops init_files)).0
      ≡ (if ltb (opens ops) 4095 then pos (suc (opens ops)) else error_no_memory)
unfolding vfs_open init_files
vfs_open-run ops flags =
    let reached = next_fd-run ops init_files (omega arith) in
    fd-open_file flags (alloc_fd (run ops init_files))
    ∙ fd-alloc_fd (run ops init_files) (omega (arith, reached))
    ∙ elim (Bool-cases (ltb (opens ops) 4095)) [
      | inl e ↦
          let short = ltb→lt (opens ops) 4095 e in
          rw (e, lt→ltb (run ops init_files).next_fd 4095 (omega (arith, reached)))
            (ap pos (omega (arith, reached)))
      | inr e ↦
          let full = ltb→le (opens ops) 4095 e in
          rw (e, le→ltb (run ops init_files).next_fd 4095 (omega (arith, reached))) refl
    ]
