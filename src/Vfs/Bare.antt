-- ===== src/Vfs/Bare.antt =====
-- Reading and writing through the descriptors of filesystems/vfs/vfs_core.c.
use cellkernelqwen.Prelude.{
  ℕ, zero, suc, ◌^◌, ◌<◌, ◌≡◌, refl, inl, inr, none, List, [], ◌∷◌, get_or, set, replicate,
  Bool-cases, lt→leb, leb, ltb, u32, add64, ◌&&◌,
}
use cellkernelqwen.Prelude.Status.{ℤ, pos, negsuc, error_not_supported}
use cellkernelqwen.Vfs.Files.{
  File, Files, zero_file, init_files, alloc_fd, free_fd, open_file, vfs_open, vfs_close,
  drop_reference, is_positive, vfs_read, vfs_write, read_with, write_with, max_open_files,
}
use cellkernelqwen.Vfs.Descriptors.{Op, step, run}

-- No file has an inode.
abbrev HasNone : List File → Type 0
HasNone files = (j : ℕ) → (get_or files j zero_file).inode ≡ none

HasNone-set :
    (files : List File) (i : ℕ) (file : File)
    → file.inode ≡ none
    → HasNone files
    → HasNone (set files i file)
HasNone-set [] i file e h j = h j
HasNone-set (x ∷ xs) zero file e h zero = e
HasNone-set (x ∷ xs) zero file e h (suc j) = h (suc j)
HasNone-set (x ∷ xs) (suc i) file e h zero = h zero
HasNone-set (x ∷ xs) (suc i) file e h (suc j) = HasNone-set xs i file e (λ k. h (suc k)) j

HasNone-replicate : (n : ℕ) → HasNone (replicate n zero_file)
HasNone-replicate zero j = refl
HasNone-replicate (suc n) zero = refl
HasNone-replicate (suc n) (suc j) = HasNone-replicate n j

HasNone-open_file :
    (flags : ℕ) (r : ℤ × Files) → HasNone r.1.open_files → HasNone (open_file flags r).1.open_files
unfolding open_file
HasNone-open_file flags (pos fd, s) h = HasNone-set s.open_files fd _ (h fd) h
HasNone-open_file flags (negsuc n, s) h = h

HasNone-alloc_fd : (s : Files) → HasNone s.open_files → HasNone (alloc_fd s).1.open_files
unfolding alloc_fd
HasNone-alloc_fd s h =
    elim (Bool-cases
      (leb max_open_files (u32 (add64 s.next_fd 1)) && ltb (u32 (add64 s.next_fd 1)) (2 ^ 31))) [
        | inl e ↦ rw e h
        | inr e ↦ rw e h
      ]

HasNone-drop_reference :
    (fd : ℕ) (s : Files) → HasNone s.open_files → HasNone (drop_reference fd s).open_files
unfolding drop_reference
HasNone-drop_reference fd s h =
    elim (Bool-cases (is_positive (get_or s.open_files fd zero_file).refcount)) [
      | inl e ↦ rw e (HasNone-set s.open_files fd _ (h fd) h)
      | inr e ↦ rw e h
    ]

HasNone-vfs_close :
    (fd : ℤ) (s : Files) → HasNone s.open_files → HasNone (vfs_close fd s).1.open_files
unfolding vfs_close free_fd
HasNone-vfs_close (negsuc n) s h = h
HasNone-vfs_close (pos fd) s h = elim (Bool-cases (leb 4096 fd)) [
  | inl e ↦ rw e h
  | inr e ↦
      rw e (HasNone-set (drop_reference fd s).open_files fd _ refl (HasNone-drop_reference fd s h))
]

HasNone-run : (ops : List Op) (s : Files) → HasNone s.open_files → HasNone (run ops s).open_files
unfolding run step vfs_open
HasNone-run [] s h = h
HasNone-run (Op.open_op flags ∷ ops) s h =
    HasNone-run ops (open_file flags (alloc_fd s)).1
      (HasNone-open_file flags (alloc_fd s) (HasNone-alloc_fd s h))
HasNone-run (Op.close_op fd ∷ ops) s h =
    HasNone-run ops (vfs_close fd s).1 (HasNone-vfs_close fd s h)

-- After vfs_init and any calls of vfs_open and vfs_close, vfs_read and vfs_write answer every
-- descriptor from 0 to 4095 with CK_ERROR_NOT_SUPPORTED, since no call gives a file an inode.
pub vfs_read-run :
    (ops : List Op) (fd count : ℕ)
    → fd < 4096
    → (vfs_read (pos fd) count (run ops init_files) ≡ error_not_supported)
      × (vfs_write (pos fd) count (run ops init_files) ≡ error_not_supported)
unfolding vfs_read vfs_write read_with write_with init_files
vfs_read-run ops fd count h =
    let bare = HasNone-run ops init_files (HasNone-replicate max_open_files) fd in
    (rw (lt→leb 4096 fd h, bare) refl, rw (lt→leb 4096 fd h, bare) refl)
