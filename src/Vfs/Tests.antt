-- ===== src/Vfs/Tests.antt =====
-- The virtual file system of filesystems/vfs/vfs_core.c on small tables.
use cellkernelqwen.Prelude.{suc, ◌≡◌, refl, arith, none, List, [], ◌∷◌, ltb, if◌then◌else◌}
use cellkernelqwen.Prelude.Status.{pos, success, error_no_memory, error_not_supported}
use cellkernelqwen.Vfs.Files.{init_files, vfs_open, vfs_read, vfs_write}
use cellkernelqwen.Vfs.Descriptors.{Op, run, opens, vfs_open-run}
use cellkernelqwen.Vfs.Bare.{vfs_read-run}
use cellkernelqwen.Vfs.Mounts.{
  Text, FileSystem, init_mounts, is_blank, same_text, find_filesystem, find_named, vfs_mount,
  mount_found, mount_at, mounted, call_mount, free_slot, vfs_umount, slot_of, unmounted,
  call_umount,
}

abbrev calls : List Op
calls = Op.open_op 2 ∷ Op.close_op (pos 1) ∷ Op.open_op 0 ∷ []

vfs_open-run_example :
    (vfs_open 1 (run calls init_files)).0
    ≡ (if ltb (opens calls) 4095 then pos (suc (opens calls)) else error_no_memory)
vfs_open-run_example = vfs_open-run calls 1

vfs_read-run_example :
    (vfs_read (pos 2) 512 (run calls init_files) ≡ error_not_supported)
    × (vfs_write (pos 2) 512 (run calls init_files) ≡ error_not_supported)
vfs_read-run_example = vfs_read-run calls 2 512 (omega arith)

abbrev ram : FileSystem
ram = record { at = 8192; name = 114 ∷ 97 ∷ 109 ∷ []; mount = none; umount = none }

abbrev target : Text
target = 47 ∷ 116 ∷ []

-- A type without mount and umount operations is mounted in slot 1, and unmounting brings success.
mounts_and_unmounts :
    (vfs_umount (λ a. ram) target (vfs_mount [] target ram.name 0 (init_mounts (ram ∷ []))).1).0
    ≡ success
unfolding vfs_mount vfs_umount find_filesystem find_named mount_found mount_at mounted call_mount
    free_slot slot_of unmounted call_umount init_mounts is_blank same_text
mounts_and_unmounts = refl
