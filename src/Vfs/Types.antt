-- ===== src/Vfs/Types.antt =====
-- The registry of file system types in filesystems/vfs/vfs_core.c.
use cellkernelqwen.Prelude.{Option, ap, ◌≡◌, refl, true, false, some, List, ◌∷◌, if◌then◌else◌}
use cellkernelqwen.Prelude.Status.{success}
use cellkernelqwen.Vfs.Mounts.{
  Text, FileSystem, Mounts, same_text, is_blank, register_named, vfs_register_filesystem,
  unlink_named, vfs_unregister_filesystem, unregistered, find_named, find_filesystem,
}

unlink_first :
    (fs : FileSystem) (name : Text) (l : List FileSystem)
    → same_text 32 fs.name name ≡ true
    → unlink_named name (fs ∷ l) ≡ some l
unfolding unlink_named
unlink_first fs name l same = rw same refl

unregister_first :
    (fs : FileSystem) (name : Text) (m : Mounts)
    → same_text 32 fs.name name ≡ true
    → vfs_unregister_filesystem name
        (record { filesystems = fs ∷ m.filesystems; mount_points = m.mount_points })
      ≡ (success, m)
unfolding vfs_unregister_filesystem unregistered
unregister_first fs name m same =
    ap
      (λ (o : Option (List FileSystem)).
        unregistered o (record { filesystems = fs ∷ m.filesystems; mount_points = m.mount_points }))
      (unlink_first fs name m.filesystems same)

-- Registering a type with a name succeeds; afterwards find_filesystem gives it for every text that
-- agrees with its name in 32 bytes and what it gave before for any other, and
-- vfs_unregister_filesystem of such a text brings the registry back.
pub find_filesystem-register :
    (fs : FileSystem) (name : Text) (m : Mounts)
    → is_blank fs.name ≡ false
    → let r = vfs_register_filesystem (some fs) m in
      (r.0 ≡ success)
      × (find_filesystem name r.1
          ≡ (if same_text 32 fs.name name then some fs else find_filesystem name m))
      × (same_text 32 fs.name name ≡ true → vfs_unregister_filesystem name r.1 ≡ (success, m))
unfolding vfs_register_filesystem register_named find_filesystem find_named
find_filesystem-register fs name m named = rw named (refl, refl, unregister_first fs name m)
