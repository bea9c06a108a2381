-- ===== src/Vfs/Mounts.antt =====
-- File system types and mount points of filesystems/vfs/vfs_core.c.
use cellkernelqwen.Prelude.{
  ℕ, zero, suc, Bool, true, false, not, ◌&&◌, Option, none, some, List, [], ◌∷◌, take, get_or, set,
  replicate, ◌==◌, if◌then◌else◌,
}
use cellkernelqwen.Prelude.Status.{
  ℤ, pos, negsuc, success, error_invalid_arg, error_no_memory, error_not_found,
}

-- A C string without its final NUL.
abbrev pub Text : Type 0
Text = List ℕ

-- `strncmp(a, b, n) == 0`.
unfoldable pub same_text : ℕ → Text → Text → Bool
same_text zero a b = true
same_text (suc n) [] [] = true
same_text (suc n) [] (y ∷ ys) = false
same_text (suc n) (x ∷ xs) [] = false
same_text (suc n) (x ∷ xs) (y ∷ ys) = (x == y) && same_text n xs ys

unfoldable pub is_blank : Text → Bool
is_blank [] = true
is_blank (x ∷ xs) = false

-- The file system by its address, 0 for NULL.
pub record MountPoint : Type 0 where
  pub path : Text
  pub fs : ℕ
  pub root_inode : ℕ
  pub private_data : ℕ
  pub flags : ℕ

abbrev pub zero_mount : MountPoint
zero_mount = record { path = []; fs = 0; root_inode = 0; private_data = 0; flags = 0 }

-- `vfs_filesystem_t`: `mount` and `umount` are the file system's own, `none` for NULL.
pub record FileSystem : Type 0 where
  pub at : ℕ
  pub name : Text
  pub mount : Option (MountPoint → Text → ℕ → ℤ × MountPoint)
  pub umount : Option (MountPoint → ℤ × MountPoint)

abbrev pub max_mount_points : ℕ
max_mount_points = 64

-- `g_filesystems`, the chain of the registered types in order, for types that are registered once,
-- and `g_mount_points`.
pub record Mounts : Type 0 where
  pub filesystems : List FileSystem
  pub mount_points : List MountPoint

-- `vfs_init`, for the types that were registered before.
unfoldable pub init_mounts : List FileSystem → Mounts
init_mounts filesystems = record {
  filesystems = filesystems;
  mount_points =
      set (replicate max_mount_points zero_mount) 0
        (record { path = 47 ∷ []; fs = 0; root_inode = 0; private_data = 0; flags = 0 });
}

unfoldable pub register_named : FileSystem → Mounts → ℤ × Mounts
register_named fs m =
    if is_blank fs.name
    then (error_invalid_arg, m)
    else (success, record { filesystems = fs ∷ m.filesystems; mount_points = m.mount_points })

-- `none` for NULL.
unfoldable pub vfs_register_filesystem : Option FileSystem → Mounts → ℤ × Mounts
vfs_register_filesystem none m = (error_invalid_arg, m)
vfs_register_filesystem (some fs) m = register_named fs m

unfoldable pub unlink_named : Text → List FileSystem → Option (List FileSystem)
unlink_named name [] = none
unlink_named name (fs ∷ rest) =
    let later = unlink_named name rest in
    if same_text 32 fs.name name
    then some rest
    else elim later [ none ↦ none | some l ↦ some (fs ∷ l) ]

unfoldable pub unregistered : Option (List FileSystem) → Mounts → ℤ × Mounts
unregistered none m = (error_not_found, m)
unregistered (some rest) m = (success, record { filesystems = rest; mount_points = m.mount_points })

unfoldable pub vfs_unregister_filesystem : Text → Mounts → ℤ × Mounts
vfs_unregister_filesystem name m = unregistered (unlink_named name m.filesystems) m

unfoldable pub find_named : Text → List FileSystem → Option FileSystem
find_named name [] = none
find_named name (fs ∷ rest) =
    let later = find_named name rest in if same_text 32 fs.name name then some fs else later

unfoldable pub find_filesystem : Text → Mounts → Option FileSystem
find_filesystem name m = find_named name m.filesystems

-- The first slot, from number `i` on, whose path is empty.
unfoldable pub free_slot : ℕ → List MountPoint → Option ℕ
free_slot i [] = none
free_slot i (mp ∷ rest) =
    let later = free_slot (suc i) rest in if is_blank mp.path then some i else later

abbrev put_mount : ℕ → MountPoint → Mounts → Mounts
put_mount i mp m = record { filesystems = m.filesystems; mount_points = set m.mount_points i mp }

abbrev cleared_path : MountPoint → MountPoint
cleared_path mp = record {
  path = [];
  fs = mp.fs;
  root_inode = mp.root_inode;
  private_data = mp.private_data;
  flags = mp.flags;
}

-- After the call of the file system: a failure empties the path.
unfoldable pub mounted : ℕ → ℤ × MountPoint → Mounts → ℤ × Mounts
mounted i (pos zero, mp) m = (success, put_mount i mp m)
mounted i (pos (suc n), mp) m = (pos (suc n), put_mount i (cleared_path mp) m)
mounted i (negsuc n, mp) m = (negsuc n, put_mount i (cleared_path mp) m)

unfoldable pub call_mount : FileSystem → Text → ℕ → MountPoint → ℤ × MountPoint
call_mount fs source flags mp = elim fs.mount [ none ↦ (success, mp) | some f ↦ f mp source flags ]

unfoldable pub mount_at : Text → Text → FileSystem → ℕ → ℕ → Mounts → ℤ × Mounts
mount_at source target fs flags i m =
    let old = get_or m.mount_points i zero_mount in
    mounted i
      (call_mount fs source flags (record {
        path = take 255 target;
        fs = fs.at;
        root_inode = old.root_inode;
        private_data = old.private_data;
        flags = flags;
      }))
      m

unfoldable pub mount_found : Text → Text → ℕ → FileSystem → Mounts → ℤ × Mounts
mount_found source target flags fs m = elim (free_slot 0 m.mount_points) [
  | none ↦ (error_no_memory, m)
  | some i ↦ mount_at source target fs flags i m
]

unfoldable pub vfs_mount : Text → Text → Text → ℕ → Mounts → ℤ × Mounts
vfs_mount source target fstype flags m = elim (find_filesystem fstype m) [
  | none ↦ (error_not_found, m)
  | some fs ↦ mount_found source target flags fs m
]

-- The first slot, from number `i` on, that is mounted on the path.
unfoldable pub slot_of : Text → ℕ → List MountPoint → Option ℕ
slot_of target i [] = none
slot_of target i (mp ∷ rest) =
    let later = slot_of target (suc i) rest in
    if not (is_blank mp.path) && same_text 256 mp.path target then some i else later

unfoldable pub unmounted : ℕ → ℤ × MountPoint → Mounts → ℤ × Mounts
unmounted i (pos zero, mp) m = (success, put_mount i (cleared_path mp) m)
unmounted i (pos (suc n), mp) m = (pos (suc n), put_mount i mp m)
unmounted i (negsuc n, mp) m = (negsuc n, put_mount i mp m)

-- `object` gives the file system at an address.
unfoldable pub call_umount : (ℕ → FileSystem) → MountPoint → ℤ × MountPoint
call_umount object mp =
    if mp.fs == 0
    then (success, mp)
    else elim (object mp.fs).umount [ none ↦ (success, mp) | some f ↦ f mp ]

unfoldable pub vfs_umount : (ℕ → FileSystem) → Text → Mounts → ℤ × Mounts
vfs_umount object target m = elim (slot_of target 0 m.mount_points) [
  | none ↦ (error_not_found, m)
  | some i ↦ unmounted i (call_umount object (get_or m.mount_points i zero_mount)) m
]
