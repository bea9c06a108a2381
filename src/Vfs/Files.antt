-- ===== src/Vfs/Files.antt =====
-- The open files of filesystems/vfs/vfs_core.c.
use cellkernelqwen.Prelude.{
  ℕ, ◌-◌, ◌^◌, Bool, Option, none, some, List, get_or, set, replicate, u32, add64, sub64, ltb, leb,
  ◌&&◌, if◌then◌else◌,
}
use cellkernelqwen.Prelude.Status.{
  ℤ, pos, negsuc, success, error_invalid_arg, error_no_memory, error_not_supported,
}

abbrev pub max_open_files : ℕ
max_open_files = 4096

-- The members of `file_operations_t` that are called, `none` for NULL. A read or a write is given
-- the count and the position; what it does beside its result is the file system's.
pub record FileOperations : Type 0 where
  pub close : Option ℕ
  pub read : Option (ℕ → ℕ → ℤ)
  pub write : Option (ℕ → ℕ → ℤ)

-- `vfs_inode_t`, the member that is read.
pub record Inode : Type 0 where
  pub fops : Option FileOperations

pub record File : Type 0 where
  pub fd : ℕ
  pub inode : Option Inode
  pub flags : ℕ
  pub position : ℕ
  pub refcount : ℕ

abbrev pub zero_file : File
zero_file = record { fd = 0; inode = none; flags = 0; position = 0; refcount = 0 }

-- `g_next_fd`, a 64-bit counter, and `g_open_files`.
pub record Files : Type 0 where
  pub next_fd : ℕ
  pub open_files : List File

-- `vfs_init`, which leaves g_next_fd at its initial 0.
unfoldable pub init_files : Files
init_files = record { next_fd = 0; open_files = replicate max_open_files zero_file }

-- 32 bits read as an `int`.
unfoldable pub int_of : ℕ → ℤ
int_of n = if ltb n (2 ^ 31) then pos n else negsuc (2 ^ 32 - 1 - n)

abbrev with_next : ℕ → Files → Files
with_next n s = record { next_fd = n; open_files = s.open_files }

unfoldable pub alloc_fd : Files → ℤ × Files
alloc_fd s =
    let next = add64 s.next_fd 1 in
    let fd = u32 next in
    if leb max_open_files fd && ltb fd (2 ^ 31)
    then (error_no_memory, with_next (sub64 next 1) s)
    else (int_of fd, with_next next s)

abbrev with_file : ℕ → File → Files → Files
with_file fd file s = record { next_fd = s.next_fd; open_files = set s.open_files fd file }

unfoldable pub free_fd : ℕ → Files → Files
free_fd fd s =
    let file = get_or s.open_files fd zero_file in
    with_file fd
      (record {
        fd = file.fd;
        inode = none;
        flags = 0;
        position = file.position;
        refcount = file.refcount;
      })
      s

-- The file is taken over with the inode that it held.
unfoldable pub open_file : ℕ → ℤ × Files → ℤ × Files
open_file flags (negsuc n, s) = (negsuc n, s)
open_file flags (pos fd, s) = (
  pos fd,
  with_file fd
      (record {
        fd = u32 fd;
        inode = (get_or s.open_files fd zero_file).inode;
        flags = flags;
        position = 0;
        refcount = 1;
      })
      s,
)

-- The path and the mode are not used.
unfoldable pub vfs_open : ℕ → Files → ℤ × Files
vfs_open flags s = open_file flags (alloc_fd s)

-- The close operation of an inode, if it has one.
unfoldable pub close_operation : Option Inode → Option ℕ
close_operation none = none
close_operation (some inode) = elim inode.fops [ none ↦ none | some fops ↦ fops.close ]

-- A counter is signed.
unfoldable pub is_positive : ℕ → Bool
is_positive n = ltb 0 n && ltb n (2 ^ 63)

unfoldable pub drop_reference : ℕ → Files → Files
drop_reference fd s =
    let file = get_or s.open_files fd zero_file in
    if is_positive file.refcount
    then with_file fd
        (record {
          fd = file.fd;
          inode = file.inode;
          flags = file.flags;
          position = file.position;
          refcount = sub64 file.refcount 1;
        })
        s
    else s

-- The operation that is called when the file had references.
unfoldable pub closed_by : ℕ → Files → Option ℕ
closed_by fd s =
    let file = get_or s.open_files fd zero_file in
    if is_positive file.refcount then close_operation file.inode else none

unfoldable pub vfs_close : ℤ → Files → ℤ × Files
vfs_close (negsuc n) s = (error_invalid_arg, s)
vfs_close (pos fd) s =
    if leb max_open_files fd
    then (error_invalid_arg, s)
    else (success, free_fd fd (drop_reference fd s))

unfoldable pub read_with : Option Inode → ℕ → ℕ → ℤ
read_with none count position = error_not_supported
read_with (some inode) count position = elim inode.fops [
  | none ↦ error_not_supported
  | some fops ↦ elim fops.read [ none ↦ error_not_supported | some read ↦ read count position ]
]

unfoldable pub vfs_read : ℤ → ℕ → Files → ℤ
vfs_read (negsuc n) count s = error_invalid_arg
vfs_read (pos fd) count s =
    let file = get_or s.open_files fd zero_file in
    if leb max_open_files fd then error_invalid_arg else read_with file.inode count file.position

unfoldable pub write_with : Option Inode → ℕ → ℕ → ℤ
write_with none count position = error_not_supported
write_with (some inode) count position = elim inode.fops [
  | none ↦ error_not_supported
  | some fops ↦ elim fops.write [ none ↦ error_not_supported | some write ↦ write count position ]
]

unfoldable pub vfs_write : ℤ → ℕ → Files → ℤ
vfs_write (negsuc n) count s = error_invalid_arg
vfs_write (pos fd) count s =
    let file = get_or s.open_files fd zero_file in
    if leb max_open_files fd then error_invalid_arg else write_with file.inode count file.position
