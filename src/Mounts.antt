-- ===== src/Mounts.antt =====
-- kernel/sys/fal/vfs.c: the list of mounted file systems, over the vnodes of `Files.Vnodes`.
-- A file system is named by its address; the null pointer is 0. The root is `root_vfs` of `Fs`. The
-- loops over the list take fuel. `devfs_init` and `device_driver_autoreg`, which the system file
-- system starts, are the argument `start` of `vfs_mount`.
pub mod Chain
pub mod Over
pub mod Remove
use garn_os.Prelude.{
  ℕ, zero, suc, ◌+◌, ◌-◌, ◌^◌, Bool, true, false, Option, none, some, List, [], ◌∷◌, ◌==◌,
  if◌then◌else◌,
}
use garn_os.Prelude.Words.{word}
use garn_os.Prelude.Exec.{Exec, done, fault, spent, ◌>>=◌}
use garn_os.Files.Vnodes.{
  Fs, Vnode, Vfs, Driver, set_vnode, same_string, vnode_list_reset, vnode_open,
}

-- The other fields of `vfs_t`; `is_system` says that the file system is on the system partition.
pub record Mount : Type 0 where
  pub next : ℕ
  pub mount_flags : ℕ
  pub vnode_covered : ℕ
  pub is_system : Bool

-- `lastVFS`, the counter of `_vfs_gen_fid`, and which file systems are allocated.
pub record Mounts : Type 0 where
  pub fs : Fs
  pub mount : ℕ → Mount
  pub live : ℕ → Bool
  pub last_vfs : ℕ
  pub next_fid : ℕ

abbrev pub root_path : List ℕ
root_path = 47 ∷ []

abbrev pub o_directory : ℕ
o_directory = 2 ^ 16

-- A negative `int`, as its 32 bits.
abbrev pub negative_int : ℕ → ℕ
negative_int e = 2 ^ 32 - e

abbrev pub put_mount : (ℕ → Mount) → ℕ → Mount → ℕ → Mount
put_mount t v r u = if u == v then r else t u

abbrev pub put_vfs : (ℕ → Vfs) → ℕ → Vfs → ℕ → Vfs
put_vfs t v r u = if u == v then r else t u

abbrev pub set_fid : Fs → ℕ → ℕ → Fs
set_fid fs v fid = record fs { vfs = put_vfs fs.vfs v (record (fs.vfs v) { fid = fid }) }

-- `vfs->fid = _vfs_gen_fid()`
abbrev pub give_fid : Mounts → ℕ → Mounts
give_fid m v = record m { fs = set_fid m.fs v m.next_fid; next_fid = word (m.next_fid + 1) }

-- The system file system takes the place of the root; without a root the read of its `next` is a
-- fault.
unfoldable pub mount_system : Mounts → ℕ → Exec Mounts
mount_system m v =
    let t =
      put_mount m.mount v
        (record (m.mount v) { mount_flags = 0; next = (m.mount m.fs.root_vfs).next }) in
    if m.fs.root_vfs == 0
    then fault
    else done (record m {
      fs = vnode_list_reset (record (set_fid m.fs v 0) { root_vfs = v });
      mount = t;
      last_vfs = if m.fs.root_vfs == m.last_vfs then v else m.last_vfs;
    })

-- The first file system becomes the root.
unfoldable pub mount_root : Mounts → ℕ → Mounts
mount_root m v = record m {
  fs = record m.fs { root_vfs = v };
  last_vfs = v;
  mount = put_mount m.mount v (record (m.mount v) { next = 0 });
}

-- The file system goes behind the last one, and over the vnode `w`.
unfoldable pub mount_over : Mounts → ℕ → ℕ → Mounts
mount_over m v w =
    let t = put_mount m.mount m.last_vfs (record (m.mount m.last_vfs) { next = v }) in
    record m {
      fs = set_vnode m.fs w (record (m.fs.vnode w) { vfs_mounted_here = v });
      mount = put_mount t v (record (t v) { vnode_covered = w });
      last_vfs = v;
    }

module _ (drv : Driver) (start : Mounts → Exec Mounts) where
  unfoldable pub vfs_mount : ℕ → Mounts → ℕ → List ℕ → ℕ → Exec (ℕ × Mounts)
  vfs_mount fuel m v mnt flags =
      let m1 = record m {
        mount = put_mount m.mount v (record (m.mount v) { mount_flags = flags });
      } in
      let over = vnode_open drv fuel (some mnt) o_directory 0 m1.fs >>= λ r.
      let m2 = record m1 { fs = r.1 } in
      if r.0 == 0
      then done (negative_int r.1.kerrno, m2)
      else done (0, give_fid (mount_over m2 v r.0) v) in
      if (m.mount v).is_system
      then (mount_system m v >>= λ m'. start m' >>= λ m''. done (0, m''))
      else if m.fs.root_vfs == 0
      then done (0, give_fid (mount_root m1 v) v)
      else if same_string mnt root_path
      then done (negative_int 1, m1)
      else over

-- The loop of `vfs_unmount` from `i`, with the one before; whether the file system was taken out.
unfoldable pub unmount_from : ℕ → Mounts → ℕ → ℕ → ℕ → Exec (Bool × Mounts)
unmount_from zero m v i prev = spent
unmount_from (suc fuel) m v i prev =
    let rest = unmount_from fuel m v (m.mount i).next i in
    if i == 0
    then done (false, m)
    else if i == v
    then (if prev == 0
        then done (false, m)
        else done (
          true,
          record m {
            mount = put_mount m.mount prev (record (m.mount prev) { next = (m.mount i).next });
            live = λ u. if u == i then false else m.live u;
          },
        ))
    else rest

-- Whether 0 is returned; otherwise 1 is.
unfoldable pub vfs_unmount : ℕ → Mounts → ℕ → Exec (Bool × Mounts)
vfs_unmount fuel m v = unmount_from fuel m v m.fs.root_vfs 0

unfoldable pub get_from : ℕ → Mounts → ℕ → ℕ → Exec ℕ
get_from zero m fid i = spent
get_from (suc fuel) m fid i =
    let rest = get_from fuel m fid (m.mount i).next in
    if i == 0 then done 0 else if (m.fs.vfs i).fid == fid then done i else rest

unfoldable pub vfs_get_by_fid : ℕ → Mounts → ℕ → Exec ℕ
vfs_get_by_fid fuel m fid = get_from fuel m fid m.fs.root_vfs

abbrev pub vfs_get_root : Mounts → ℕ
vfs_get_root m = m.fs.root_vfs
