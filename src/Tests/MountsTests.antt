-- ===== src/Tests/MountsTests.antt =====
-- The root file system 5 and a second one, 6; the directory "/d" is vnode 2.
use garn_os.Prelude.{
  ℕ, ◌^◌, ◌≡◌, refl, arith, Bool, true, false, some, none, List, [], ◌∷◌, ◌==◌, if◌then◌else◌,
}
use garn_os.Prelude.Exec.{Exec, done, fault, spent}
use garn_os.Files.Vnodes.{
  Fs, Vnode, Driver, vnode_open, vnode_lookup, walk, lookup_step, vnode_list_search_by_filename,
  search_loop, vnode_list_add,
}
use garn_os.Mounts.{Mount, Mounts, vfs_mount, vfs_unmount, unmount_from}
use garn_os.Prelude.Distinct.{Distinct}
use garn_os.Mounts.Chain.{Linked, IsMounted}
use garn_os.Mounts.Over.{Mounted, vfs_mount-Mounted}
use garn_os.Mounts.Remove.{vfs_unmount-removed}

-- Every name is vnode 2.
abbrev driver : Driver
driver = record {
  vn_lookup = λ ops. some (λ v name fs. (2, fs));
  vn_inactive = λ ops. none;
  vn_read = λ ops. none;
  vn_write = λ ops. none;
  vn_readdir = λ ops. none;
}

abbrev directory : Vnode
directory = record {
  filename = [];
  mode = 0;
  flags = 0;
  type = 2;
  size = 0;
  ref_count = 0;
  vfs_mounted_here = 0;
  vfs = 5;
  ops = 9;
  next = 0;
  prev = 0;
}

abbrev files : Fs
files = record {
  vnode = λ v. directory;
  live = λ v. true;
  vfs = λ v. record { fid = 0; root_vnode = 1 };
  root_vfs = 5;
  list_head = 0;
  list_tail = 0;
  kerrno = 0;
}

abbrev fresh : ℕ → Mount
fresh next = record { next = next; mount_flags = 0; vnode_covered = 0; is_system = false }

abbrev one : Mounts
one = record { fs = files; mount = λ v. fresh 0; live = λ v. true; last_vfs = 5; next_fid = 1 }

abbrev three : Mounts
three = record {
  fs = files;
  mount = λ v. if v == 5 then fresh 6 else if v == 6 then fresh 7 else fresh 0;
  live = λ v. true;
  last_vfs = 7;
  next_fid = 3;
}

abbrev path : List ℕ
path = 47 ∷ 100 ∷ []

one-IsMounted : IsMounted one (5 ∷ [])
one-IsMounted = record { linked = (refl, omega arith, refl); distinct = (tt, tt); tail = refl }

three-IsMounted : IsMounted three (5 ∷ 6 ∷ 7 ∷ [])
three-IsMounted = record {
  linked = (refl, omega arith, (refl, omega arith, (refl, omega arith, refl)));
  distinct = ((omega arith, (omega arith, tt)), ((omega arith, tt), (tt, tt)));
  tail = refl;
}

vfs_unmount-removed_example :
    (m : Mounts) × (vfs_unmount 3 three 6 ≡ done (true, m))
    × (m.live 6 ≡ false)
    × Linked m.mount m.fs.root_vfs (5 ∷ 7 ∷ []) 0
    × Distinct (5 ∷ 7 ∷ [])
    × (m.last_vfs ≡ 7)
vfs_unmount-removed_example =
    vfs_unmount-removed 3 three 5 [] 6 (7 ∷ []) three-IsMounted (omega arith)

-- The last file system is unmounted, and `lastVFS` still points to its freed memory.
abbrev dangling : Exec (Bool × Mounts) → Bool × ℕ
dangling (done r) = (r.1.live 7, r.1.last_vfs)
dangling fault = (true, 0)
dangling spent = (true, 0)

left_behind : dangling (vfs_unmount 4 three 7) ≡ (false, 7)
unfolding vfs_unmount unmount_from
left_behind = refl

abbrev files_of : Exec (ℕ × Fs) → Fs
files_of (done r) = r.1
files_of fault = files
files_of spent = files

-- The files after the directory is opened.
unfoldable opened : Fs
unfolding vnode_open
opened = files_of (vnode_open driver 3 (some path) (2 ^ 16) 0 files)

opened_lem : vnode_open driver 3 (some path) (2 ^ 16) 0 files ≡ done (2, opened)
unfolding opened vnode_open vnode_lookup walk lookup_step vnode_list_search_by_filename search_loop
    vnode_list_add
opened_lem = refl

opened-root : opened.root_vfs ≡ 5
unfolding opened vnode_open vnode_lookup walk lookup_step vnode_list_search_by_filename search_loop
    vnode_list_add
opened-root = refl

vfs_mount-Mounted_example :
    (m : Mounts) × (vfs_mount driver done 3 one 6 path 1 ≡ done (0, m))
    × Mounted m (5 ∷ 6 ∷ []) 6 2 1
vfs_mount-Mounted_example =
    vfs_mount-Mounted driver done 3 one 5 [] 6 2 path 1 opened one-IsMounted (omega arith)
      (omega arith, tt) refl refl refl opened_lem (omega arith) opened-root
