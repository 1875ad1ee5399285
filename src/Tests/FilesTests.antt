-- ===== src/Tests/FilesTests.antt =====
-- A file system with the root directory 1, a file 2 named `a`, and a directory 3; a process with
-- four descriptors.
use garn_os.Prelude.{
  ℕ, zero, suc, ◌-◌, ◌^◌, ◌≡◌, ◌≢◌, ◌<◌, refl, arith, true, none, some, List, [], ◌∷◌, ◌++◌, get_or,
  ◌==◌, if◌then◌else◌,
}
use garn_os.Prelude.Exec.{Exec, done}
use garn_os.Vaspace.{Ret, ret}
use garn_os.Files.Path.{vnode_get_absolute_path, check_path, check_step, slash_before}
use garn_os.Files.Path.Clean.{vnode_get_absolute_path-IsClean}
use garn_os.Files.Vnodes.{
  Vnode, Fs, Driver, negative, einval, v_dir, vnode_open, vnode_lookup, walk, lookup_step,
  vnode_list_search_by_filename, search_loop, vnode_list_add,
}
use garn_os.Files.Descriptors.{Process, empty_fd, sys_open, sys_read}
use garn_os.Files.Descriptors.Open.{IsTable, file_of, sys_open-lowest}
use garn_os.Files.Descriptors.Use.{sys_read-error}

-- "/home/"
abbrev home : List ℕ
home = b'/' ∷ b'h' ∷ b'o' ∷ b'm' ∷ b'e' ∷ b'/' ∷ []

-- "a"
abbrev name_a : List ℕ
name_a = b'a' ∷ []

vnode_get_absolute_path-IsClean_example :
    vnode_get_absolute_path 5001 home name_a ≡ done (some (home ++ name_a ++ b'/' ∷ []))
vnode_get_absolute_path-IsClean_example =
    (vnode_get_absolute_path-IsClean 5000 home name_a (omega arith) (omega arith)).1 (omega arith)
      (refl, (refl, (refl, (refl, (refl, (refl, (refl, (refl, tt))))))))

-- "/home/.b" becomes "/homeb": the dot of a hidden file goes with the slash.
hidden_file :
    vnode_get_absolute_path 20 home (home ++ b'.' ∷ b'b' ∷ [])
    ≡ done (some (b'/' ∷ b'h' ∷ b'o' ∷ b'm' ∷ b'e' ∷ b'b' ∷ []))
unfolding vnode_get_absolute_path check_path check_step slash_before
hidden_file = refl

-- "/a/../b" stays as it is.
parent_of_first :
    vnode_get_absolute_path 20 home (b'/' ∷ b'a' ∷ b'/' ∷ b'.' ∷ b'.' ∷ b'/' ∷ b'b' ∷ [])
    ≡ done (some (b'/' ∷ b'a' ∷ b'/' ∷ b'.' ∷ b'.' ∷ b'/' ∷ b'b' ∷ []))
unfolding vnode_get_absolute_path check_path check_step slash_before
parent_of_first = refl

-- "/c/a/../b" becomes "/c/b".
parent_of_second :
    vnode_get_absolute_path 20 home
      (b'/' ∷ b'c' ∷ b'/' ∷ b'a' ∷ b'/' ∷ b'.' ∷ b'.' ∷ b'/' ∷ b'b' ∷ [])
    ≡ done (some (b'/' ∷ b'c' ∷ b'/' ∷ b'b' ∷ []))
unfolding vnode_get_absolute_path check_path check_step slash_before
parent_of_second = refl

abbrev plain : ℕ → Vnode
plain type = record {
  filename = [];
  mode = 0;
  flags = 0;
  type = type;
  size = 0;
  ref_count = 0;
  vfs_mounted_here = 0;
  vfs = 1;
  ops = 1;
  next = 0;
  prev = 0;
}

abbrev pub disk : Fs
disk = record {
  vnode = λ v. if v == 2 then plain 1 else plain v_dir;
  live = λ v. true;
  vfs = λ i. record { fid = 0; root_vnode = 1 };
  root_vfs = 1;
  list_head = 0;
  list_tail = 0;
  kerrno = 0;
}

abbrev driver : Driver
driver = record {
  vn_lookup = λ t. some (λ v dirname fs. (if get_or dirname 0 0 == b'a' then 2 else 3, fs));
  vn_inactive = λ t. none;
  vn_read = λ t. none;
  vn_write = λ t. none;
  vn_readdir = λ t. none;
}

abbrev process : Process
process = record {
  fd_table =
      (record { file = 3; offset = 100; flags = 0 })
      ∷ (record { file = 2; offset = 0; flags = 0 })
      ∷ empty_fd
      ∷ empty_fd
      ∷ [];
  table_live = true;
  fd_max = 3;
  cwd = b'/' ∷ [];
  fs = disk;
}

process-IsTable : IsTable process
process-IsTable = record { live = refl; size = refl }

-- "/a"
abbrev path_a : List ℕ
path_a = b'/' ∷ b'a' ∷ []

abbrev opened_fs : Exec (ℕ × Fs) → Fs
opened_fs (done r) = r.1
opened_fs _ = disk

abbrev after_open : Fs
after_open = opened_fs (vnode_open driver 9 (some path_a) 0 0 disk)

opens : vnode_open driver 9 (some path_a) 0 0 disk ≡ done (2, after_open)
unfolding vnode_open vnode_lookup walk lookup_step vnode_list_search_by_filename search_loop
    vnode_list_add
opens = refl

absolute_a : vnode_get_absolute_path 9 (b'/' ∷ []) path_a ≡ done (some path_a)
unfolding vnode_get_absolute_path check_path check_step slash_before
absolute_a = refl

below_two : (l : ℕ) → l < 2 → file_of process l ≢ 0
below_two zero h = omega arith
below_two (suc zero) h = omega arith
below_two (suc (suc l)) h = absurd (omega arith)

sys_open-lowest_example :
    (r : Ret) × (p' : Process) × (sys_open driver 1 9 path_a 0 0 process ≡ done (r, p'))
    × (p'.fs ≡ after_open)
    × IsTable p'
    × (get_or p'.fd_table 2 empty_fd ≡ record { file = 2; offset = 0; flags = 0 })
    × ((l : ℕ) → 2 ≢ l → get_or p'.fd_table l empty_fd ≡ get_or process.fd_table l empty_fd)
    × (r ≡ ret 2)
sys_open-lowest_example =
    sys_open-lowest driver 0 9 0 0 path_a process (some path_a) process-IsTable absolute_a 2 2
      after_open (omega arith) refl below_two opens

abbrev full : Process
full = record process {
  fd_table = (record { file = 3; offset = 0; flags = 0 }) ∷ empty_fd ∷ [];
  fd_max = 1;
}

sys_read-error_example :
    (p' : Process) × (sys_read driver process 0 10 ≡ done (negative einval, [], p'))
    × ((get_or p'.fd_table 0 empty_fd).offset ≡ 78)
sys_read-error_example =
    sys_read-error driver process 0 process-IsTable (omega arith) (omega arith) 10 refl refl

-- A directory that was just opened is read from the offset 0 and left at `2 ^ 64 - 22`.
from_the_start :
    (p' : Process) × (sys_read driver full 0 10 ≡ done (negative einval, [], p'))
    × ((get_or p'.fd_table 0 empty_fd).offset ≡ 2 ^ 64 - 22)
from_the_start =
    sys_read-error driver full 0 (record { live = refl; size = refl }) (omega arith) (omega arith)
      10 refl refl
