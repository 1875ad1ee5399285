-- ===== src/Files/Descriptors.antt =====
-- kernel/sys/fal/vnode.c from `vnode_alloc_fd_table` on: file descriptors of a process and the
-- system calls on them. An `int` descriptor stands as the `size_t` that the code makes of it.
pub mod Open
pub mod Use
use garn_os.Prelude.{
  ℕ, zero, suc, ◌+◌, ◌-◌, ◌*◌, ◌%◌, ◌^◌, Bool, true, false, not, ◌&&◌, ◌||◌, Option, none, some,
  List, [], ◌∷◌, ◌++◌, ltb, leb, ◌==◌, if◌then◌else◌, length, get_or, set, take, replicate,
}
use garn_os.Prelude.Exec.{Exec, done, fault, spent, ◌>>=◌}
use garn_os.Paging.{has_flag}
use garn_os.Vaspace.{Ret, ret, fail}
use garn_os.Files.Path.{path_max, vnode_get_absolute_path}
use garn_os.Files.Vnodes.{Fs, Driver, vnode_open, vnode_read, vnode_write, vnode_readdir, negative}

abbrev pub ebadf : ℕ
ebadf = 9

abbrev pub eacces : ℕ
eacces = 13

abbrev pub emfile : ℕ
emfile = 24

abbrev pub erange : ℕ
erange = 34

abbrev pub enametoolong : ℕ
enametoolong = 91

abbrev pub enotdir : ℕ
enotdir = 20

abbrev pub efault : ℕ
efault = 14

abbrev pub process_max_fd : ℕ
process_max_fd = 2048

-- `fd_t`
pub record Fd : Type 0 where
  pub file : ℕ
  pub offset : ℕ
  pub flags : ℕ

abbrev pub empty_fd : Fd
empty_fd = record { file = 0; offset = 0; flags = 0 }

-- The fields of `process_t` that files need, and the file systems. `table_live` says that the
-- table is allocated.
pub record Process : Type 0 where
  pub fd_table : List Fd
  pub table_live : Bool
  pub fd_max : ℕ
  pub cwd : List ℕ
  pub fs : Fs

unfoldable pub vnode_alloc_fd_table : ℕ → List Fd
vnode_alloc_fd_table size = replicate size empty_fd

-- The new table, and whether the old one is given back to the heap.
unfoldable pub vnode_realloc_fd_table : List Fd → ℕ → ℕ → List Fd × Bool
vnode_realloc_fd_table fd prev_size new_size =
    if prev_size == new_size
    then (fd, false)
    else (take prev_size fd ++ replicate (new_size - prev_size) empty_fd, true)

-- An access to a table that was given back, or behind its end, is a fault.
unfoldable pub get_fd : Process → ℕ → Exec Fd
get_fd p i =
    if p.table_live && ltb i (length p.fd_table) then done (get_or p.fd_table i empty_fd) else fault

abbrev pub set_fd : Process → ℕ → Fd → Process
set_fd p i fd = record p { fd_table = set p.fd_table i fd }

-- The loop of `sys_open` from entry `i`, with `k` entries left.
unfoldable pub find_fd : ℕ → Process → ℕ → Exec (Option ℕ)
find_fd zero p i = done none
find_fd (suc k) p i =
    get_fd p i >>= λ fd. if fd.file == 0 then done (some i) else find_fd k p (i + 1)

-- Whether `fd` is refused with `EBADF`.
unfoldable pub bad_fd : Process → ℕ → Exec Bool
bad_fd p fd = if ltb p.fd_max fd then done true else (get_fd p fd >>= λ e. done (e.file == 0))

abbrev pub advance : Fd → ℕ → Fd
advance e res = if res == 0 then e else record e { offset = (e.offset + res) % 2 ^ 64 }

-- `none` is `-ERANGE`; otherwise what is copied to the buffer, before the zero.
unfoldable pub sys_getcwd : Process → ℕ → Option (List ℕ)
sys_getcwd p size = if ltb size (length p.cwd + 1) then none else some p.cwd

unfoldable pub sys_close : Process → ℕ → Exec (Ret × Process)
sys_close p fd = bad_fd p fd >>= λ bad.
    if bad
    then done (fail ebadf, p)
    else done (ret 0, set_fd p fd (record (get_or p.fd_table fd empty_fd) { file = 0 }))

module _ (drv : Driver) where
  -- What `sys_open` does at a free entry.
  unfoldable pub open_at : ℕ → Option (List ℕ) → ℕ → ℕ → Process → ℕ → Exec (Ret × Process)
  open_at fuel path flags mode p i = vnode_open drv fuel path flags mode p.fs >>= λ r.
      let p1 = record p { fs = r.1 } in
      done (
        (if r.0 == 0 then fail r.1.kerrno else ret i),
        (if r.0 == 0
            then set_fd p1 i (record (get_or p.fd_table i empty_fd) { file = 0 })
            else set_fd p1 i (record { file = r.0; offset = 0; flags = flags })),
      )

  -- `sys_open` from `findfd` on. `vnode_realloc_fd_table` returns the new table, and the code
  -- leaves it.
  unfoldable pub find_and_open : ℕ → ℕ → Option (List ℕ) → ℕ → ℕ → Process → Exec (Ret × Process)
  find_and_open zero fuel path flags mode p = spent
  find_and_open (suc rounds) fuel path flags mode p =
      let new_size = (p.fd_max + 1) * 2 in
      let freed = (vnode_realloc_fd_table p.fd_table (p.fd_max + 1) new_size).1 in
      let again =
        find_and_open rounds fuel path flags mode
          (record p { table_live = p.table_live && not freed; fd_max = new_size - 1 }) in
      find_fd p.fd_max p 0 >>= λ o. elim o [
        | some i ↦ open_at fuel path flags mode p i
        | none ↦ if leb process_max_fd (p.fd_max + 1) then done (fail emfile, p) else again
      ]

  unfoldable pub sys_open : ℕ → ℕ → List ℕ → ℕ → ℕ → Process → Exec (Ret × Process)
  sys_open rounds fuel path flags mode p =
      vnode_get_absolute_path fuel p.cwd path >>= λ abs. find_and_open rounds fuel abs flags mode p

  unfoldable pub sys_read : Process → ℕ → ℕ → Exec (ℕ × List ℕ × Process)
  sys_read p fd count = bad_fd p fd >>= λ bad.
      let e = get_or p.fd_table fd empty_fd in
      let r = vnode_read drv e.file count e.offset p.fs in
      if bad
      then done (negative ebadf, [], p)
      else if has_flag e.flags 0 && not (has_flag e.flags 1)
      then done (negative eacces, [], p)
      else done (r.0, r.1, set_fd (record p { fs = r.2 }) fd (advance e r.0))

  unfoldable pub sys_write : Process → ℕ → List ℕ → ℕ → Exec (ℕ × Process)
  sys_write p fd buf count = bad_fd p fd >>= λ bad.
      let e = get_or p.fd_table fd empty_fd in
      let r = vnode_write drv e.file count buf e.offset p.fs in
      if bad
      then done (negative ebadf, p)
      else if not (has_flag e.flags 0) && not (has_flag e.flags 1)
      then done (negative eacces, p)
      else done (r.0, set_fd (record p { fs = r.1 }) fd (advance e r.0))

  -- The last part of `sys_chdir`, with a slash at the end of the path.
  unfoldable pub change_dir : ℕ → List ℕ → Process → Exec (Ret × Process)
  change_dir fuel str p = vnode_open drv fuel (some str) (2 ^ 16) 0 p.fs >>= λ r. done (
    (if r.0 == 0 then fail r.1.kerrno else ret 0),
    (if r.0 == 0 then record p { fs = r.1 } else record p { fs = r.1; cwd = str }),
  )

  -- `str` is not empty where its last character is read.
  unfoldable pub sys_chdir : ℕ → List ℕ → Process → Exec (Ret × Process)
  sys_chdir fuel path p =
      if ltb path_max (length path)
      then done (fail enametoolong, p)
      else (vnode_get_absolute_path fuel p.cwd path >>= λ o. elim o [
        | none ↦ done (fail enametoolong, p)
        | some str ↦
            if get_or str (length str - 1) 0 == b'/'
            then change_dir fuel str p
            else change_dir fuel (str ++ b'/' ∷ []) p
      ])

  -- The descriptor is not compared with `fdMax`.
  unfoldable pub sys_getdents : Process → ℕ → Bool → ℕ → Exec (ℕ × List ℕ × Process)
  sys_getdents p fd has_buffer count =
      let listed = get_fd p fd >>= λ e.
      let r = vnode_readdir drv e.file count e.offset p.fs in
      if e.file == 0
      then done (negative ebadf, [], p)
      else if not (has_flag (p.fs.vnode e.file).flags 16)
      then done (negative enotdir, [], p)
      else done (
        r.0,
        r.1,
        set_fd (record p { fs = r.2 }) fd (record e { offset = (e.offset + r.0) % 2 ^ 64 }),
      ) in
      if has_buffer then listed else done (negative efault, [], p)
