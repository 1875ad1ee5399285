-- ===== src/Files/Descriptors/Open.antt =====
-- `sys_open` with a free descriptor and without one.
use garn_os.Prelude.{
  ℕ, zero, suc, ◌+◌, ◌-◌, ◌*◌, ◌<◌, ◌≤◌, ◌≡◌, ◌≢◌, inl, inr, refl, ap, arith, Bool, true, false,
  ◌&&◌, Option, none, some, List, ltb, leb, ◌==◌, if◌then◌else◌, length, length-set,
  get_or-set_self, get_or-set_ne, get_or, Bool-cases,
}
use garn_os.Prelude.Exec.{Exec, done, fault}
use garn_os.Vaspace.{Ret, ret, fail}
use garn_os.Files.Path.{vnode_get_absolute_path}
use garn_os.Files.Vnodes.{Fs, Driver, vnode_open}
use garn_os.Files.Descriptors.{
  Fd, Process, empty_fd, process_max_fd, emfile, vnode_realloc_fd_table, get_fd, set_fd, find_fd,
  open_at, find_and_open, sys_open,
}

-- The table is allocated, with an entry more than `fdMax` says.
pub record IsTable (p : Process) : Type 0 where
  pub live : p.table_live ≡ true
  pub size : length p.fd_table ≡ p.fd_max + 1

abbrev pub file_of : Process → ℕ → ℕ
file_of p i = (get_or p.fd_table i empty_fd).file

pub get_fd-done :
    (p : Process) (i : ℕ)
    → IsTable p
    → i ≤ p.fd_max
    → get_fd p i ≡ done (get_or p.fd_table i empty_fd)
unfolding get_fd
get_fd-done p i h le =
    let live = h.live in
    let size = h.size in
    let within : ltb i (length p.fd_table) ≡ true = ground arith in rw (live, within) refl

find_fd-free :
    (k i j : ℕ) (p : Process)
    → IsTable p
    → i + k ≤ p.fd_max
    → i ≤ j
    → j < i + k
    → file_of p j ≡ 0
    → ((l : ℕ) → i ≤ l → l < j → file_of p l ≢ 0)
    → find_fd k p i ≡ done (some j)
unfolding find_fd
find_fd-free zero i j p h fits lo hi free used = absurd (omega arith)
find_fd-free (suc k) i j p h fits lo hi free used = elim (Bool-cases (i == j)) [
  | inl here ↦
      let e : i ≡ j = ground arith in
      let z : (file_of p i == 0) ≡ true = let q = ap (file_of p) e in ground arith in
      rw (get_fd-done p i h (omega arith)) (rw z (ap (λ x. done (some x)) e))
  | inr other ↦
      let nz : (file_of p i == 0) ≡ false =
        let q = used i (omega arith) (ground arith) in ground arith in
      rw (get_fd-done p i h (omega arith)) (
        rw nz (
          find_fd-free k (i + 1) j p h (omega arith) (ground arith) (omega arith) free
            (λ l a b. used l (omega arith) b)))
]

find_fd-full :
    (k i : ℕ) (p : Process)
    → IsTable p
    → i + k ≤ p.fd_max
    → ((l : ℕ) → i ≤ l → l < i + k → file_of p l ≢ 0)
    → find_fd k p i ≡ done none
unfolding find_fd
find_fd-full zero i p h fits used = refl
find_fd-full (suc k) i p h fits used =
    let nz : (file_of p i == 0) ≡ false =
      let q = used i (omega arith) (omega arith) in ground arith in
    rw (get_fd-done p i h (omega arith)) (
      rw nz
        (find_fd-full k (i + 1) p h (omega arith) (λ l a b. used l (omega arith) (omega arith))))

find_fd-fault : (k : ℕ) (p : Process) → p.table_live ≡ false → 0 < k → find_fd k p 0 ≡ fault
unfolding find_fd get_fd
find_fd-fault zero p dead pos = absurd (omega arith)
find_fd-fault (suc k) p dead pos = rw dead refl

not_live : (b : Bool) → (b && false) ≡ false
not_live true = refl
not_live false = refl

module _ (drv : Driver) (rounds fuel flags mode : ℕ) (path : List ℕ) (p : Process)
    (abs : Option (List ℕ)) (table : IsTable p)
    (absolute : vnode_get_absolute_path fuel p.cwd path ≡ done abs) where
  -- `sys_open` takes the lowest descriptor below `fdMax` that is free, for the vnode that
  -- `vnode_open` gives, with offset 0, and leaves every other descriptor; if `vnode_open` gives
  -- none, its error is returned and the descriptor stays free.
  pub sys_open-lowest :
      (i v : ℕ) (fs' : Fs)
      → i < p.fd_max
      → file_of p i ≡ 0
      → ((l : ℕ) → l < i → file_of p l ≢ 0)
      → vnode_open drv fuel abs flags mode p.fs ≡ done (v, fs')
      → (r : Ret) × (p' : Process) × (sys_open drv (suc rounds) fuel path flags mode p
          ≡ done (r, p'))
        × (p'.fs ≡ fs')
        × IsTable p'
        × (get_or p'.fd_table i empty_fd ≡ (
            if v == 0
            then record (get_or p.fd_table i empty_fd) { file = 0 }
            else record { file = v; offset = 0; flags = flags }))
        × ((l : ℕ) → i ≢ l → get_or p'.fd_table l empty_fd ≡ get_or p.fd_table l empty_fd)
        × (r ≡ (if v == 0 then fail fs'.kerrno else ret i))
  unfolding sys_open find_and_open open_at
  sys_open-lowest i v fs' below free used opened =
      let size = table.size in
      let find =
        find_fd-free p.fd_max 0 i p table (omega arith) (omega arith) (omega arith) free
          (λ l a b. used l b) in
      let new : Fd =
        if v == 0
        then record (get_or p.fd_table i empty_fd) { file = 0 }
        else record { file = v; offset = 0; flags = flags } in
      let len = length-set p.fd_table i new in
      (
        if v == 0 then fail fs'.kerrno else ret i,
        set_fd (record p { fs = fs' }) i new,
        rw absolute (rw find (rw opened (by_vnode (v == 0)))),
        refl,
        record { live = table.live; size = omega arith },
        get_or-set_self p.fd_table i new empty_fd (omega arith),
        λ l ne. get_or-set_ne p.fd_table i l new empty_fd ne,
        refl,
      )
    where
      by_vnode :
          (b : Bool)
          → ◌≡◌ {A = Exec (Ret × Process)}
              (done (
                (if b then fail fs'.kerrno else ret i),
                (if b
                    then set_fd
                        (record p { fs = fs' })
                        i
                        (record (get_or p.fd_table i empty_fd) { file = 0 })
                    else set_fd
                        (record p { fs = fs' })
                        i
                        (record { file = v; offset = 0; flags = flags })),
              ))
              (done (
                (if b then fail fs'.kerrno else ret i),
                set_fd
                    (record p { fs = fs' })
                    i
                    (if b
                      then record (get_or p.fd_table i empty_fd) { file = 0 }
                      else record { file = v; offset = 0; flags = flags }),
              ))
      by_vnode true = refl
      by_vnode false = refl

  -- With every descriptor below `fdMax` in use, `sys_open` reports `-EMFILE` if `fdMax + 1` has
  -- reached the limit, and otherwise goes on in the table that `vnode_realloc_fd_table` has freed.
  pub sys_open-full :
      ((l : ℕ) → l < p.fd_max → file_of p l ≢ 0)
      → sys_open drv (suc (suc rounds)) fuel path flags mode p
        ≡ (if leb process_max_fd (p.fd_max + 1) then done (fail emfile, p) else fault)
  unfolding sys_open find_and_open vnode_realloc_fd_table
  sys_open-full used =
      let find = find_fd-full p.fd_max 0 p table (omega arith) (λ l a b. used l (omega arith)) in
      let grown : (p.fd_max + 1 == (p.fd_max + 1) * 2) ≡ false = ground arith in
      let live = table.live in
      rw absolute (
        rw find (elim (Bool-cases (leb process_max_fd (p.fd_max + 1))) [
          | inl limit ↦ rw limit refl
          | inr more ↦
              rw (more, grown)
                (rw
                  (find_fd-fault ((p.fd_max + 1) * 2 - 1)
                    (record p {
                      table_live = p.table_live && false;
                      fd_max = (p.fd_max + 1) * 2 - 1;
                    })
                    (not_live p.table_live) (omega arith))
                  refl)
        ]))
