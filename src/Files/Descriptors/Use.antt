-- ===== src/Files/Descriptors/Use.antt =====
-- Descriptors that are open: reading, and closing.
use garn_os.Prelude.{
  ℕ, ◌+◌, ◌-◌, ◌%◌, ◌^◌, ◌≤◌, ◌≡◌, ◌≢◌, refl, ap, ◌∙◌, arith, true, false, not, ◌&&◌, [], ltb, ◌==◌,
  get_or-set_self, get_or,
}
use garn_os.Prelude.Exec.{done}
use garn_os.Paging.{has_flag}
use garn_os.Files.Vnodes.{Driver, v_dir, einval, vnode_read, negative}
use garn_os.Files.Descriptors.{Fd, Process, empty_fd, set_fd, bad_fd, sys_read}
use garn_os.Files.Descriptors.Open.{IsTable, file_of, get_fd-done}

module _ (drv : Driver) (p : Process) (fd : ℕ) (table : IsTable p) (within : fd ≤ p.fd_max)
    (in_use : file_of p fd ≢ 0) where
  good_fd : bad_fd p fd ≡ done false
  unfolding bad_fd
  good_fd =
      let below : ltb p.fd_max fd ≡ false = ground arith in
      let nz : (file_of p fd == 0) ≡ false = ground arith in
      rw below (rw (get_fd-done p fd table within) (rw nz refl))

  -- A read of a directory, of a descriptor that is open for reading, fails with `EINVAL` and moves
  -- the offset of the descriptor back by 22, around `2 ^ 64`: the error is taken for a count of
  -- bytes.
  pub sys_read-error :
      (count : ℕ)
      → (has_flag (get_or p.fd_table fd empty_fd).flags 0
          && not (has_flag (get_or p.fd_table fd empty_fd).flags 1))
        ≡ false
      → (p.fs.vnode (file_of p fd)).type ≡ v_dir
      → (p' : Process) × (sys_read drv p fd count ≡ done (negative einval, [], p'))
        × ((get_or p'.fd_table fd empty_fd).offset
            ≡ ((get_or p.fd_table fd empty_fd).offset + (2 ^ 64 - 22)) % 2 ^ 64)
  unfolding sys_read vnode_read
  sys_read-error count readable dir =
      let size = table.size in
      let e = get_or p.fd_table fd empty_fd in
      let is_dir : ((p.fs.vnode (file_of p fd)).type == v_dir) ≡ true = ground arith in
      let new : Fd = record e { offset = (e.offset + negative einval) % 2 ^ 64 } in
      (
        set_fd (record p { fs = record p.fs { kerrno = einval } }) fd new,
        rw good_fd (rw (readable, is_dir) refl),
        ap (λ (d : Fd). d.offset) (get_or-set_self p.fd_table fd new empty_fd (omega arith))
            ∙ omega arith,
      )
