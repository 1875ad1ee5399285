-- ===== src/Mounts/Over.antt =====
-- `vfs_mount` of a file system over a directory.
use garn_os.Prelude.{
  ℕ, ◌≡◌, ◌≢◌, refl, sym, ◌∙◌, subst, false, some, List, [], ◌∷◌, ◌++◌, eq_self, eq_false,
}
use garn_os.Prelude.Distinct.{NotIn, Distinct-snoc}
use garn_os.Prelude.Exec.{Exec, done}
use garn_os.Files.Vnodes.{Fs, Driver, same_string, vnode_open}
use garn_os.Mounts.{Mounts, put_mount, root_path, o_directory, give_fid, mount_over, vfs_mount}
use garn_os.Mounts.Chain.{
  Linked, IsMounted, redirect, Linked-put, Linked-kept, Linked-append, last-ne, Linked-end,
  last-snoc,
}

mount_over-IsMounted :
    (m : Mounts) (i : ℕ) (is : List ℕ) (v w : ℕ)
    → IsMounted m (i ∷ is)
    → v ≢ 0
    → NotIn v (i ∷ is)
    → (m.mount v).next ≡ 0
    → IsMounted (mount_over m v w) ((i ∷ is) ++ v ∷ [])
unfolding mount_over
mount_over-IsMounted m i is v w h nz out clear =
    let t = redirect m.mount m.last_vfs v in
    let other = eq_false v m.last_vfs (λ e. last-ne v i is out (e ∙ h.tail)) in
    let behind : (t v).next ≡ 0 = rw other clear in
    let front : Linked t m.fs.root_vfs (i ∷ is) v =
      subst (λ e. Linked (redirect m.mount e v) m.fs.root_vfs (i ∷ is) v) (sym h.tail)
        (Linked-end m.mount m.fs.root_vfs i is 0 v h.distinct h.linked) in
    let whole = Linked-append t m.fs.root_vfs (i ∷ is) (v ∷ []) v 0 front (refl, nz, behind) in
    record {
      linked =
          Linked-kept t v (record (t v) { vnode_covered = w }) m.fs.root_vfs ((i ∷ is) ++ v ∷ []) 0
            refl whole;
      distinct = Distinct-snoc (i ∷ is) v out h.distinct;
      tail = sym (last-snoc i is v);
    }

-- The file systems are `is`, `w` is covered by `v`, which has the identifier `fid`.
pub record Mounted (m : Mounts) (is : List ℕ) (v w fid : ℕ) : Type 0 where
  pub list : IsMounted m is
  pub over : (m.fs.vnode w).vfs_mounted_here ≡ v
  pub covered : (m.mount v).vnode_covered ≡ w
  pub named : (m.fs.vfs v).fid ≡ fid

-- With a root, `vfs_mount` of another file system that is not the system's, whose `next` is null,
-- at a path other than "/" where `vnode_open` finds the vnode `w` and leaves the root, returns 0;
-- the file system is the last of the list, and over `w`, with the next identifier.
pub vfs_mount-Mounted :
    (drv : Driver) (start : Mounts → Exec Mounts) (fuel : ℕ) (m : Mounts) (i : ℕ) (is : List ℕ)
    (v w : ℕ) (mnt : List ℕ) (flags : ℕ) (fs : Fs)
    → IsMounted m (i ∷ is)
    → v ≢ 0
    → NotIn v (i ∷ is)
    → (m.mount v).next ≡ 0
    → (m.mount v).is_system ≡ false
    → same_string mnt root_path ≡ false
    → vnode_open drv fuel (some mnt) o_directory 0 m.fs ≡ done (w, fs)
    → w ≢ 0
    → fs.root_vfs ≡ m.fs.root_vfs
    → (m' : Mounts) × (vfs_mount drv start fuel m v mnt flags ≡ done (0, m'))
      × Mounted m' ((i ∷ is) ++ v ∷ []) v w m.next_fid
unfolding vfs_mount mount_over
vfs_mount-Mounted drv start fuel m i is v w mnt flags fs h nz out clear plain elsewhere opened nw
      root =
    let m1 : Mounts = record m {
      mount = put_mount m.mount v (record (m.mount v) { mount_flags = flags });
    } in
    let m2 : Mounts = record m1 { fs = fs } in
    let rooted = eq_false m.fs.root_vfs 0 (λ e. h.linked.1 (sym h.linked.0 ∙ e)) in
    let here = eq_self v in
    let covering = eq_self w in
    let before : IsMounted m2 (i ∷ is) = record {
      linked =
          subst (λ p. Linked m1.mount p (i ∷ is) 0) (sym root)
            (Linked-put m.mount v (record (m.mount v) { mount_flags = flags }) m.fs.root_vfs
              (i ∷ is) 0 out h.linked);
      distinct = h.distinct;
      tail = h.tail;
    } in
    let after = mount_over-IsMounted m2 i is v w before nz out (rw here clear) in
    (
      give_fid (mount_over m2 v w) v,
      rw (plain, rooted, elsewhere, opened, eq_false w 0 nw) refl,
      record {
        list = record { linked = after.linked; distinct = after.distinct; tail = after.tail };
        over = rw covering refl;
        covered = rw here refl;
        named = rw here refl;
      },
    )
