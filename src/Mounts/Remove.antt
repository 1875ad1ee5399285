-- ===== src/Mounts/Remove.antt =====
-- `vfs_unmount` and `vfs_get_by_fid` on the list of mounted file systems.
use garn_os.Prelude.{
  ℕ, zero, suc, ◌<◌, ◌≡◌, ◌≢◌, refl, ◌∙◌, arith, true, false, inl, inr, Bool-cases, List, [], ◌∷◌,
  ◌++◌, length, ◌==◌, if◌then◌else◌, eq_self, eq_false,
}
use garn_os.Prelude.Distinct.{Distinct, NotIn-append_r, Distinct-without}
use garn_os.Prelude.Exec.{done}
use garn_os.Mounts.{Mounts, unmount_from, vfs_unmount, get_from, vfs_get_by_fid}
use garn_os.Mounts.Chain.{
  Linked, last, IsMounted, redirect, Linked-put, Linked-append, Linked-split, last-NotIn,
  Linked-end, Distinct-left, last-nonzero, last-append,
}

-- The state without the file system `v` behind `e`.
abbrev pub removed : Mounts → ℕ → ℕ → Mounts
removed m v e = record m {
  mount = redirect m.mount e (m.mount v).next;
  live = λ u. if u == v then false else m.live u;
}

unmount_from-removed :
    (fuel : ℕ) (m : Mounts) (v : ℕ) (xs ys : List ℕ) (p prev : ℕ)
    → Linked m.mount p (xs ++ v ∷ ys) 0
    → Distinct (xs ++ v ∷ ys)
    → last prev xs ≢ 0
    → length xs < fuel
    → unmount_from fuel m v p prev ≡ done (true, removed m v (last prev xs))
unfolding unmount_from
unmount_from-removed zero m v xs ys p prev l d nz enough = absurd (omega arith)
unmount_from-removed (suc fuel) m v [] ys p prev (e, some_v, l) d nz enough =
    let a = eq_false v 0 some_v in
    let b = eq_self v in rw e (rw a (rw b (rw (eq_false prev 0 nz) refl)))
unmount_from-removed (suc fuel) m v (x ∷ xs) ys p prev (e, some_x, l) (out, d) nz enough =
    let a = eq_false x 0 some_x in
    let b = eq_false x v (NotIn-append_r x xs (v ∷ ys) out).0 in
    let ih = unmount_from-removed fuel m v xs ys (m.mount x).next x l d nz (omega arith) in
    rw e (rw a (rw b ih))

-- `vfs_unmount` of a file system other than the root returns 0, frees it, and leaves the others
-- linked and distinct, in their order. `lastVFS` is then the last one of the freed file system and
-- those that were after it: the freed one, if it was the last. Fuel above the number of those before
-- it is enough.
pub vfs_unmount-removed :
    (fuel : ℕ) (m : Mounts) (i : ℕ) (is : List ℕ) (v : ℕ) (ys : List ℕ)
    → IsMounted m ((i ∷ is) ++ v ∷ ys)
    → suc (length is) < fuel
    → (m' : Mounts) × (vfs_unmount fuel m v ≡ done (true, m'))
      × (m'.live v ≡ false)
      × Linked m'.mount m'.fs.root_vfs ((i ∷ is) ++ ys) 0
      × Distinct ((i ∷ is) ++ ys)
      × (m'.last_vfs ≡ last v ys)
unfolding vfs_unmount
vfs_unmount-removed fuel m i is v ys h enough =
    let e = last i is in
    let s = Linked-split m.mount m.fs.root_vfs (i ∷ is) (v ∷ ys) 0 h.linked in
    let nz = last-nonzero m.mount m.fs.root_vfs i is s.0 s.1 in
    let d = (Distinct-without (i ∷ is) v ys h.distinct).1 in
    let after = (m.mount v).next in
    let whole : Linked (removed m v e).mount m.fs.root_vfs ((i ∷ is) ++ ys) 0 =
      Linked-append (redirect m.mount e after) m.fs.root_vfs (i ∷ is) ys after 0
        (Linked-end m.mount m.fs.root_vfs i is s.0 after (Distinct-left (i ∷ is) ys d) s.1)
        (Linked-put m.mount e (record (m.mount e) { next = after }) after ys 0
          (last-NotIn i is ys d) s.2.2) in
    (
      removed m v e,
      unmount_from-removed fuel m v (i ∷ is) ys m.fs.root_vfs 0 h.linked h.distinct nz enough,
      rw (eq_self v) refl,
      whole,
      d,
      h.tail ∙ last-append 0 (i ∷ is) v ys,
    )

-- The first file system of the list that has the identifier, or null.
abbrev find_fid : Mounts → ℕ → List ℕ → ℕ
find_fid m fid [] = 0
find_fid m fid (i ∷ is) = if (m.fs.vfs i).fid == fid then i else find_fid m fid is

get_from-find_fid :
    (fuel : ℕ) (m : Mounts) (fid p : ℕ) (is : List ℕ)
    → Linked m.mount p is 0
    → length is < fuel
    → get_from fuel m fid p ≡ done (find_fid m fid is)
unfolding get_from
get_from-find_fid zero m fid p is l enough = absurd (omega arith)
get_from-find_fid (suc fuel) m fid p [] e enough = rw e refl
get_from-find_fid (suc fuel) m fid p (i ∷ is) (e, nz, l) enough =
    let ih = get_from-find_fid fuel m fid (m.mount i).next is l (omega arith) in
    rw e (
      rw (eq_false i 0 nz) (elim (Bool-cases ((m.fs.vfs i).fid == fid)) [
        | inl here ↦ rw here refl
        | inr other ↦ rw other ih
      ]))

-- `vfs_get_by_fid` gives the first mounted file system with the identifier, or null if there is
-- none, with fuel above the number of mounted file systems.
pub vfs_get_by_fid-find_fid :
    (fuel : ℕ) (m : Mounts) (fid : ℕ) (is : List ℕ)
    → IsMounted m is
    → length is < fuel
    → vfs_get_by_fid fuel m fid ≡ done (find_fid m fid is)
unfolding vfs_get_by_fid
vfs_get_by_fid-find_fid fuel m fid is h enough =
    get_from-find_fid fuel m fid m.fs.root_vfs is h.linked enough
