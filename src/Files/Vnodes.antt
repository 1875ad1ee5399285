-- ===== src/Files/Vnodes.antt =====
-- kernel/sys/fal/vnode.c up to `vnode_readdir`: vnodes, the list of open ones, and path lookup.
-- A vnode or a mounted file system is named by its address; the null pointer is 0. The functions of
-- `vnode_operations_t` belong to the file systems, and are the record `Driver`. The locks are held
-- over each call, so a call is one step.
use garn_os.Prelude.{
  ℕ, zero, suc, ◌+◌, ◌-◌, ◌%◌, ◌^◌, Bool, true, false, not, ◌&&◌, Option, none, some, List, [], ◌∷◌,
  ◌++◌, ◌==◌, if◌then◌else◌,
}
use garn_os.Prelude.Exec.{Exec, done, spent, ◌>>=◌}
use garn_os.Paging.{has_flag}

abbrev pub einval : ℕ
einval = 22

abbrev pub eisdir : ℕ
eisdir = 21

abbrev pub enotdir : ℕ
enotdir = 20

abbrev pub v_dir : ℕ
v_dir = 2

-- A negative `ssize_t`, as its 64 bits.
abbrev pub negative : ℕ → ℕ
negative e = 2 ^ 64 - e

-- `vnode_t`; `ops` names its table of operations.
pub record Vnode : Type 0 where
  pub filename : List ℕ
  pub mode : ℕ
  pub flags : ℕ
  pub type : ℕ
  pub size : ℕ
  pub ref_count : ℕ
  pub vfs_mounted_here : ℕ
  pub vfs : ℕ
  pub ops : ℕ
  pub next : ℕ
  pub prev : ℕ

-- The fields of `vfs_t` that paths need.
pub record Vfs : Type 0 where
  pub fid : ℕ
  pub root_vnode : ℕ

-- `live` says which vnodes are allocated.
pub record Fs : Type 0 where
  pub vnode : ℕ → Vnode
  pub live : ℕ → Bool
  pub vfs : ℕ → Vfs
  pub root_vfs : ℕ
  pub list_head : ℕ
  pub list_tail : ℕ
  pub kerrno : ℕ

-- The operations of the file systems, by the name of the table; `none` is a null pointer. A read
-- or a directory read gives its result and what it stores in the buffer.
pub record Driver : Type 0 where
  pub vn_lookup : ℕ → Option (ℕ → List ℕ → Fs → ℕ × Fs)
  pub vn_inactive : ℕ → Option (ℕ → Fs → ℕ × Fs)
  pub vn_read : ℕ → Option (ℕ → ℕ → ℕ → Fs → ℕ × List ℕ × Fs)
  pub vn_write : ℕ → Option (ℕ → ℕ → List ℕ → ℕ → Fs → ℕ × Fs)
  pub vn_readdir : ℕ → Option (ℕ → ℕ → ℕ → Fs → ℕ × List ℕ × Fs)

abbrev pub set_vnode : Fs → ℕ → Vnode → Fs
set_vnode fs v n = record fs { vnode = λ u. if u == v then n else fs.vnode u }

-- `!strcmp(a, b)`
abbrev pub same_string : List ℕ → List ℕ → Bool
same_string [] [] = true
same_string [] (d ∷ t) = false
same_string (c ∷ s) [] = false
same_string (c ∷ s) (d ∷ t) = (c == d) && same_string s t

unfoldable pub vnode_list_add : Fs → ℕ → Fs
vnode_list_add fs v =
    if fs.list_head == 0
    then record (set_vnode fs v (record (fs.vnode v) { next = 0; prev = 0 })) {
      list_head = v;
      list_tail = v;
    }
    else let t = fs.list_tail in
      let fs1 = set_vnode fs t (record (fs.vnode t) { next = v }) in
      let fs2 = set_vnode fs1 v (record (fs1.vnode v) { prev = t }) in
      record (set_vnode fs2 v (record (fs2.vnode v) { next = 0 })) { list_tail = v }

unfoldable pub vnode_list_remove : Fs → ℕ → Fs
vnode_list_remove fs v =
    let n = fs.vnode v in
    let fs1 =
      if n.next == 0
      then fs
      else set_vnode fs n.next (record (fs.vnode n.next) { prev = n.prev }) in
    let fs2 =
      if n.prev == 0
      then fs1
      else set_vnode fs1 n.prev (record (fs1.vnode n.prev) { next = n.next }) in
    record fs2 {
      list_tail = if fs.list_tail == v then n.prev else fs.list_tail;
      list_head = if fs.list_head == v then n.next else fs.list_head;
    }

unfoldable pub vnode_list_reset : Fs → Fs
vnode_list_reset fs = record fs { list_head = 0; list_tail = 0 }

-- `v` is what `kmalloc` returns.
unfoldable pub vnode_new : Fs → ℕ → ℕ → ℕ → Fs
vnode_new fs v vfs ops =
    record (set_vnode fs v (record {
      filename = [];
      mode = 0;
      flags = 0;
      type = 0;
      size = 0;
      ref_count = 0;
      vfs_mounted_here = 0;
      vfs = vfs;
      ops = ops;
      next = 0;
      prev = 0;
    })) { live = λ u. if u == v then true else fs.live u }

-- The loop of `vnode_list_search_by_filename` from vnode `i`.
unfoldable pub search_loop : ℕ → Fs → ℕ → List ℕ → ℕ → Exec ℕ
search_loop zero fs vfs filename i = spent
search_loop (suc fuel) fs vfs filename i =
    let n = fs.vnode i in
    let rest = search_loop fuel fs vfs filename n.next in
    if i == 0
    then done 0
    else if ((fs.vfs n.vfs).fid == (fs.vfs vfs).fid) && same_string n.filename filename
    then done i
    else rest

unfoldable pub vnode_list_search_by_filename : ℕ → Fs → ℕ → List ℕ → Exec ℕ
vnode_list_search_by_filename fuel fs vfs filename = search_loop fuel fs vfs filename fs.list_head

module _ (drv : Driver) where
  abbrev pub call_inactive : Option (ℕ → Fs → ℕ × Fs) → Bool → ℕ → Fs → Fs
  call_inactive none wanted v fs = fs
  call_inactive (some f) wanted v fs = if wanted then (f v fs).1 else fs

  -- Behind a lookup that gave `next`: what has become of the file system and the vnode.
  abbrev pub arrived : ℕ → Fs → ℕ → ℕ × ℕ × Fs
  arrived vfs fs next =
      let m = (fs.vnode next).vfs_mounted_here in
      if next == 0
      then (vfs, 0, fs)
      else if m == 0
      then (vfs, next, fs)
      else (m, (fs.vfs m).root_vnode, fs)

  -- One component of a path, from vnode `current` in the file system `vfs`.
  abbrev pub through : Option (ℕ → List ℕ → Fs → ℕ × Fs) → ℕ → ℕ → List ℕ → Fs → ℕ × ℕ × Fs
  through none vfs current dirname fs = (vfs, 0, record fs { kerrno = einval })
  through (some f) vfs current dirname fs =
      let r = f current dirname fs in
      let fs' =
        call_inactive (drv.vn_inactive (r.1.vnode current).ops)
          (not (current == (r.1.vfs vfs).root_vnode)) current r.1 in
      arrived vfs fs' r.0

  unfoldable pub lookup_step : ℕ → ℕ → List ℕ → Fs → ℕ × ℕ × Fs
  lookup_step vfs current dirname fs =
      through (drv.vn_lookup (fs.vnode current).ops) vfs current dirname fs

  -- The loop of `vnode_lookup`; `dirname` is what the inner loop has copied.
  unfoldable pub walk : ℕ → ℕ → List ℕ → List ℕ → Fs → ℕ × Fs
  walk vfs current dirname [] fs =
      let r = lookup_step vfs current dirname fs in
      elim dirname [ [] ↦ (current, fs) | _ ∷ _ ↦ (r.1, r.2) ]
  walk vfs current dirname (c ∷ path) fs =
      let r = lookup_step vfs current (dirname ++ c ∷ []) fs in
      let further = walk r.0 r.1 [] path r.2 in
      let longer = walk vfs current (dirname ++ c ∷ []) path fs in
      if c == b'/' then (if r.1 == 0 then (0, r.2) else further) else longer

  -- `none` is a null pointer for the path.
  unfoldable pub vnode_lookup : Option (List ℕ) → Fs → ℕ × Fs
  vnode_lookup none fs = (0, record fs { kerrno = einval })
  vnode_lookup (some []) fs = (0, record fs { kerrno = einval })
  vnode_lookup (some (c ∷ path)) fs =
      if c == b'/'
      then walk fs.root_vfs (fs.vfs fs.root_vfs).root_vnode [] path (record fs { kerrno = 0 })
      else (0, record fs { kerrno = einval })

  abbrev pub path_of : Option (List ℕ) → List ℕ
  path_of none = []
  path_of (some s) = s

  unfoldable pub vnode_open : ℕ → Option (List ℕ) → ℕ → ℕ → Fs → Exec (ℕ × Fs)
  vnode_open fuel path flags mode fs =
      let r = vnode_lookup path fs in
      let v = r.0 in
      let n = r.1.vnode v in
      let fs1 = set_vnode r.1 v (record n { ref_count = (n.ref_count + 1) % 2 ^ 32 }) in
      if v == 0
      then done (0, r.1)
      else if has_flag flags 16 && not (n.type == v_dir)
      then done (0, record r.1 { kerrno = enotdir })
      else if not (has_flag flags 16) && (n.type == v_dir)
      then done (0, record r.1 { kerrno = eisdir })
      else (vnode_list_search_by_filename fuel fs1 n.vfs (path_of path) >>= λ i.
          let fs2 = vnode_list_add fs1 v in
          done (
            v,
            (if i == 0
                then set_vnode fs2 v (record (fs2.vnode v) { flags = flags; mode = mode })
                else fs1),
          ))

  abbrev pub release : Option (ℕ → Fs → ℕ × Fs) → ℕ → Fs → ℕ × Fs
  release none v fs = (0, record fs { live = λ u. if u == v then false else fs.live u })
  release (some f) v fs = f v fs

  unfoldable pub vnode_close : ℕ → Fs → ℕ × Fs
  vnode_close v fs =
      let n = fs.vnode v in
      let count = (n.ref_count + 2 ^ 32 - 1) % 2 ^ 32 in
      let fs1 = set_vnode (record fs { kerrno = 0 }) v (record n { ref_count = count }) in
      if count == 0 then release (drv.vn_inactive n.ops) v (vnode_list_remove fs1 v) else (0, fs1)

  abbrev pub reading : Option (ℕ → ℕ → ℕ → Fs → ℕ × List ℕ × Fs) → ℕ → ℕ → ℕ → Fs → ℕ × List ℕ × Fs
  reading none v size offset fs = (negative einval, [], record fs { kerrno = einval })
  reading (some f) v size offset fs = f v size offset fs

  unfoldable pub vnode_read : ℕ → ℕ → ℕ → Fs → ℕ × List ℕ × Fs
  vnode_read v size offset fs =
      if (fs.vnode v).type == v_dir
      then reading none v size offset fs
      else reading (drv.vn_read (fs.vnode v).ops) v size offset (record fs { kerrno = 0 })

  abbrev pub writing : Option (ℕ → ℕ → List ℕ → ℕ → Fs → ℕ × Fs) → ℕ → ℕ → List ℕ → ℕ → Fs → ℕ × Fs
  writing none v size buf offset fs = (negative einval, record fs { kerrno = einval })
  writing (some f) v size buf offset fs = f v size buf offset fs

  unfoldable pub vnode_write : ℕ → ℕ → List ℕ → ℕ → Fs → ℕ × Fs
  vnode_write v size buf offset fs =
      if (fs.vnode v).type == v_dir
      then writing none v size buf offset fs
      else writing (drv.vn_write (fs.vnode v).ops) v size buf offset (record fs { kerrno = 0 })

  unfoldable pub vnode_readdir : ℕ → ℕ → ℕ → Fs → ℕ × List ℕ × Fs
  vnode_readdir v count offset fs =
      if (fs.vnode v).type == v_dir
      then reading (drv.vn_readdir (fs.vnode v).ops) v count offset (record fs { kerrno = 0 })
      else reading none v count offset fs
