-- ===== src/Initrd.antt =====
-- kernel/sys/fal/initrd/initrd.c: the initial ramdisk, a tar archive that the boot loader leaves in
-- memory. A path is a list of characters; a joined name that does not fit the 256 bytes that
-- `initrd_lookup` has for it, with its zero byte, is written past them, which is a fault. The
-- addresses of the archive do not wrap round at 2 ^ 64. The time and the block that `kmalloc` returns
-- are arguments. The walk over the headers takes fuel.
pub mod Octal
pub mod Lookup
use garn_os.Prelude.{
  ℕ, zero, suc, ◌+◌, ◌-◌, ◌*◌, ◌/◌, ◌%◌, ◌^◌, Bool, true, false, not, ◌&&◌, ◌||◌, Option, none,
  some, List, [], ◌∷◌, ◌++◌, ltb, leb, length, ◌==◌, if◌then◌else◌,
}
use garn_os.Prelude.Words.{word, align_up}
use garn_os.Prelude.Exec.{Exec, done, fault, spent, ◌>>=◌}
use garn_os.Memutil.{Memory}
use garn_os.Files.Vnodes.{
  Fs, Vnode, Vfs, set_vnode, vnode_new, vnode_list_search_by_filename, enotdir, v_dir,
}

abbrev pub enoent : ℕ
enoent = 2

abbrev pub v_bad : ℕ
v_bad = 7

abbrev pub v_reg : ℕ
v_reg = 1

-- The offsets of the fields of `initrd_tar_header_t`, and its size.
abbrev pub size_at : ℕ
size_at = 124

abbrev pub time_at : ℕ
time_at = 136

abbrev pub type_at : ℕ
type_at = 156

abbrev pub header_size : ℕ
header_size = 157

-- `(uint64_t)(c - '0')`, where a `char` has a sign.
abbrev pub digit_of : ℕ → ℕ
digit_of c = word ((if ltb c 128 then c else c + (2 ^ 64 - 256)) + (2 ^ 64 - 48))

-- The loop of `initrd_tar_conv_number` from byte `i`, with `k` bytes left.
unfoldable pub conv_up : ℕ → ℕ → ℕ → Memory → ℕ → ℕ
conv_up zero i n m s = n
conv_up (suc k) i n m s = conv_up k (i + 1) (word (word (n * 8) + digit_of (m (s + i)))) m s

unfoldable pub initrd_tar_conv_number : Memory → ℕ → ℕ → ℕ
initrd_tar_conv_number m s size = conv_up size 0 0 m s

-- `!strcmp(name, s)`
abbrev pub same_at : Memory → ℕ → List ℕ → Bool
same_at m s [] = m s == 0
same_at m s (c ∷ name) = (m s == c) && same_at m (s + 1) name

-- The next header.
unfoldable pub next_header : Memory → ℕ → ℕ
next_header m h =
    let size = initrd_tar_conv_number m (h + size_at) 11 in
    let h1 = h + (size / 512 + 1) * 512 in if size % 512 == 0 then h1 else h1 + 512

-- The loop of `initrd_lookup` from the header `h`.
unfoldable pub find_header : ℕ → Memory → List ℕ → ℕ → Exec (Option ℕ)
find_header zero m name h = spent
find_header (suc fuel) m name h =
    let rest = find_header fuel m name (next_header m h) in
    if m h == 0 then done none else if same_at m h name then done (some h) else rest

-- The times of a vnode, in seconds, and its `initrd_file_fs_data_t`.
pub record FileData : Type 0 where
  pub start_offset : ℕ
  pub last_modified_time : ℕ
  pub last_changed_time : ℕ
  pub last_accessed_time : ℕ

-- The files, the archive and what this file system keeps for a vnode.
pub record Initrd : Type 0 where
  pub fs : Fs
  pub memory : Memory
  pub initrd : ℕ
  pub data_of : ℕ → FileData

abbrev pub type_of : ℕ → ℕ
type_of flag = if flag == 0 || flag == 48 then v_reg else if flag == 53 then v_dir else v_bad

-- The vnode of the file whose header is at `h`; `now` is the time, and `v` what `kmalloc` returns.
unfoldable pub open_header : Initrd → ℕ → ℕ → ℕ → ℕ → List ℕ → ℕ → Initrd
open_header d now ops v vfs name h =
    let size = initrd_tar_conv_number d.memory (h + size_at) 11 in
    let modified = initrd_tar_conv_number d.memory (h + time_at) 11 in
    let fs = vnode_new d.fs v vfs ops in
    record d {
      fs = set_vnode fs v (record (fs.vnode v) {
        filename = name;
        type = type_of (d.memory (h + type_at));
        size = size;
      });
      data_of = λ u.
          if u == v
          then record {
            start_offset = h + align_up header_size 512;
            last_modified_time = modified;
            last_changed_time = modified;
            last_accessed_time = if now == 0 then modified else now;
          }
          else d.data_of u;
    }

-- The size of `fullname`.
abbrev pub fullname_size : ℕ
fullname_size = 256

-- `ops` names `initrdVnodeOps`.
unfoldable pub initrd_lookup : ℕ → Initrd → ℕ → ℕ → ℕ → ℕ → List ℕ → Exec (ℕ × Initrd)
initrd_lookup fuel d now ops v self name =
    let n = d.fs.vnode self in
    let fullname = n.filename ++ name in
    if self == 0 || not (n.type == v_dir)
    then done (0, record d { fs = record d.fs { kerrno = enotdir } })
    else if leb fullname_size (length fullname)
    then fault
    else vnode_list_search_by_filename fuel d.fs n.vfs fullname >>= λ listed.
        if listed == 0
        then (find_header fuel d.memory fullname d.initrd >>= λ r. elim r [
          | none ↦ done (0, record d { fs = record d.fs { kerrno = enoent } })
          | some h ↦ done (v, open_header d now ops v n.vfs fullname h)
        ])
        else done (listed, d)

-- The loop of `initrd_read` from byte `i`, with `k` bytes left: what is returned, and what was
-- written.
unfoldable pub read_up : ℕ → ℕ → Memory → ℕ → ℕ → ℕ → List ℕ → ℕ × List ℕ
read_up zero i m start size offset out = (i, out)
read_up (suc k) i m start size offset out =
    let rest = read_up k (i + 1) m start size (offset + 1) (out ++ m (start + offset) ∷ []) in
    if leb size offset then (i, out) else rest

unfoldable pub initrd_read : Initrd → ℕ → ℕ → ℕ → ℕ × List ℕ
initrd_read d self size offset =
    read_up size 0 d.memory (d.data_of self).start_offset (d.fs.vnode self).size offset []

unfoldable pub initrd_inactive : Initrd → ℕ → ℕ × Initrd
initrd_inactive d v =
    (0, record d { fs = record d.fs { live = λ u. if u == v then false else d.fs.live u } })
