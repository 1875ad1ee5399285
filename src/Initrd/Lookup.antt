-- ===== src/Initrd/Lookup.antt =====
-- `initrd_lookup` and `initrd_read` on an archive of files.
use garn_os.Prelude.{
  ℕ, zero, suc, ◌+◌, ◌*◌, ◌/◌, ◌^◌, ◌<◌, ◌≡◌, ◌≢◌, refl, sym, ap, ◌∙◌, subst, arith, Bool, ltb,
  true, false, leb, ◌==◌, if◌then◌else◌, inl, inr, Bool-cases, Option, some, none, List, [], ◌∷◌,
  ◌++◌, append_assoc, get_or-drop, length-drop, length-append, append-nil, take, drop, length,
}
use garn_os.Prelude.Exec.{Exec, done, fault}
use garn_os.Memutil.{Memory}
use garn_os.Memutil.Strings.{StringAt}
use garn_os.Files.Vnodes.{v_dir, vnode_list_search_by_filename, same_string}
use garn_os.Initrd.{
  initrd_tar_conv_number, same_at, next_header, find_header, Initrd, open_header, initrd_lookup,
  fullname_size, read_up, initrd_read, size_at, enoent,
}
use garn_os.Initrd.Octal.{BytesAt, shift, octal, initrd_tar_conv_number-octal}

-- A file of the archive.
pub record File : Type 0 where
  pub name : List ℕ
  pub content : List ℕ

-- The bytes of a file and of what fills its last block of 512 bytes.
abbrev pub room : List ℕ → ℕ
room content = (length content + 511) / 512 * 512

-- The file stands at `h`: its name, the octal digits of its size, and its content.
pub record FileAt (m : Memory) (h : ℕ) (f : File) : Type 0 where
  pub named : StringAt m h f.name
  pub has_name : f.name ≢ []
  pub sized : BytesAt m (h + size_at) (octal 11 (length f.content))
  pub fits : shift 11 (length f.content) ≡ 0
  pub bounded : length f.content < 2 ^ 64
  pub filled : BytesAt m (h + 512) f.content

-- The files stand one after another, and a zero byte ends them.
abbrev pub IsArchive : Memory → ℕ → List File → Type 0
IsArchive m h [] = m h ≡ 0
IsArchive m h (f ∷ fs) = FileAt m h f × IsArchive m (h + 512 + room f.content) fs

-- The first file of the name.
abbrev pub find_file : List ℕ → List File → Option File
find_file name [] = none
find_file name (f ∷ fs) = if same_string f.name name then some f else find_file name fs

-- What the search gives: nothing, or the address of the file.
pub data Located (m : Memory) : Option File → Option ℕ → Type 0 where
  nowhere : Located m none none
  found : {f : File} {h : ℕ} → FileAt m h f → Located m (some f) (some h)

size_lem :
    (m : Memory) (h : ℕ) (f : File)
    → FileAt m h f
    → initrd_tar_conv_number m (h + size_at) 11 ≡ length f.content
size_lem m h f p =
    initrd_tar_conv_number-octal 11 (length f.content) m (h + size_at) p.bounded p.fits p.sized

next_header-room :
    (m : Memory) (h : ℕ) (f : File) → FileAt m h f → next_header m h ≡ h + 512 + room f.content
unfolding next_header
next_header-room m h f p = rw (size_lem m h f p) (ground arith)

-- No character is zero.
abbrev pub IsText : List ℕ → Type 0
IsText [] = Unit
IsText (c ∷ name) = (c ≢ 0) × IsText name

same_at-same_string :
    (m : Memory) (s : ℕ) (xs name : List ℕ)
    → IsText name
    → StringAt m s xs
    → same_at m s name ≡ same_string xs name
same_at-same_string m s [] [] t h = ground (arith, h)
same_at-same_string m s [] (c ∷ name) t h =
    let ne : (m s == c) ≡ false = ground (arith, t.0, h) in rw ne refl
same_at-same_string m s (x ∷ xs) [] t h = ground (arith, h.0, h.1.0)
same_at-same_string m s (x ∷ xs) (c ∷ name) t h =
    rw (h.0, same_at-same_string m (s + 1) xs name t.1 h.2) refl

first_char : (m : Memory) (s : ℕ) (xs : List ℕ) → xs ≢ [] → StringAt m s xs → (m s == 0) ≡ false
first_char m s [] ne h = absurd (ne refl)
first_char m s (x ∷ xs) ne h = ground (arith, h.0, h.1.0)

find_header-Located :
    (fuel : ℕ) (m : Memory) (name : List ℕ) (h : ℕ) (files : List File)
    → IsText name
    → IsArchive m h files
    → length files < fuel
    → (r : Option ℕ) × (find_header fuel m name h ≡ done r) × Located m (find_file name files) r
unfolding find_header
find_header-Located zero m name h files t a enough = absurd (omega arith)
find_header-Located (suc fuel) m name h [] t a enough = (none, rw a refl, nowhere)
find_header-Located (suc fuel) m name h (f ∷ files) t a enough =
    let some_name = first_char m h f.name a.0.has_name a.0.named in
    let same = same_at-same_string m h f.name name t a.0.named in
    elim (Bool-cases (same_string f.name name)) [
      | inl equal ↦ (some h, rw (some_name, same, equal) refl, rw equal (found a.0))
      | inr other ↦
          let r =
            find_header-Located fuel m name (next_header m h) files t
              (subst (λ a. IsArchive m a files) (sym (next_header-room m h f a.0)) a.1)
              (omega arith) in
          (r.0, rw (some_name, same, other) r.1, rw other r.2)
    ]

BytesAt-drop :
    (m : Memory) (s k : ℕ) (xs : List ℕ) (b : ℕ) (ys : List ℕ)
    → BytesAt m s xs
    → drop k xs ≡ b ∷ ys
    → m (s + k) ≡ b
BytesAt-drop m s zero [] b ys h e = absurd cc
BytesAt-drop m s zero (x ∷ xs) b ys h e = ap m (omega arith) ∙ h.0 ∙ cc
BytesAt-drop m s (suc k) [] b ys h e = absurd cc
BytesAt-drop m s (suc k) (x ∷ xs) b ys h e =
    ap m (omega arith) ∙ BytesAt-drop m (s + 1) k xs b ys h.1 e

-- What a read gives: the number of the bytes, and the bytes.
abbrev pub counted : List ℕ → ℕ × List ℕ
counted out = (length out, out)

read_up-take :
    (k i : ℕ) (m : Memory) (start n offset : ℕ) (out content rest : List ℕ)
    → BytesAt m start content
    → n ≡ length content
    → i ≡ length out
    → drop offset content ≡ rest
    → read_up k i m start n offset out ≡ counted (out ++ take k rest)
unfolding read_up
read_up-take zero i m start n offset out content rest h e c d = rw (append-nil out, c) refl
read_up-take (suc k) i m start n offset out content [] h e c d =
    let beyond : leb n offset ≡ true = ground (arith, length-drop offset content, ap length d) in
    rw (beyond, append-nil out, c) refl
read_up-take (suc k) i m start n offset out content (b ∷ rest) h e c d =
    let within : leb n offset ≡ false = ground (arith, length-drop offset content, ap length d) in
    let byte = BytesAt-drop m start offset content b rest h d in
    let step : offset + 1 ≡ suc offset = omega arith in
    let next : drop (offset + 1) content ≡ rest =
      ap (λ o. drop o content) step ∙ (get_or-drop offset content 0 b rest d).1 in
    let r =
      read_up-take k (i + 1) m start n (offset + 1) (out ++ b ∷ []) content rest h e
        (omega (arith, length-append out (b ∷ []))) next in
    rw (within, byte) (r ∙ ap counted (append_assoc out (b ∷ []) (take k rest)))

-- The archive of the files, at the start of the ramdisk.
abbrev pub Holds : Initrd → List File → Type 0
Holds d files = IsArchive d.memory d.initrd files

-- What a call of `initrd_lookup` gives, if no open vnode has the name: the vnode `v`, from which the
-- content of the file is read, or null and ENOENT.
abbrev pub Opened : ℕ → Option File → ℕ × Initrd → Type 0
Opened v none r = (r.0 ≡ 0) × (r.1.fs.kerrno ≡ enoent)
Opened v (some f) r =
    (r.0 ≡ v)
    × ((r.1.fs.vnode v).size ≡ length f.content)
    × ((size offset : ℕ)
        → initrd_read r.1 v size offset ≡ counted (take size (drop offset f.content)))

Located-Opened :
    (d : Initrd) (now ops v vfs : ℕ) (name : List ℕ) (f : File) (h : ℕ)
    → FileAt d.memory h f
    → Opened v (some f) (v, open_header d now ops v vfs name h)
unfolding open_header initrd_read
Located-Opened d now ops v vfs name f h p =
    let here : (v == v) ≡ true = ground arith in
    let size = size_lem d.memory h f p in
    (
      refl,
      rw (here, size) refl,
      λ n offset.
          rw (here, size)
            (read_up-take n 0 d.memory (h + 512) (length f.content) offset [] f.content
              (drop offset f.content) p.filled refl refl refl),
    )

-- What `initrd_lookup` does with the result of the search.
abbrev on_header : Initrd → ℕ → ℕ → ℕ → ℕ → List ℕ → Option ℕ → Exec (ℕ × Initrd)
on_header d now ops v vfs name none = done (0, record d { fs = record d.fs { kerrno = enoent } })
on_header d now ops v vfs name (some h) = done (v, open_header d now ops v vfs name h)

Located-result :
    (d : Initrd) (now ops v vfs : ℕ) (name : List ℕ) {f : Option File} {h : Option ℕ}
    (x : Exec (ℕ × Initrd))
    → Located d.memory f h
    → x ≡ on_header d now ops v vfs name h
    → (r : ℕ × Initrd) × (x ≡ done r) × Opened v f r
Located-result d now ops v vfs name x nowhere e =
    ((0, record d { fs = record d.fs { kerrno = enoent } }), e, (refl, refl))
Located-result d now ops v vfs name x (found {f = f} {h = h} p) e =
    ((v, open_header d now ops v vfs name h), e, Located-Opened d now ops v vfs name f h p)

-- What a lookup does with a joined name that fits its buffer, or does not.
abbrev pub LookedUp : Bool → ℕ → Option File → Exec (ℕ × Initrd) → Type 0
LookedUp true v f x = (r : ℕ × Initrd) × (x ≡ done r) × Opened v f r
LookedUp false v f x = x ≡ fault

-- On an archive of files, `initrd_lookup` in a directory, of a name that no open vnode has, where the
-- joined name has at most 255 characters, gives null and ENOENT if no file has the joined name.
-- Otherwise it gives the new vnode, which has the size of the first such file, and from which
-- `initrd_read` gets exactly the bytes of that file from the offset on, as many as are asked for and
-- there are. A longer name overruns its buffer. Fuel above the number of files is enough.
pub initrd_lookup-Opened :
    (fuel : ℕ) (d : Initrd) (now ops v self : ℕ) (name : List ℕ) (files : List File)
    → self ≢ 0
    → (d.fs.vnode self).type ≡ v_dir
    → IsText ((d.fs.vnode self).filename ++ name)
    → vnode_list_search_by_filename fuel d.fs
        (d.fs.vnode self).vfs
        ((d.fs.vnode self).filename ++ name)
      ≡ done 0
    → Holds d files
    → length files < fuel
    → LookedUp
        (ltb (length ((d.fs.vnode self).filename ++ name)) 256)
        v
        (find_file ((d.fs.vnode self).filename ++ name) files)
        (initrd_lookup fuel d now ops v self name)
unfolding initrd_lookup
initrd_lookup-Opened fuel d now ops v self name files nonnull dir text fresh archive enough =
    let fullname = (d.fs.vnode self).filename ++ name in
    let searched = find_header-Located fuel d.memory fullname d.initrd files text archive enough in
    let nn : (self == 0) ≡ false = ground (arith, nonnull) in
    let is_dir : ((d.fs.vnode self).type == v_dir) ≡ true = ground (arith, dir) in
    elim (Bool-cases (ltb (length fullname) 256)) [
      | inl fits ↦
          let inside : leb fullname_size (length fullname) ≡ false = ground arith in
          let r =
            Located-result d now ops v (d.fs.vnode self).vfs fullname
              (initrd_lookup fuel d now ops v self name) searched.2
              (rw (nn, is_dir, inside, fresh, searched.1) refl) in
          rw fits r
      | inr long ↦
          let beyond : leb fullname_size (length fullname) ≡ true = ground arith in
          rw long (rw (nn, is_dir, beyond) refl)
    ]
