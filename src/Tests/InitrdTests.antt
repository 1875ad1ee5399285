-- ===== src/Tests/InitrdTests.antt =====
-- A ramdisk at address 1000 with the files "a", of 6 bytes, and "b", of 3.
use garn_os.Prelude.{
  ℕ, ◌+◌, ◌-◌, ◌≡◌, refl, arith, ltb, leb, ◌==◌, if◌then◌else◌, some, List, [], ◌∷◌, get_or,
  replicate, ◌&&◌,
}
use garn_os.Prelude.Exec.{done, fault}
use garn_os.Memutil.{Memory}
use garn_os.Files.Vnodes.{Vnode, vnode_list_search_by_filename, search_loop}
use garn_os.Initrd.{FileData, Initrd, initrd_lookup, initrd_tar_conv_number}
use garn_os.Initrd.Octal.{BytesAt, octal, initrd_tar_conv_number-octal}
use garn_os.Initrd.Lookup.{File, FileAt, IsArchive, Opened, initrd_lookup-Opened}

abbrev files : List File
files =
    record { name = 97 ∷ []; content = replicate 6 7 }
    ∷ record { name = 98 ∷ []; content = 1 ∷ 2 ∷ 3 ∷ [] }
    ∷ []

-- The header of a file of below 8 bytes.
abbrev header : ℕ → ℕ → ℕ → ℕ
header name size a =
    if a == 0
    then name
    else if leb 124 a && ltb a 134
    then 48
    else if a == 134
    then 48 + size
    else 0

abbrev memory : Memory
memory a =
    if ltb a 1512
    then header 97 6 (a - 1000)
    else if ltb a 2024
    then get_or (replicate 6 7) (a - 1512) 0
    else if ltb a 2536
    then header 98 3 (a - 2024)
    else get_or (1 ∷ 2 ∷ 3 ∷ []) (a - 2536) 0

six : BytesAt memory 1124 (octal 11 6)
six = (refl, (refl, (refl, (refl, (refl, (refl, (refl, (refl, (refl, (refl, (refl, tt)))))))))))

three : BytesAt memory 2148 (octal 11 3)
three = (refl, (refl, (refl, (refl, (refl, (refl, (refl, (refl, (refl, (refl, (refl, tt)))))))))))

first : FileAt memory 1000 (record { name = 97 ∷ []; content = replicate 6 7 })
first = record {
  named = (refl, (omega arith, omega arith), refl);
  has_name = λ e. absurd cc;
  sized = six;
  fits = refl;
  bounded = omega arith;
  filled = (refl, (refl, (refl, (refl, (refl, (refl, tt))))));
}

second : FileAt memory 2024 (record { name = 98 ∷ []; content = 1 ∷ 2 ∷ 3 ∷ [] })
second = record {
  named = (refl, (omega arith, omega arith), refl);
  has_name = λ e. absurd cc;
  sized = three;
  fits = refl;
  bounded = omega arith;
  filled = (refl, (refl, (refl, tt)));
}

archive : IsArchive memory 1000 files
archive = (first, (second, refl))

initrd_tar_conv_number-octal_example : initrd_tar_conv_number memory 1124 11 ≡ 6
initrd_tar_conv_number-octal_example =
    initrd_tar_conv_number-octal 11 6 memory 1124 (omega arith) refl six

-- The root directory is vnode 1.
abbrev root : Vnode
root = record {
  filename = [];
  mode = 0;
  flags = 0;
  type = 2;
  size = 0;
  ref_count = 0;
  vfs_mounted_here = 0;
  vfs = 5;
  ops = 9;
  next = 0;
  prev = 0;
}

abbrev no_data : FileData
no_data = record {
  start_offset = 0;
  last_modified_time = 0;
  last_changed_time = 0;
  last_accessed_time = 0;
}

abbrev ramdisk : Initrd
ramdisk = record {
  fs = record {
    vnode = λ v. root;
    live = λ v. v == 1;
    vfs = λ v. record { fid = 0; root_vnode = 1 };
    root_vfs = 5;
    list_head = 0;
    list_tail = 0;
    kerrno = 0;
  };
  memory = memory;
  initrd = 1000;
  data_of = λ v. no_data;
}

none_open : vnode_list_search_by_filename 3 ramdisk.fs 5 (98 ∷ []) ≡ done 0
unfolding vnode_list_search_by_filename search_loop
none_open = refl

-- The second file.
initrd_lookup-Opened_example :
    (r : ℕ × Initrd) × (initrd_lookup 3 ramdisk 0 9 2 1 (98 ∷ []) ≡ done r)
    × Opened 2 (some (record { name = 98 ∷ []; content = 1 ∷ 2 ∷ 3 ∷ [] })) r
initrd_lookup-Opened_example =
    initrd_lookup-Opened 3 ramdisk 0 9 2 1 (98 ∷ []) files (omega arith) refl (omega arith, tt)
      none_open archive (omega arith)

-- A name of 256 characters in the root of the archive.
too_long : initrd_lookup 3 ramdisk 0 9 2 1 (replicate 256 98) ≡ fault
unfolding initrd_lookup
too_long = refl
