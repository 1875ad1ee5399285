-- ===== src/Paging.antt =====
-- kernel/arch/x86_64/mm.c and kernel/mem/vmm/paging.c: four-level page tables.
-- A table is named by its frame: the code reaches it at `(frame << 12) + bl_get_hhdm_offset()`,
-- the bootloader's direct map of physical memory, and stores `(address - offset) >> 12`, which is
-- the frame again. The lock `VMMlock` is held over each call, so a call is one step.
pub mod Walk
pub mod Tree
pub mod Grow
pub mod Leaf
pub mod Map
pub mod Unmap
pub mod Pages
use garn_os.Prelude.{ℕ, ◌+◌, ◌*◌, ◌/◌, ◌%◌, ◌^◌, Bool, true, false, not, ◌&&◌, ◌==◌, if◌then◌else◌}
use garn_os.Prelude.Run.{Run, ran, ◌>>=◌}
use garn_os.Pmm.{Pmm, page_size, pmm_allocate}

-- `page_table_entry_t`; `addr` has 51 bits.
pub record Entry : Type 0 where
  pub present : Bool
  pub read_write : Bool
  pub user_supervisor : Bool
  pub write_through : Bool
  pub cache_disable : Bool
  pub accessed : Bool
  pub avl0 : Bool
  pub page_size : Bool
  pub avl1 : ℕ
  pub addr : ℕ
  pub nx : Bool

-- An entry of a table that `memset` has cleared.
abbrev pub zero_entry : Entry
zero_entry = record {
  present = false;
  read_write = false;
  user_supervisor = false;
  write_through = false;
  cache_disable = false;
  accessed = false;
  avl0 = false;
  page_size = false;
  avl1 = 0;
  addr = 0;
  nx = false;
}

-- The entries of the table in each frame.
abbrev pub Tables : Type 0
Tables = ℕ → ℕ → Entry

abbrev pub write : Tables → ℕ → ℕ → Entry → Tables
write t f i e f' i' = if (f' == f) && (i' == i) then e else t f' i'

-- `memset(table, 0, sizeof(page_table_t))`
abbrev pub clear : Tables → ℕ → Tables
clear t g f i = if f == g then zero_entry else t f i

pub record Vmm : Type 0 where
  pub pmm : Pmm
  pub tables : Tables

-- A bit of the `uint32_t` flags, as the code stores it in a one-bit field.
abbrev pub has_flag : ℕ → ℕ → Bool
has_flag flags k = flags / 2 ^ k % 2 == 1

-- `mm_indexer`: the indices of the four levels, the lowest first.
pub record Indices : Type 0 where
  pub p : ℕ
  pub pt : ℕ
  pub pd : ℕ
  pub pdp : ℕ

unfoldable pub mm_indexer : ℕ → Indices
mm_indexer virt = record {
  p = virt / 2 ^ 12 % 512;
  pt = virt / 2 ^ 12 / 2 ^ 9 % 512;
  pd = virt / 2 ^ 12 / 2 ^ 9 / 2 ^ 9 % 512;
  pdp = virt / 2 ^ 12 / 2 ^ 9 / 2 ^ 9 / 2 ^ 9 % 512;
}

-- The table that entry `i` of table `f` leads to, made if there is none.
unfoldable pub next_table : Vmm → ℕ → ℕ → ℕ → Run (ℕ × Vmm)
next_table v f i flags =
    let e = v.tables f i in
    if e.present
    then ran (e.addr, v)
    else pmm_allocate v.pmm 1 >>= λ r.
        let g = r.0 / 2 ^ 12 in
        ran (
          g,
          record {
            pmm = r.1;
            tables = write (clear v.tables g) f i (record e {
              addr = g % 2 ^ 51;
              present = true;
              read_write = true;
              user_supervisor = has_flag flags 2;
            });
          },
        )

-- The fields that `arch_mm_map` and `arch_mm_set_flags` set from the flags. `VMM_EXEC_DISABLE` is
-- bit 63.
abbrev pub with_flags : Entry → ℕ → Entry
with_flags e flags = record e {
  present = has_flag flags 0;
  read_write = has_flag flags 1;
  user_supervisor = has_flag flags 2;
  write_through = has_flag flags 3;
  cache_disable = has_flag flags 4;
  accessed = has_flag flags 5;
  page_size = false;
  nx = has_flag flags 63;
}

unfoldable pub arch_mm_map : Vmm → ℕ → ℕ → ℕ → ℕ → Run Vmm
unfolding mm_indexer
arch_mm_map v pt phys virt flags =
    let x = mm_indexer virt in
    next_table v pt x.pdp flags >>= λ r1. next_table r1.1 r1.0 x.pd flags >>= λ r2.
    next_table r2.1 r2.0 x.pt flags >>= λ r3.
    let v3 = r3.1 in
    let e = v3.tables r3.0 x.p in
    ran (record v3 {
      tables =
          write v3.tables r3.0 x.p (with_flags (record e { addr = phys / 2 ^ 12 % 2 ^ 51 }) flags);
    })

-- The last table on the way to a page: `arch_mm_unmap` and `arch_mm_set_flags` test no entry.
unfoldable pub last_table : Tables → ℕ → ℕ → ℕ
unfolding mm_indexer
last_table t pt virt = let x = mm_indexer virt in (t (t (t pt x.pdp).addr x.pd).addr x.pt).addr

unfoldable pub arch_mm_unmap : Vmm → ℕ → ℕ → Vmm
unfolding last_table
arch_mm_unmap v pt virt =
    let f = last_table v.tables pt virt in
    let i = (mm_indexer virt).p in
    let e = v.tables f i in
    record v { tables = write v.tables f i (record e { present = false; addr = 0 }) }

unfoldable pub arch_mm_set_flags : Vmm → ℕ → ℕ → ℕ → Vmm
unfolding last_table
arch_mm_set_flags v pt virt flags =
    let f = last_table v.tables pt virt in
    let i = (mm_indexer virt).p in
    record v { tables = write v.tables f i (with_flags (v.tables f i) flags) }

-- `!currentEntry.present && currentEntry.addr == 0`
abbrev pub is_absent : Entry → Bool
is_absent e = not e.present && (e.addr == 0)

unfoldable pub arch_mm_is_page_free : Tables → ℕ → ℕ → Bool
unfolding mm_indexer
arch_mm_is_page_free t pt virt =
    let x = mm_indexer virt in
    if is_absent (t pt x.pdp)
    then true
    else let pdp = (t pt x.pdp).addr in
      if is_absent (t pdp x.pd)
      then true
      else let pd = (t pdp x.pd).addr in
        if is_absent (t pd x.pt)
        then true
        else let p = (t pd x.pt).addr in if is_absent (t p x.p) then true else false

-- `addr` is a field of 51 bits, which is shifted as such: the bits from 2 ^ 51 on are lost.
unfoldable pub arch_mm_virt_to_phys : Tables → ℕ → ℕ → ℕ
unfolding mm_indexer
arch_mm_virt_to_phys t pt virt =
    let x = mm_indexer virt in
    if is_absent (t pt x.pdp)
    then 0
    else let pdp = (t pt x.pdp).addr in
      if is_absent (t pdp x.pd)
      then 0
      else let pd = (t pdp x.pd).addr in
        if is_absent (t pd x.pt)
        then 0
        else let p = (t pd x.pt).addr in
          if is_absent (t p x.p) then 0 else (t p x.p).addr * 2 ^ 12 % 2 ^ 51

-- `flags` is a `uint32_t` from here on.
unfoldable pub vmm_map : Vmm → ℕ → ℕ → ℕ → ℕ → Run Vmm
vmm_map v pt phys virt flags = arch_mm_map v pt phys virt (flags % 2 ^ 32)
