-- ===== src/Vaspace.antt =====
-- kernel/mem/vmm/vaspace.c and the range functions of kernel/mem/vmm/paging.c: the system calls
-- that map and unmap memory of the running process, whose page tables are named by `top`.
pub mod Range
pub mod Search
pub mod Calls
use garn_os.Prelude.{
  ℕ, zero, suc, ◌+◌, ◌-◌, ◌*◌, ◌/◌, ◌%◌, ◌^◌, Bool, true, false, not, ◌||◌, Option, none, some, ltb,
  ◌==◌, if◌then◌else◌,
}
use garn_os.Prelude.Run.{Run, ran, ◌>>=◌}
use garn_os.Pmm.{page_size, pmm_allocate, pmm_free}
use garn_os.Paging.{
  Vmm, has_flag, vmm_map, arch_mm_unmap, arch_mm_is_page_free, arch_mm_virt_to_phys,
}

-- What a system call returns: a value, or `-errno`.
pub data Ret : Type 0 where
  ret : ℕ → Ret
  fail : ℕ → Ret

abbrev pub enomem : ℕ
enomem = 12

abbrev pub einval : ℕ
einval = 22

abbrev pub vmm_user_end : ℕ
vmm_user_end = 0x8000_0000_0000

-- The rounds of `for(size_t i = 0; i < length; i+=PAGE_SIZE)`.
abbrev pub rounds : ℕ → ℕ
rounds length = (length + page_size - 1) / page_size

-- The loop of `vmm_map_range`, with `k` rounds left.
unfoldable pub map_pages : ℕ → Vmm → ℕ → ℕ → ℕ → ℕ → Run Vmm
map_pages zero v pt phys virt flags = ran v
map_pages (suc k) v pt phys virt flags = vmm_map v pt phys virt flags >>= λ v'.
    map_pages k v' pt ((phys + page_size) % 2 ^ 64) ((virt + page_size) % 2 ^ 64) flags

unfoldable pub vmm_map_range : Vmm → ℕ → ℕ → ℕ → ℕ → ℕ → Run Vmm
vmm_map_range v pt phys virt length flags = map_pages (rounds length) v pt phys virt flags

-- The search of `sys_mmap` from address `i`, with `k` rounds left: `npages` pages up to `i` are
-- free and begin at `addr`. The result is the address at which `length` pages are free.
unfoldable pub find_area : Vmm → ℕ → ℕ → ℕ → ℕ → ℕ → ℕ → Option ℕ
find_area v pt length zero i npages addr = none
find_area v pt length (suc k) i npages addr =
    let again = find_area v pt length k (i + page_size) 0 addr in
    let addr' = if npages + 1 == 1 then i else addr in
    let further = find_area v pt length k (i + page_size) (npages + 1) addr' in
    if arch_mm_is_page_free v.tables pt i
    then (if npages + 1 == length then some addr' else further)
    else again

-- `vmmflags` of `sys_mmap`: user, present and `VMM_EXEC_DISABLE`, by the bits of `prot`.
abbrev pub mmap_flags : ℕ → ℕ
mmap_flags prot = 5 + (if has_flag prot 1 then 2 else 0) + (if has_flag prot 2 then 0 else 2 ^ 63)

-- The loop over `j` that backs the area with pages, with `k` rounds left.
unfoldable pub back_area : ℕ → Vmm → ℕ → ℕ → ℕ → Run Vmm
back_area zero v pt virt flags = ran v
back_area (suc k) v pt virt flags = pmm_allocate v.pmm 1 >>= λ r.
    vmm_map (record v { pmm = r.1 }) pt r.0 virt flags >>= λ v'.
    back_area k v' pt (virt + page_size) flags

unfoldable pub finish_mmap : Vmm → ℕ → ℕ → ℕ → Option ℕ → Run (Ret × Vmm)
finish_mmap v pt length prot none = ran (fail enomem, v)
finish_mmap v pt length prot (some addr) =
    back_area length v pt addr (mmap_flags prot) >>= λ v'. ran (ret addr, v')

-- The `ALIGN_UP`s of `sys_mmap` and `sys_munmap` stand alone, and change nothing.
unfoldable pub sys_mmap : Vmm → ℕ → ℕ → ℕ → ℕ → ℕ → Run (Ret × Vmm)
unfolding finish_mmap
sys_mmap v pt addr length prot flags =
    let start = if addr == 0 then 0x1000 else addr in
    let user_end = if has_flag flags 5 then 0x8000_0000 else vmm_user_end in
    if length == 0
    then ran (fail einval, v)
    else if ltb vmm_user_end addr
    then ran (fail enomem, v)
    else if has_flag flags 1
    then ran (fail einval, v)
    else if not (has_flag flags 0)
    then ran (fail einval, v)
    else if not (has_flag flags 3)
    then ran (fail einval, v)
    else finish_mmap v pt (length / page_size) prot
        (find_area v pt (length / page_size) (rounds (user_end - start)) start 0 start)

-- The loop of `sys_munmap`, with `k` rounds left.
unfoldable pub unmap_pages : ℕ → Vmm → ℕ → ℕ → Run (Ret × Vmm)
unmap_pages zero v pt addr = ran (fail enomem, v)
unmap_pages (suc k) v pt addr =
    let phys = arch_mm_virt_to_phys v.tables pt addr in
    let rest = pmm_free v.pmm phys 1 >>= λ pmm'.
    unmap_pages k (arch_mm_unmap (record v { pmm = pmm' }) pt addr) pt (addr + page_size) in
    if phys == 0 then ran (fail einval, v) else rest

unfoldable pub sys_munmap : Vmm → ℕ → ℕ → ℕ → Run (Ret × Vmm)
sys_munmap v pt addr length =
    if length == 0
    then ran (fail einval, v)
    else if ltb vmm_user_end addr || not (addr % page_size == 0)
    then ran (fail einval, v)
    else unmap_pages (length / page_size) v pt addr
