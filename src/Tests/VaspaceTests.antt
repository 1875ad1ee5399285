-- ===== src/Tests/VaspaceTests.antt =====
-- System calls over the empty page tables of `PagingTests`, with mappings below 2 GiB.
use garn_os.Prelude.{ℕ, ◌≡◌, refl, arith}
use garn_os.Prelude.Run.{Run, ran, panicked}
use garn_os.Prelude.Bits.{test_bit, set_bit}
use garn_os.Pmm.{
  pmm_allocate, pmm_find_free, visit, scan_byte, scan_bytes, set_pages, pmm_bitmap_set,
}
use garn_os.Paging.{Vmm, next_table, arch_mm_map, arch_mm_is_page_free, vmm_map}
use garn_os.Vaspace.{Ret, ret, fail, find_area, finish_mmap, back_area, sys_mmap, vmm_map_range}
use garn_os.Vaspace.Range.{RangeResult, vmm_map_range-RangeResult}
use garn_os.Vaspace.Calls.{IsArea, sys_mmap-IsArea}
use garn_os.Tests.PagingTests.{empty, role, empty-IsTree}

vmm_map_range-RangeResult_example :
    RangeResult 3 1 0x5000 0x8040_3000 empty (vmm_map_range empty 1 0x5000 0x8040_3000 0x2001 3)
vmm_map_range-RangeResult_example =
    vmm_map_range-RangeResult 1 0x5000 0x8040_3000 0x2001 3 empty role empty-IsTree (omega arith)
      (omega arith)

-- `MAP_PRIVATE | MAP_ANONYMOUS | MAP_32BIT`
abbrev flags : ℕ
flags = 41

sys_mmap-IsArea_example : IsArea empty 1 0x7ffe_0000 2 (sys_mmap empty 1 0x7ffe_0000 0x2000 3 flags)
sys_mmap-IsArea_example = sys_mmap-IsArea empty 1 0x7ffe_0000 0x2000 3 flags

returned : Run (Ret × Vmm) → Ret
returned (ran r) = r.0
returned panicked = fail 0

returned_address : returned (sys_mmap empty 1 0x7ffe_0000 0x2000 3 flags) ≡ ret 0x7ffe_0000
unfolding returned sys_mmap finish_mmap back_area find_area vmm_map arch_mm_is_page_free arch_mm_map
    next_table pmm_allocate pmm_find_free visit scan_byte scan_bytes set_pages pmm_bitmap_set
    test_bit set_bit
returned_address = refl
