-- ===== src/Tests/PagingTests.antt =====
-- Page tables that begin with one cleared table in frame 1, over the bitmap of `PmmTests`.
use garn_os.Prelude.{ℕ, ◌+◌, ◌^◌, ◌≡◌, refl, true, false, arith, ◌==◌, if◌then◌else◌}
use garn_os.Prelude.Run.{Run, ran, panicked}
use garn_os.Prelude.Bits.{test_bit, set_bit}
use garn_os.Pmm.{
  pmm_allocate, pmm_find_free, visit, scan_byte, scan_bytes, set_pages, pmm_bitmap_set,
}
use garn_os.Paging.{
  Vmm, zero_entry, mm_indexer, next_table, arch_mm_map, arch_mm_unmap, arch_mm_is_page_free,
  arch_mm_virt_to_phys, vmm_map,
}
use garn_os.Paging.Walk.{leaf}
use garn_os.Paging.Tree.{Role, root, other, IsTree}
use garn_os.Paging.Map.{Mapped, arch_mm_map-Mapped}
use garn_os.Paging.Pages.{arch_mm_unmap-arch_mm_map, vmm_map_executable}
use garn_os.Tests.PmmTests.{small, small-IsValid}

abbrev pub empty : Vmm
empty = record { pmm = small; tables = λ f i. zero_entry }

abbrev pub role : ℕ → Role
role f = if f == 1 then root else other

pub empty-IsTree : IsTree role 1 empty
unfolding test_bit
empty-IsTree = record {
  valid = small-IsValid;
  fits = omega arith;
  rooted = refl;
  linked = λ f i d p. absurd (ground arith);
  broken = λ f i d p. refl;
  owned = λ f o. ground arith;
}

-- The tables made on the way take the frames 2, 3 and 5.
after_map : Run Vmm → Vmm
after_map (ran v) = v
after_map panicked = empty

abbrev mapped : Vmm
mapped = after_map (arch_mm_map empty 1 0x1234_5678 0x8040_3000 3)

mapped_lem : arch_mm_map empty 1 0x1234_5678 0x8040_3000 3 ≡ ran mapped
unfolding after_map arch_mm_map next_table pmm_allocate pmm_find_free visit scan_byte scan_bytes
    set_pages pmm_bitmap_set test_bit set_bit
mapped_lem = refl

phys_of_mapped :
    (arch_mm_virt_to_phys mapped.tables 1 0x8040_3fff ≡ 0x1234_5000)
    × (arch_mm_virt_to_phys mapped.tables 1 0x8040_4000 ≡ 0)
unfolding after_map arch_mm_map next_table pmm_allocate pmm_find_free visit scan_byte scan_bytes
    set_pages pmm_bitmap_set test_bit set_bit arch_mm_virt_to_phys
phys_of_mapped = (refl, refl)

arch_mm_map-Mapped_example :
    Mapped 1 empty
      (mm_indexer 0x8040_3000)
      0x1234_5678
      3
      (arch_mm_map empty 1 0x1234_5678 0x8040_3000 3)
arch_mm_map-Mapped_example = arch_mm_map-Mapped role 1 empty 0x1234_5678 0x8040_3000 3 empty-IsTree

page_is_free : arch_mm_is_page_free empty.tables 1 0x8040_3000 ≡ true
unfolding arch_mm_is_page_free
page_is_free = refl

arch_mm_unmap-arch_mm_map_example :
    (arch_mm_virt_to_phys (arch_mm_unmap mapped 1 0x8040_3000).tables 1 0x8040_3abc
      ≡ arch_mm_virt_to_phys empty.tables 1 0x8040_3abc)
    × (arch_mm_is_page_free (arch_mm_unmap mapped 1 0x8040_3000).tables 1 0x8040_3abc
        ≡ arch_mm_is_page_free empty.tables 1 0x8040_3abc)
arch_mm_unmap-arch_mm_map_example =
    arch_mm_unmap-arch_mm_map role 1 empty mapped 0x1234_5678 0x8040_3000 3 empty-IsTree refl
      page_is_free mapped_lem 0x8040_3abc

-- The flags ask for bit 63, `VMM_EXEC_DISABLE`.
abbrev locked : Vmm
locked = after_map (vmm_map empty 1 0x5000 0x8040_3000 (2 ^ 63 + 3))

locked_lem : vmm_map empty 1 0x5000 0x8040_3000 (2 ^ 63 + 3) ≡ ran locked
unfolding after_map vmm_map arch_mm_map next_table pmm_allocate pmm_find_free visit scan_byte
    scan_bytes set_pages pmm_bitmap_set test_bit set_bit
locked_lem = refl

vmm_map_executable_example : (leaf locked.tables 1 (mm_indexer 0x8040_3000)).nx ≡ false
vmm_map_executable_example =
    vmm_map_executable role 1 empty locked 0x5000 0x8040_3000 (2 ^ 63 + 3) empty-IsTree locked_lem
