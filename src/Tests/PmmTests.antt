-- ===== src/Tests/PmmTests.antt =====
-- The physical memory manager on a bitmap of two bytes, which is followed by one other byte.
use garn_os.Prelude.{zero, suc, ◌≡◌, refl, [], ◌∷◌, arith}
use garn_os.Prelude.Bits.{test_bit, set_bit}
use garn_os.Prelude.Run.{ran, panicked}
use garn_os.Pmm.{
  Pmm, pmm_bitmap_set, pmm_allocate, pmm_find_free, visit, scan_byte, scan_bytes, set_pages,
}
use garn_os.Pmm.Scan.{IsTaken}
use garn_os.Pmm.Marks.{IsBytes}
use garn_os.Pmm.Count.{count, IsValid}
use garn_os.Pmm.Alloc.{Allocated, pmm_allocate-Allocated}

-- Pages 0, 1 and 4 are in use.
abbrev pub small : Pmm
small = record {
  bitmap = 0b1100_1000 ∷ 0 ∷ 7 ∷ [];
  bitmap_size = 2;
  free_pages = 13;
  used_pages = 3;
  usable_pages = 16;
  fills = [];
}

abbrev after : Pmm
after = record small { bitmap = 0b1100_1111 ∷ 0 ∷ 7 ∷ []; free_pages = 10; used_pages = 6 }

allocate_too_many : pmm_allocate small 12 ≡ panicked
unfolding pmm_allocate pmm_find_free visit scan_byte scan_bytes set_pages pmm_bitmap_set test_bit
    set_bit
allocate_too_many = refl

-- The guard lets the byte behind the bitmap be written: page 16 is none of its 16 pages.
set_behind_bitmap :
    pmm_bitmap_set small 16
    ≡ ran (record small { bitmap = 0b1100_1000 ∷ 0 ∷ 135 ∷ []; free_pages = 12; used_pages = 4 })
unfolding pmm_bitmap_set set_bit
set_behind_bitmap = refl

pub small-IsBytes : IsBytes small.bitmap
small-IsBytes zero = omega arith
small-IsBytes (suc zero) = omega arith
small-IsBytes (suc (suc zero)) = omega arith
small-IsBytes (suc (suc (suc i))) = omega arith

pub small-IsValid : IsValid small
unfolding count test_bit
small-IsValid = record {
  bytes = small-IsBytes;
  room = omega arith;
  small = omega arith;
  used = refl;
  total = refl;
}

pmm_allocate-Allocated_example : Allocated small 16 3 (pmm_allocate small 3)
pmm_allocate-Allocated_example = pmm_allocate-Allocated small 3 small-IsValid (omega arith)

pages-IsTaken : IsTaken small.bitmap 0 2
unfolding test_bit
pages-IsTaken zero lo hi = refl
pages-IsTaken (suc zero) lo hi = refl
pages-IsTaken (suc (suc r)) lo hi = absurd (omega arith)
