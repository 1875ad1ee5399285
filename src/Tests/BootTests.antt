-- ===== src/Tests/BootTests.antt =====
-- A memory map of 64 pages, of which the first 16 are reserved.
use garn_os.Prelude.{
  ℕ, zero, suc, ◌+◌, ◌*◌, ◌≤◌, ◌<◌, ◌≡◌, refl, true, List, [], ◌∷◌, arith, get_or, some,
}
use garn_os.Prelude.Run.{ran}
use garn_os.Memmap.{
  MemmapEntry, highest_usable, memmap_get_highest_usable_address, memmap_get_highest_address,
}
use garn_os.Pmm.{Pmm, page_size}
use garn_os.Pmm.Boot.{find_bitmap, bitmap_size_of, pmm_init}
use garn_os.Pmm.Boot.Opened.{usable_page, AreApart}
use garn_os.Pmm.Boot.Ready.{Ready, bitmap_pages, pmm_init-Ready}

abbrev reserved : MemmapEntry
reserved = record { base = 0; length = 0x1_0000; type = 1 }

abbrev usable : MemmapEntry
usable = record { base = 0x1_0000; length = 0x3_0000; type = 0 }

abbrev memory_map : List MemmapEntry
memory_map = reserved ∷ usable ∷ []

abbrev zeros : ℕ → List ℕ
zeros base = 0 ∷ 0 ∷ []

highest : memmap_get_highest_address memory_map ≡ some 0x4_0000
unfolding memmap_get_highest_address
highest = refl

size_lem : bitmap_size_of memory_map ≡ 8
unfolding memmap_get_highest_usable_address highest_usable
size_lem = refl

found : find_bitmap (bitmap_size_of memory_map) memory_map ≡ ran (16 * page_size)
unfolding find_bitmap memmap_get_highest_usable_address highest_usable
found = refl

apart : AreApart (bitmap_size_of memory_map * 8) memory_map
unfolding usable_page memmap_get_highest_usable_address highest_usable
apart = ((λ q h. ground arith), ((λ q h. (refl, ground arith)), tt))

inside : (r : ℕ) → 16 ≤ r → r < 16 + bitmap_pages memory_map → usable_page memory_map r ≡ true
unfolding usable_page memmap_get_highest_usable_address highest_usable
inside r lo hi = ground arith

pmm_init-Ready_example : (t : Pmm) × (pmm_init zeros memory_map ≡ ran t) × Ready memory_map 16 t
pmm_init-Ready_example =
    pmm_init-Ready zeros memory_map 16 found (omega (arith, size_lem)) apart inside λ i. zeros_lt i
  where
    zeros_lt : (i : ℕ) → get_or (zeros (16 * page_size)) i 0 < 256
    zeros_lt i = bytes i
      where
        bytes : (i : ℕ) → get_or (0 ∷ 0 ∷ []) i 0 < 256
        bytes zero = omega arith
        bytes (suc zero) = omega arith
        bytes (suc (suc i)) = omega arith
