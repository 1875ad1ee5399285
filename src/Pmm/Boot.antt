-- ===== src/Pmm/Boot.antt =====
-- `pmm_init`: the bitmap is placed, and the usable pages of the memory map become free.
pub mod Opened
pub mod Ready
use garn_os.Prelude.{
  ℕ, zero, suc, ◌+◌, ◌-◌, ◌*◌, ◌/◌, ◌^◌, List, [], ◌∷◌, ◌++◌, ◌||◌, not, ltb, if◌then◌else◌,
  replicate,
}
use garn_os.Prelude.Words.{word, align_up}
use garn_os.Prelude.Run.{Run, ran, panicked, ◌>>=◌}
use garn_os.Memmap.{MemmapEntry, is_usable, entry_end, memmap_get_highest_usable_address}
use garn_os.Pmm.{Pmm, page_size, inc, dec, pmm_bitmap_set, pmm_bitmap_clear}

-- The first loop of `pmm_init`: the address of the bitmap.
unfoldable pub find_bitmap : ℕ → List MemmapEntry → Run ℕ
find_bitmap size [] = panicked
find_bitmap size (e ∷ es) =
    if not (is_usable e) || ltb e.length size then find_bitmap size es else ran e.base

-- The pages of an entry, as far as `pmm_init` clears them.
abbrev pub first_page : MemmapEntry → ℕ
first_page e = e.base / 2 ^ 12

abbrev pub page_count : MemmapEntry → ℕ
page_count e = entry_end e / 2 ^ 12 - first_page e

-- The loop over `j`, with `k` rounds left.
unfoldable pub clear_pages : ℕ → ℕ → Pmm → Run Pmm
clear_pages zero j s = ran s
clear_pages (suc k) j s = pmm_bitmap_clear s j >>= λ s'.
    clear_pages k (j + 1) (record s' { usable_pages = inc s'.usable_pages })

-- The second loop over the memory map.
unfoldable pub clear_entries : List MemmapEntry → Pmm → Run Pmm
clear_entries [] s = ran s
clear_entries (e ∷ es) s =
    (if is_usable e then clear_pages (page_count e) (first_page e) s else ran s) >>= λ s'.
    clear_entries es s'

-- The last loop, from address `i`, with `k` rounds left: the pages of the bitmap itself.
unfoldable pub take_bitmap : ℕ → ℕ → Pmm → Run Pmm
take_bitmap zero i s = ran s
take_bitmap (suc k) i s = pmm_bitmap_set s (i / page_size) >>= λ s'.
    take_bitmap k (i + page_size) (record s' { usable_pages = dec s'.usable_pages })

abbrev pub bitmap_size_of : List MemmapEntry → ℕ
bitmap_size_of es = align_up (memmap_get_highest_usable_address es) page_size / page_size / 8

-- The state when the bitmap is filled, with the memory behind it.
abbrev pub filled : ℕ → List ℕ → Pmm
filled size behind = record {
  bitmap = replicate size 0xff ++ behind;
  bitmap_size = size;
  free_pages = 0;
  used_pages = word (size * 8);
  usable_pages = 0;
  fills = [];
}

-- `behind` is the memory behind a bitmap that stands at an address.
unfoldable pub pmm_init : (ℕ → List ℕ) → List MemmapEntry → Run Pmm
pmm_init behind es =
    let size = bitmap_size_of es in
    find_bitmap size es >>= λ base.
    clear_entries es (filled size (behind base)) >>= λ s. take_bitmap (size / page_size + 1) base s
