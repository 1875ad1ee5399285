-- ===== src/Pmm.antt =====
-- kernel/mem/pmm/pmm.c: the physical memory manager, a bitmap with one bit for each page.
-- The globals of the file are the record `Pmm`, which each function takes and returns. The lock is
-- held over each public function, so a call is one step. `bitmap` is the memory from the bitmap's
-- base on, which may run past the `bitmap_size` bytes that belong to it.
pub mod Scan
pub mod Marks
pub mod Count
pub mod Ranges
pub mod Find
pub mod Alloc
pub mod Boot
use garn_os.Prelude.{
  ℕ, zero, suc, ◌+◌, ◌-◌, ◌*◌, ◌/◌, ◌%◌, ◌^◌, Bool, true, false, List, ◌∷◌, ltb, ◌==◌,
  if◌then◌else◌, get_or, set,
}
use garn_os.Prelude.Bits.{test_bit, set_bit, clear_bit}
use garn_os.Prelude.Run.{Run, ran, panicked, ◌>>=◌}

abbrev pub page_size : ℕ
page_size = 4096

-- The first bitmap byte for the pages above 4 GiB.
abbrev pub high_start : ℕ
high_start = 131072

-- `fills` logs the pages that `memset` fills with 0xff, by physical address, the latest first.
pub record Pmm : Type 0 where
  pub bitmap : List ℕ
  pub bitmap_size : ℕ
  pub free_pages : ℕ
  pub used_pages : ℕ
  pub usable_pages : ℕ
  pub fills : List ℕ

-- `size_t` counters go round at 2 ^ 64.
abbrev pub inc : ℕ → ℕ
inc x = (x + 1) % 2 ^ 64

abbrev pub dec : ℕ → ℕ
dec x = (x + 2 ^ 64 - 1) % 2 ^ 64

unfoldable pub pmm_bitmap_set : Pmm → ℕ → Run Pmm
pmm_bitmap_set s page =
    if ltb s.bitmap_size (page / 8)
    then panicked
    else ran (record s {
      used_pages = inc s.used_pages;
      free_pages = dec s.free_pages;
      bitmap = set s.bitmap (page / 8) (set_bit (get_or s.bitmap (page / 8) 0) (page % 8));
    })

unfoldable pub pmm_bitmap_clear : Pmm → ℕ → Run Pmm
pmm_bitmap_clear s page =
    if ltb s.bitmap_size (page / 8)
    then panicked
    else ran (record s {
      used_pages = dec s.used_pages;
      free_pages = inc s.free_pages;
      bitmap = set s.bitmap (page / 8) (clear_bit (get_or s.bitmap (page / 8) 0) (page % 8));
    })

-- The locals of the search: `foundPages`, `base`, `inChunk`.
pub record Search : Type 0 where
  pub found : ℕ
  pub base : ℕ
  pub in_chunk : Bool

pub data Hit : Type 0 where
  hit : ℕ → Hit
  more : Search → Hit

abbrev pub start : Search
start = record { found = 0; base = 0; in_chunk = false }

-- What a `return` in the loops skips.
abbrev pub chain : Hit → (Search → Hit) → Hit
chain (hit a) f = hit a
chain (more s) f = f s

-- The body of the inner loop, at a bit that is set or not and the page `(i*8)+j`.
unfoldable pub visit : ℕ → Bool → ℕ → Search → Hit
visit npages true p s = more (if s.in_chunk then record s { in_chunk = false; found = 0 } else s)
visit npages false p s =
    let base = if s.in_chunk then s.base else p in
    if s.found + 1 == npages
    then hit (base * 2 ^ 12 % 2 ^ 64)
    else more (record { found = s.found + 1; base = base; in_chunk = true })

-- The loop over `j`, with `k` rounds left.
unfoldable pub scan_byte : ℕ → List ℕ → ℕ → ℕ → ℕ → Search → Hit
scan_byte npages bitmap i zero j s = more s
scan_byte npages bitmap i (suc k) j s =
    chain (visit npages (test_bit (get_or bitmap i 0) j) (i * 8 + j) s)
      (λ s'. scan_byte npages bitmap i k (j + 1) s')

-- The loop over `i`, with `k` rounds left.
unfoldable pub scan_bytes : ℕ → List ℕ → ℕ → ℕ → Search → Hit
scan_bytes npages bitmap zero i s = more s
scan_bytes npages bitmap (suc k) i s =
    chain (scan_byte npages bitmap i 8 0 s) (λ s'. scan_bytes npages bitmap k (i + 1) s')

abbrev pub or_panic : Hit → Run ℕ
or_panic (hit a) = ran a
or_panic (more s) = panicked

-- What follows the first pass: after `goto retry` the whole bitmap is searched from byte 0.
unfoldable pub retry : ℕ → Pmm → Hit → Run ℕ
retry npages s (hit a) = ran a
retry npages s (more t) =
    or_panic (scan_bytes npages s.bitmap s.bitmap_size 0 (record t { in_chunk = false; found = 0 }))

-- `npages` is an `int`; a negative one is never met by the count, like 0.
unfoldable pub pmm_find_free : Pmm → ℕ → Run ℕ
unfolding retry
pmm_find_free s npages =
    if ltb high_start s.bitmap_size
    then retry npages s (scan_bytes npages s.bitmap (s.bitmap_size - high_start) high_start start)
    else or_panic (scan_bytes npages s.bitmap s.bitmap_size 0 start)

unfoldable pub pmm_find_free32 : Pmm → ℕ → Run ℕ
pmm_find_free32 s npages = or_panic (
    scan_bytes npages s.bitmap (if ltb high_start s.bitmap_size then high_start else s.bitmap_size)
      0 start)

-- `for(i = (base >> 12); i < (base >> 12)+npages; i++) pmm_bitmap_set(i);`, `k` rounds left
unfoldable pub set_pages : ℕ → ℕ → Pmm → Run Pmm
set_pages zero i s = ran s
set_pages (suc k) i s = pmm_bitmap_set s i >>= λ s'. set_pages k (i + 1) s'

unfoldable pub pmm_allocate : Pmm → ℕ → Run (ℕ × Pmm)
pmm_allocate s npages =
    pmm_find_free s npages >>= λ base. set_pages npages (base / 2 ^ 12) s >>= λ s'. ran (base, s')

unfoldable pub pmm_allocate32 : Pmm → ℕ → Run (ℕ × Pmm)
pmm_allocate32 s npages =
    pmm_find_free32 s npages >>= λ base. set_pages npages (base / 2 ^ 12) s >>= λ s'. ran (base, s')

-- The loop of `pmm_free`, `k` rounds left: each fills the page at `base+((npages-1)*PAGE_SIZE)`.
unfoldable pub free_pages_loop : ℕ → ℕ → ℕ → ℕ → Pmm → Run Pmm
free_pages_loop base npages zero i s = ran s
free_pages_loop base npages (suc k) i s =
    pmm_bitmap_clear (record s { fills = (base + (npages - 1) * page_size) ∷ s.fills }) i >>= λ s'.
    free_pages_loop base npages k (i + 1) s'

unfoldable pub pmm_free : Pmm → ℕ → ℕ → Run Pmm
pmm_free s base npages = free_pages_loop base npages npages (base / 2 ^ 12) s
