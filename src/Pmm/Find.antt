-- ===== src/Pmm/Find.antt =====
-- `pmm_find_free` and `pmm_find_free32`: which run of free pages they return.
use garn_os.Prelude.{
  ℕ, ◌+◌, ◌-◌, ◌*◌, ◌≤◌, ◌<◌, ◌≡◌, ◌⊎◌, refl, List, arith, ltb, if◌then◌else◌, inl, inr, Bool-cases,
  false, ltb→lt, lt→ltb, ◌^◌, ◌%◌,
}
use garn_os.Prelude.Run.{Run, ran, panicked}
use garn_os.Pmm.{
  Pmm, Hit, hit, more, start, high_start, or_panic, retry, pmm_find_free, pmm_find_free32,
}
use garn_os.Pmm.Scan.{IsFree, IsFirstRun, Outcome, Passed-first, scan_bytes-Outcome}

-- No run of `n` free pages lies between the pages `first` and `end`.
abbrev pub NoRun : List ℕ → ℕ → ℕ → ℕ → Type 0
NoRun bitmap first end n = (q : ℕ) → first ≤ q → q + n ≤ end → ¬ (IsFree bitmap q n)

-- A search of the pages from `first` to `end`: the first run, or a panic where there is none.
abbrev pub Searched : ℕ → List ℕ → ℕ → ℕ → Run ℕ → Type 0
Searched n bitmap first end (ran a) = IsFirstRun n bitmap first end a
Searched n bitmap first end panicked = NoRun bitmap first end n

or_panic-Searched :
    (n : ℕ) (bitmap : List ℕ) (first end : ℕ) (h : Hit)
    → Outcome n bitmap first end h
    → Searched n bitmap first end (or_panic h)
or_panic-Searched n bitmap first end (hit a) o = o
or_panic-Searched n bitmap first end (more s) o = o.no_run

-- The last page that the 32-bit search looks at, and one.
abbrev pub end32 : Pmm → ℕ
end32 s = (if ltb high_start s.bitmap_size then high_start else s.bitmap_size) * 8

-- `pmm_find_free32` returns the first run of `npages` free pages below 4 GiB, and panics only if
-- there is none.
pub pmm_find_free32-Searched :
    (s : Pmm) (npages : ℕ)
    → 0 < npages
    → Searched npages s.bitmap 0 (end32 s) (pmm_find_free32 s npages)
unfolding pmm_find_free32
pmm_find_free32-Searched s npages pos = or_panic-Searched npages s.bitmap 0 (end32 s) _ (
    scan_bytes-Outcome npages s.bitmap 0
      (if ltb high_start s.bitmap_size then high_start else s.bitmap_size) 0 0 (end32 s) start refl
      (omega arith) (Passed-first npages s.bitmap 0 start pos refl refl))

-- What a search that prefers the pages from `high` on returns.
abbrev pub Preferred : ℕ → List ℕ → ℕ → ℕ → Run ℕ → Type 0
Preferred n bitmap high end (ran a) =
    IsFirstRun n bitmap high end a ⊎ (NoRun bitmap high end n × IsFirstRun n bitmap 0 end a)
Preferred n bitmap high end panicked = NoRun bitmap 0 end n

abbrev pub high_page : ℕ
high_page = high_start * 8

low_pass :
    (n : ℕ) (bitmap : List ℕ) (high end : ℕ) (r : Run ℕ)
    → NoRun bitmap high end n
    → Searched n bitmap 0 end r
    → Preferred n bitmap high end r
low_pass n bitmap high end (ran a) none_high o = inr (none_high, o)
low_pass n bitmap high end panicked none_high o = o

retry-Preferred :
    (npages : ℕ) (s : Pmm) (h : Hit)
    → 0 < npages
    → Outcome npages s.bitmap high_page (s.bitmap_size * 8) h
    → Preferred npages s.bitmap high_page (s.bitmap_size * 8) (retry npages s h)
unfolding retry
retry-Preferred npages s (hit a) pos o = inl o
retry-Preferred npages s (more t) pos o =
    low_pass npages s.bitmap high_page (s.bitmap_size * 8) _ o.no_run (
      or_panic-Searched npages s.bitmap 0 (s.bitmap_size * 8) _ (
        scan_bytes-Outcome npages s.bitmap 0 s.bitmap_size 0 0 (s.bitmap_size * 8) _ refl
          (omega arith)
          (Passed-first npages s.bitmap 0 (record t { in_chunk = false; found = 0 }) pos refl
            refl)))

-- With memory above 4 GiB, `pmm_find_free` returns the first free run above 4 GiB, failing that
-- the first free run of all, and panics only if there is none.
pub pmm_find_free-Preferred :
    (s : Pmm) (npages : ℕ)
    → 0 < npages
    → high_start < s.bitmap_size
    → Preferred npages s.bitmap high_page (s.bitmap_size * 8) (pmm_find_free s npages)
unfolding pmm_find_free
pmm_find_free-Preferred s npages pos big = rw (lt→ltb _ _ big) (
    retry-Preferred npages s _ pos (
      scan_bytes-Outcome npages s.bitmap high_page (s.bitmap_size - high_start) high_start high_page
        (s.bitmap_size * 8) start refl (omega arith)
        (Passed-first npages s.bitmap high_page start pos refl refl)))

-- A run of `n` free pages within the bitmap, by its address; a panic where there is none.
abbrev pub FoundRun : Pmm → ℕ → Run ℕ → Type 0
FoundRun s n (ran a) =
    (page : ℕ) × (a ≡ page * 2 ^ 12 % 2 ^ 64)
    × (page + n ≤ s.bitmap_size * 8)
    × IsFree s.bitmap page n
FoundRun s n panicked = NoRun s.bitmap 0 (s.bitmap_size * 8) n

Preferred-FoundRun :
    (s : Pmm) (n high : ℕ) (r : Run ℕ)
    → Preferred n s.bitmap high (s.bitmap_size * 8) r
    → FoundRun s n r
Preferred-FoundRun s n high (ran a) (inl o) = (o.page, o.address, o.fits, o.free)
Preferred-FoundRun s n high (ran a) (inr (none_high, o)) = (o.page, o.address, o.fits, o.free)
Preferred-FoundRun s n high panicked o = o

Searched-FoundRun :
    (s : Pmm) (n : ℕ) (r : Run ℕ) → Searched n s.bitmap 0 (s.bitmap_size * 8) r → FoundRun s n r
Searched-FoundRun s n (ran a) o = (o.page, o.address, o.fits, o.free)
Searched-FoundRun s n panicked o = o

pub pmm_find_free-FoundRun :
    (s : Pmm) (npages : ℕ) → 0 < npages → FoundRun s npages (pmm_find_free s npages)
unfolding pmm_find_free
pmm_find_free-FoundRun s npages pos = elim (Bool-cases (ltb high_start s.bitmap_size)) [
  | inl big ↦
      Preferred-FoundRun s npages high_page _
        (pmm_find_free-Preferred s npages pos (ltb→lt _ _ big))
  | inr small ↦ rw small (
      Searched-FoundRun s npages _ (
        or_panic-Searched npages s.bitmap 0 (s.bitmap_size * 8) _ (
          scan_bytes-Outcome npages s.bitmap 0 s.bitmap_size 0 0 (s.bitmap_size * 8) start refl
            (omega arith) (Passed-first npages s.bitmap 0 start pos refl refl))))
]
