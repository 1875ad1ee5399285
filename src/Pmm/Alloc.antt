-- ===== src/Pmm/Alloc.antt =====
-- `pmm_allocate`, `pmm_allocate32` and `pmm_free`: the contract of the physical allocator.
use garn_os.Prelude.{
  ℕ, ◌+◌, ◌-◌, ◌*◌, ◌/◌, ◌%◌, ◌^◌, ◌≤◌, ◌<◌, ◌≡◌, arith, replicate, true, Bool-cases, inl, inr,
}
use garn_os.Prelude.Run.{Run, ran, panicked, ◌>>=◌}
use garn_os.Pmm.{
  Pmm, page_size, set_pages, pmm_find_free, pmm_find_free32, pmm_allocate, pmm_allocate32, pmm_free,
}
use garn_os.Pmm.Scan.{IsFree, IsTaken, page_used}
use garn_os.Pmm.Find.{
  NoRun, FoundRun, Searched, end32, pmm_find_free-FoundRun, pmm_find_free32-Searched,
}
use garn_os.Pmm.Count.{IsValid, count-all}
use garn_os.Pmm.Ranges.{Marked, Cleared, set_pages-Marked, free_pages_loop-Cleared}

-- `n` pages that lay free in `s` are handed out by their address, and marked in `t`; without
-- such pages there is a panic.
abbrev pub Allocated : Pmm → ℕ → ℕ → Run (ℕ × Pmm) → Type 0
Allocated s end n (ran (base, t)) =
    (page : ℕ) × (base ≡ page * page_size)
    × (page + n ≤ end)
    × IsFree s.bitmap page n
    × Marked s page n t
Allocated s end n panicked = NoRun s.bitmap 0 end n

allocate_at :
    (s : Pmm) (end n a page : ℕ)
    → IsValid s
    → 0 < n
    → end ≤ s.bitmap_size * 8
    → a ≡ page * 2 ^ 12 % 2 ^ 64
    → page + n ≤ end
    → IsFree s.bitmap page n
    → Allocated s end n (set_pages n (a / 2 ^ 12) s >>= λ s'. ran (a, s'))
allocate_at s end n a page v pos within address fits free =
    let exact : a ≡ page * page_size = omega (arith, v.small) in
    let (t, run, m) = set_pages-Marked n page s v free (omega arith) in
    let at : a / 2 ^ 12 ≡ page = omega arith in rw (at, run) (page, exact, fits, free, m)

find_then_mark :
    (s : Pmm) (n : ℕ) (r : Run ℕ)
    → IsValid s
    → 0 < n
    → FoundRun s n r
    → Allocated s
        (s.bitmap_size * 8)
        n
        (r >>= λ base. set_pages n (base / 2 ^ 12) s >>= λ s'. ran (base, s'))
find_then_mark s n (ran a) v pos (page, address, fits, free) =
    allocate_at s (s.bitmap_size * 8) n a page v pos (omega arith) address fits free
find_then_mark s n panicked v pos o = o

-- In a valid state `pmm_allocate` hands out pages of the bitmap that were free, marks these and no
-- others, moves them from the free to the used count, and keeps the state valid. It panics only if
-- no run of that length is free.
pub pmm_allocate-Allocated :
    (s : Pmm) (npages : ℕ)
    → IsValid s
    → 0 < npages
    → Allocated s (s.bitmap_size * 8) npages (pmm_allocate s npages)
unfolding pmm_allocate
pmm_allocate-Allocated s npages v pos =
    find_then_mark s npages (pmm_find_free s npages) v pos (pmm_find_free-FoundRun s npages pos)

find32_then_mark :
    (s : Pmm) (n : ℕ) (r : Run ℕ)
    → IsValid s
    → 0 < n
    → Searched n s.bitmap 0 (end32 s) r
    → Allocated s (end32 s) n (r >>= λ base. set_pages n (base / 2 ^ 12) s >>= λ s'. ran (base, s'))
find32_then_mark s n (ran a) v pos o =
    allocate_at s (end32 s) n a o.page v pos (ground arith) o.address o.fits o.free
find32_then_mark s n panicked v pos o = o

-- The pages handed out end below 4 GiB.
abbrev pub IsBelow4G : ℕ → Run (ℕ × Pmm) → Type 0
IsBelow4G n (ran (base, t)) = base + n * page_size ≤ 2 ^ 32
IsBelow4G n panicked = Unit

Allocated-IsBelow4G :
    (s : Pmm) (n : ℕ) (r : Run (ℕ × Pmm)) → Allocated s (end32 s) n r → IsBelow4G n r
Allocated-IsBelow4G s n (ran (base, t)) (page, at, fits, free, m) = ground arith
Allocated-IsBelow4G s n panicked o = tt

-- In a valid state `pmm_allocate32` hands out, marks and counts pages as `pmm_allocate` does, but
-- below 4 GiB, and panics only if no run of that length is free below 4 GiB.
pub pmm_allocate32-Allocated :
    (s : Pmm) (npages : ℕ)
    → IsValid s
    → 0 < npages
    → Allocated s (end32 s) npages (pmm_allocate32 s npages)
      × IsBelow4G npages (pmm_allocate32 s npages)
unfolding pmm_allocate32
pmm_allocate32-Allocated s npages v pos = (o, Allocated-IsBelow4G s npages _ o)
  where
    o : Allocated s (end32 s) npages (
        pmm_find_free32 s npages >>= λ base.
        set_pages npages (base / 2 ^ 12) s >>= λ s'. ran (base, s'))
    o =
        find32_then_mark s npages (pmm_find_free32 s npages) v pos
          (pmm_find_free32-Searched s npages pos)

-- Freeing `npages` marked pages of a valid state clears their marks and no others, moves them back
-- to the free count and keeps the state valid. Each round fills one page, always the last.
pub pmm_free-Cleared :
    (s : Pmm) (page npages : ℕ)
    → IsValid s
    → IsTaken s.bitmap page npages
    → page + npages ≤ s.bitmap_size * 8
    → (t : Pmm) × (pmm_free s (page * page_size) npages ≡ ran t)
      × Cleared s page npages (replicate npages (page * page_size + (npages - 1) * page_size)) t
unfolding pmm_free
pmm_free-Cleared s page npages v taken fits =
    let at : page * page_size / 2 ^ 12 ≡ page = omega arith in
    rw at (free_pages_loop-Cleared (page * page_size) npages npages page s v taken fits)

-- Without a single free page the free count is 0.
pub free_pages_of_NoRun :
    (s : Pmm) → IsValid s → NoRun s.bitmap 0 (s.bitmap_size * 8) 1 → s.free_pages ≡ 0
free_pages_of_NoRun s v full =
    omega (arith, v.total, v.used, count-all (page_used s.bitmap) (s.bitmap_size * 8) taken)
  where
    taken : (q : ℕ) → q < s.bitmap_size * 8 → page_used s.bitmap q ≡ true
    taken q lt = elim (Bool-cases (page_used s.bitmap q)) [
      | inl u ↦ u
      | inr u ↦
          absurd
            (full q (omega arith) (omega arith) (λ r lo hi. let e : r ≡ q = omega arith in rw e u))
    ]
