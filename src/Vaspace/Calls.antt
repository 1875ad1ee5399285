-- ===== src/Vaspace/Calls.antt =====
-- `sys_mmap` and `sys_munmap`: what they report.
use garn_os.Prelude.{
  ℕ, zero, suc, ◌+◌, ◌-◌, ◌*◌, ◌/◌, ◌%◌, ◌≤◌, ◌<◌, ◌≡◌, ◌⊎◌, refl, true, false, not, ◌||◌, Option,
  none, some, arith, ltb, if◌then◌else◌, ◌==◌, Bool-cases, inl, inr,
}
use garn_os.Prelude.Run.{Run, ran, panicked, ◌>>=◌}
use garn_os.Pmm.{page_size, pmm_free, Pmm}
use garn_os.Paging.{Vmm, has_flag, arch_mm_virt_to_phys}
use garn_os.Vaspace.{
  Ret, ret, fail, enomem, einval, vmm_user_end, rounds, find_area, finish_mmap, sys_mmap,
  sys_munmap, unmap_pages, back_area, mmap_flags,
}
use garn_os.Vaspace.Search.{AreaFree, AreaFound, Counted-none, find_area-AreaFound, find_area-zero}

-- `sys_mmap` of less than a page reports `-ENOMEM` and maps nothing, whatever memory is free: the
-- length is not rounded up, and no count of pages is 0. The flags are those of an anonymous private
-- mapping.
pub sys_mmap_short :
    (v : Vmm) (pt addr length prot flags : ℕ)
    → 0 < length
    → length < page_size
    → has_flag flags 0 ≡ true
    → has_flag flags 1 ≡ false
    → has_flag flags 3 ≡ true
    → sys_mmap v pt addr length prot flags ≡ ran (fail enomem, v)
unfolding sys_mmap
sys_mmap_short v pt addr length prot flags pos short private not_shared anonymous =
    let none_left : length / page_size ≡ 0 = omega arith in
    elim (Bool-cases (ltb vmm_user_end addr)) [
      | inl beyond ↦ rw (nonzero, beyond)
      | inr below ↦
          rw (nonzero, below, not_shared, private, anonymous, none_left)
            (rw (find_area-zero v pt _ _ 0 _) nothing)
    ]
  where
    nonzero : (length == 0) ≡ false
    nonzero = ground arith

    nothing : finish_mmap v pt 0 prot none ≡ ran (fail enomem, v)
    nothing = refl

-- What `sys_munmap` may report.
abbrev pub IsFailure : Run (Ret × Vmm) → Type 0
IsFailure (ran (ret x, v)) = ⊥
IsFailure (ran (fail e, v)) = (e ≡ einval) ⊎ (e ≡ enomem)
IsFailure panicked = Unit

unmap_pages-IsFailure : (k : ℕ) (v : Vmm) (pt addr : ℕ) → IsFailure (unmap_pages k v pt addr)
unfolding unmap_pages
unmap_pages-IsFailure zero v pt addr = inr refl
unmap_pages-IsFailure (suc k) v pt addr =
    elim (Bool-cases (arch_mm_virt_to_phys v.tables pt addr == 0)) [
      | inl no_page ↦ rw no_page (inl refl)
      | inr page ↦ rw page (after (pmm_free v.pmm _ 1) _ λ pmm'. unmap_pages-IsFailure k _ pt _)
    ]
  where
    after :
        (r : Run Pmm) (f : Pmm → Run (Ret × Vmm))
        → ((p : Pmm) → IsFailure (f p))
        → IsFailure (r >>= f)
    after (ran p) f all = all p
    after panicked f all = tt

-- `sys_munmap` reports an error in every case, also when it has unmapped all of the range.
pub sys_munmap-IsFailure : (v : Vmm) (pt addr length : ℕ) → IsFailure (sys_munmap v pt addr length)
unfolding sys_munmap
sys_munmap-IsFailure v pt addr length = elim (Bool-cases (length == 0)) [
  | inl nothing ↦ rw nothing (inl refl)
  | inr some_length ↦ elim (Bool-cases (ltb vmm_user_end addr || not (addr % page_size == 0))) [
    | inl bad ↦ rw (some_length, bad) (inl refl)
    | inr good ↦ rw (some_length, good) (unmap_pages-IsFailure (length / page_size) v pt addr)
  ]
]

-- What a returned address means.
abbrev pub IsArea : Vmm → ℕ → ℕ → ℕ → Run (Ret × Vmm) → Type 0
IsArea v pt low n (ran (ret a, v')) = (low ≤ a) × AreaFree v pt a n
IsArea v pt low n (ran (fail e, v')) = v' ≡ v
IsArea v pt low n panicked = Unit

finish_mmap-IsArea :
    (v : Vmm) (pt low high n prot : ℕ) (o : Option ℕ)
    → AreaFound v pt n low high o
    → IsArea v pt low n (finish_mmap v pt n prot o)
unfolding finish_mmap
finish_mmap-IsArea v pt low high n prot none found = refl
finish_mmap-IsArea v pt low high n prot (some a) found =
    backed (back_area n v pt a (mmap_flags prot))
  where
    backed : (r : Run Vmm) → IsArea v pt low n (r >>= λ v'. ran (ret a, v'))
    backed (ran v') = (found.0, found.2)
    backed panicked = tt

-- An address that `sys_mmap` returns is at or above the hint (or the first page, without a hint),
-- and the pages of the length asked for, rounded down, were free there. With an error it has
-- changed nothing.
pub sys_mmap-IsArea :
    (v : Vmm) (pt addr length prot flags : ℕ)
    → IsArea v pt
        (if addr == 0 then 0x1000 else addr)
        (length / page_size)
        (sys_mmap v pt addr length prot flags)
unfolding sys_mmap
sys_mmap-IsArea v pt addr length prot flags = elim (Bool-cases (length == 0)) [
  | inl e ↦ rw e refl
  | inr e ↦ elim (Bool-cases (ltb vmm_user_end addr)) [
    | inl b ↦ rw (e, b) refl
    | inr b ↦ elim (Bool-cases (has_flag flags 1)) [
      | inl c ↦ rw (e, b, c) refl
      | inr c ↦ elim (Bool-cases (has_flag flags 0)) [
        | inl d ↦ elim (Bool-cases (has_flag flags 3)) [
          | inl f ↦ rw (e, b, c, d, f) searched
          | inr f ↦ rw (e, b, c, d, f) refl
        ]
        | inr d ↦ rw (e, b, c, d) refl
      ]
    ]
  ]
]
  where
    start : ℕ
    start = if addr == 0 then 0x1000 else addr

    count : ℕ
    count = rounds ((if has_flag flags 5 then 0x8000_0000 else vmm_user_end) - start)

    searched : IsArea v pt start (length / page_size) (
        finish_mmap v pt
          (length / page_size)
          prot
          (find_area v pt (length / page_size) count start 0 start))
    searched =
        finish_mmap-IsArea v pt start (start + count * page_size) (length / page_size) prot _ (
          find_area-AreaFound v pt (length / page_size) start (start + count * page_size) count
            start 0 start (omega arith) (omega arith)
            (Counted-none v pt (length / page_size) start (start + count * page_size) start start))
