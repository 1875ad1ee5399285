-- ===== src/Vaspace/Search.antt =====
-- The search of `sys_mmap`: what it returns is free.
use garn_os.Prelude.{
  ℕ, zero, suc, ◌+◌, ◌*◌, ◌≤◌, ◌<◌, ◌≡◌, ◌≢◌, refl, true, false, Option, none, some, arith,
  if◌then◌else◌, ◌==◌, Bool-cases, inl, inr, ==_iff, subst,
}
use garn_os.Pmm.{page_size}
use garn_os.Paging.{Vmm, arch_mm_is_page_free}
use garn_os.Vaspace.{find_area}

-- The `n` pages from `addr` on are free.
abbrev pub AreaFree : Vmm → ℕ → ℕ → ℕ → Type 0
AreaFree v pt addr n =
    (m : ℕ) → m < n → arch_mm_is_page_free v.tables pt (addr + m * page_size) ≡ true

-- A result is an area of free pages between `low` and `high`.
abbrev pub AreaFound : Vmm → ℕ → ℕ → ℕ → ℕ → Option ℕ → Type 0
AreaFound v pt length low high none = Unit
AreaFound v pt length low high (some a) =
    (low ≤ a) × (a + length * page_size ≤ high) × AreaFree v pt a length

module _ (v : Vmm) (pt length low high : ℕ) where
  -- The pages counted so far are free and end at `i`.
  pub record Counted (i npages addr : ℕ) : Type 0 where
    pub ends : npages ≢ 0 → addr + npages * page_size ≡ i
    pub above : npages ≢ 0 → low ≤ addr
    pub free : AreaFree v pt addr npages

  pub Counted-none : (i addr : ℕ) → Counted i 0 addr
  Counted-none i addr = record {
    ends = λ ne. absurd (ne refl);
    above = λ ne. absurd (ne refl);
    free = λ m lt. absurd (omega arith);
  }

  abbrev begins : ℕ → ℕ → ℕ → ℕ
  begins i npages addr = if npages + 1 == 1 then i else addr

  Counted-more :
      (i npages addr : ℕ)
      → low ≤ i
      → arch_mm_is_page_free v.tables pt i ≡ true
      → Counted i npages addr
      → Counted (i + page_size) (npages + 1) (begins i npages addr)
  Counted-more i zero addr lo here c = record {
    ends = λ ne. omega arith;
    above = λ ne. lo;
    free = λ m lt. let e : i + m * page_size ≡ i = omega arith in rw e here;
  }
  Counted-more i (suc n) addr lo here c = record {
    ends = λ ne. ground (arith, c.ends (omega arith));
    above = λ ne. ground (arith, c.above (omega arith));
    free = λ m lt. rw not_first (elim (Bool-cases (m == suc n)) [
      | inl last ↦
          let e : addr + m * page_size ≡ i =
            omega (arith, (==_iff m (suc n)).0 last, c.ends (omega arith)) in
          rw e here
      | inr earlier ↦ c.free m (ground arith)
    ]);
  }
    where
      not_first : (suc n + 1 == 1) ≡ false
      not_first = ground arith

  -- The search returns pages that are free, in the range that it goes over.
  pub find_area-AreaFound :
      (k i npages addr : ℕ)
      → low ≤ i
      → i + k * page_size ≤ high
      → Counted i npages addr
      → AreaFound v pt length low high (find_area v pt length k i npages addr)
  unfolding find_area
  find_area-AreaFound zero i npages addr lo fits c = tt
  find_area-AreaFound (suc k) i npages addr lo fits c =
      elim (Bool-cases (arch_mm_is_page_free v.tables pt i)) [
        | inl here ↦
            let more = Counted-more i npages addr lo here c in
            rw here (elim (Bool-cases (npages + 1 == length)) [
              | inl full ↦
                  let e : npages + 1 ≡ length = (==_iff _ length).0 full in
                  rw full (
                    more.above (omega arith),
                    omega (arith, more.ends (omega arith)),
                    subst (AreaFree v pt (begins i npages addr)) e more.free,
                  )
              | inr short ↦ rw short (
                  find_area-AreaFound k (i + page_size) (npages + 1) (begins i npages addr)
                    (omega arith) (omega arith) more)
            ])
        | inr taken ↦ rw taken (
            find_area-AreaFound k (i + page_size) 0 addr (omega arith) (omega arith)
              (Counted-none (i + page_size) addr))
      ]

-- A search for 0 pages finds none.
pub find_area-zero : (v : Vmm) (pt k i npages addr : ℕ) → find_area v pt 0 k i npages addr ≡ none
unfolding find_area
find_area-zero v pt zero i npages addr = refl
find_area-zero v pt (suc k) i npages addr = ground (
  arith,
  find_area-zero v pt k (i + page_size) 0 addr,
  find_area-zero v pt k (i + page_size) (npages + 1) (if npages + 1 == 1 then i else addr),
)
