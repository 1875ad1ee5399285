-- ===== src/Pmm/Scan.antt =====
-- The search loops over a bitmap: what holds after each bit, and what a result means.
use garn_os.Prelude.{
  ℕ, zero, suc, ◌+◌, ◌-◌, ◌*◌, ◌/◌, ◌%◌, ◌^◌, ◌≤◌, ◌<◌, ◌≡◌, refl, Bool, true, false, List, arith,
  ◌==◌, if◌then◌else◌, get_or, inl, inr, Bool-cases, not_both, leb, leb→le, ==_iff, subst,
  not_leb→lt, not_==→ne,
}
use garn_os.Prelude.Bits.{test_bit}
use garn_os.Pmm.{Search, Hit, hit, more, chain, visit, scan_byte, scan_bytes}

-- `page` is marked in the bitmap.
abbrev pub page_used : List ℕ → ℕ → Bool
page_used bitmap page = test_bit (get_or bitmap (page / 8) 0) (page % 8)

-- The `n` pages from `page` on are free.
abbrev pub IsFree : List ℕ → ℕ → ℕ → Type 0
IsFree bitmap page n = (r : ℕ) → page ≤ r → r < page + n → page_used bitmap r ≡ false

-- The `n` pages from `page` on are in use.
abbrev pub IsTaken : List ℕ → ℕ → ℕ → Type 0
IsTaken bitmap page n = (r : ℕ) → page ≤ r → r < page + n → page_used bitmap r ≡ true

pub IsFree-within :
    (bitmap : List ℕ) (p n q m : ℕ) → IsFree bitmap p n → p ≤ q → q + m ≤ p + n → IsFree bitmap q m
IsFree-within bitmap p n q m f le fits r lo hi = f r (omega arith) (omega arith)

-- Where the run that the search is in begins: at `p` itself if it is in none.
abbrev pub run_start : Search → ℕ → ℕ
run_start s p = if s.in_chunk then s.base else p

module _ (npages : ℕ) (bitmap : List ℕ) (first : ℕ) where
  -- The search from page `first` has passed the pages below `p`, with no result.
  pub record Passed (p : ℕ) (s : Search) : Type 0 where
    pub at_page : run_start s p + s.found ≡ p
    pub from : first ≤ run_start s p
    pub free : IsFree bitmap (run_start s p) s.found
    pub leftmost : (q : ℕ) → first ≤ q → q < p → IsFree bitmap q (p - q) → run_start s p ≤ q
    pub short : s.found < npages
    pub no_run : (q : ℕ) → first ≤ q → q + npages ≤ p → ¬ (IsFree bitmap q npages)

  -- `a` is the address of the first free run between page `first` and page `end`.
  pub record IsFirstRun (end a : ℕ) : Type 0 where
    pub page : ℕ
    pub address : a ≡ page * 2 ^ 12 % 2 ^ 64
    pub from : first ≤ page
    pub fits : page + npages ≤ end
    pub free : IsFree bitmap page npages
    pub leftmost : (q : ℕ) → first ≤ q → q < page → ¬ (IsFree bitmap q npages)

  abbrev pub Outcome : ℕ → Hit → Type 0
  Outcome end (hit a) = IsFirstRun end a
  Outcome end (more s) = Passed end s

  IsFirstRun-mono : {e e' a : ℕ} → e ≤ e' → IsFirstRun e a → IsFirstRun e' a
  IsFirstRun-mono le h = record {
    page = h.page;
    address = h.address;
    from = h.from;
    fits = omega (arith, h.fits);
    free = h.free;
    leftmost = h.leftmost;
  }

  Outcome-chain :
      {e e' : ℕ} (h : Hit) (f : Search → Hit)
      → e ≤ e'
      → Outcome e h
      → ((s : Search) → Passed e s → Outcome e' (f s))
      → Outcome e' (chain h f)
  Outcome-chain (hit a) f le o next = IsFirstRun-mono le o
  Outcome-chain (more s) f le o next = next s o

  -- A used page ends the run that the search is in, and every run that reaches it.
  restart :
      (p : ℕ) (s t : Search)
      → page_used bitmap p ≡ true
      → Passed p s
      → t.in_chunk ≡ false
      → t.found ≡ 0
      → Passed (p + 1) t
  restart p s t u v idle zero_found = record {
    at_page = ground arith;
    from = ground (arith, v.from, v.at_page);
    free = λ r lo hi. absurd (ground arith);
    leftmost = λ q lo lt f. absurd (not_both _ u (f p (omega arith) (omega arith)));
    short = ground (arith, v.short);
    no_run = λ q lo fits f. elim (Bool-cases (leb (q + npages) p)) [
      | inl before ↦ v.no_run q lo (leb→le _ _ before) f
      | inr here ↦ not_both _ u (f p (ground (arith, v.short)) (ground arith))
    ];
  }

  visit-Outcome-used :
      (p : ℕ) (s : Search)
      → page_used bitmap p ≡ true
      → Passed p s
      → Outcome (p + 1) (visit npages true p s)
  unfolding visit
  visit-Outcome-used p s u v = elim (Bool-cases s.in_chunk) [
    | inl running ↦
        rw running (restart p s (record s { in_chunk = false; found = 0 }) u v refl refl)
    | inr idle ↦ simp idle (restart p s s u v idle (ground (arith, v.at_page)))
  ]

  -- A run that ends before page `p` and one that takes it in.
  reaches :
      (p q : ℕ) (s : Search)
      → Passed p s
      → first ≤ q
      → IsFree bitmap q (p + 1 - q)
      → q < p + 1
      → run_start s p ≤ q
  reaches p q s v lo f lt = elim (Bool-cases (q == p)) [
    | inl here ↦ ground (arith, v.at_page)
    | inr before ↦
        v.leftmost q lo (ground arith)
          (IsFree-within bitmap q (p + 1 - q) q (p - q) f (omega arith) (omega arith))
  ]

  extended :
      (p : ℕ) (s : Search)
      → page_used bitmap p ≡ false
      → Passed p s
      → IsFree bitmap (run_start s p) (s.found + 1)
  extended p s u v r lo hi = elim (Bool-cases (r == p)) [
    | inl here ↦ rw ((==_iff r p).0 here) u
    | inr before ↦ v.free r lo (ground (arith, v.at_page))
  ]

  visit-Outcome-free :
      (p : ℕ) (s : Search)
      → page_used bitmap p ≡ false
      → Passed p s
      → Outcome (p + 1) (visit npages false p s)
  unfolding visit
  visit-Outcome-free p s u v = elim (Bool-cases (s.found + 1 == npages)) [
    | inl full ↦ rw full (record {
      page = run_start s p;
      address = refl;
      from = v.from;
      fits = ground (arith, v.at_page);
      free =
          IsFree-within bitmap (run_start s p) (s.found + 1) (run_start s p) npages
            (extended p s u v) (omega arith) (ground arith);
      leftmost = λ q lo lt f. v.no_run q lo (ground (arith, v.at_page)) f;
    })
    | inr not_full ↦ rw not_full (record {
      at_page = ground (arith, v.at_page);
      from = v.from;
      free = extended p s u v;
      leftmost = λ q lo lt f. reaches p q s v lo f lt;
      short = ground (arith, v.short);
      no_run = λ q lo fits f. elim (Bool-cases (leb (q + npages) p)) [
        | inl before ↦ v.no_run q lo (leb→le _ _ before) f
        | inr here ↦
            let past : p < q + npages = not_leb→lt _ _ here in
            omega (
              arith,
              v.at_page,
              v.short,
              not_==→ne _ _ not_full,
              reaches p q s v lo
                  (IsFree-within bitmap q npages q (p + 1 - q) f (omega arith) (omega arith))
                  (omega (arith, v.short)),
            )
      ];
    })
  ]

  visit-Outcome :
      (p : ℕ) (s : Search) → Passed p s → Outcome (p + 1) (visit npages (page_used bitmap p) p s)
  visit-Outcome p s v = elim (Bool-cases (page_used bitmap p)) [
    | inl u ↦ rw u (visit-Outcome-used p s u v)
    | inr u ↦ rw u (visit-Outcome-free p s u v)
  ]

  -- The loops call `visit` at byte `i` and bit `j`, which is page `i * 8 + j`.
  visit_at :
      (i j p : ℕ) (s : Search)
      → j < 8
      → p ≡ i * 8 + j
      → Passed p s
      → Outcome (p + 1) (visit npages (test_bit (get_or bitmap i 0) j) (i * 8 + j) s)
  visit_at i j p s lt e v =
      let byte : p / 8 ≡ i = omega arith in
      let bit : p % 8 ≡ j = omega arith in rw (← e) (rw (byte, bit) at (visit-Outcome p s v))

  scan_byte-Outcome :
      (i k j p e : ℕ) (s : Search)
      → j + k ≡ 8
      → p ≡ i * 8 + j
      → e ≡ i * 8 + 8
      → Passed p s
      → Outcome e (scan_byte npages bitmap i k j s)
  unfolding scan_byte
  scan_byte-Outcome i zero j p e s total at end v = subst (λ q. Passed q s) (omega arith) v
  scan_byte-Outcome i (suc k) j p e s total at end v =
      Outcome-chain (visit npages (test_bit (get_or bitmap i 0) j) (i * 8 + j) s) _ (omega arith)
        (visit_at i j p s (omega arith) at v)
        λ s' v'. scan_byte-Outcome i k (j + 1) (p + 1) e s' (omega arith) (omega arith) end v'

  pub scan_bytes-Outcome :
      (k i p e : ℕ) (s : Search)
      → p ≡ i * 8
      → e ≡ (i + k) * 8
      → Passed p s
      → Outcome e (scan_bytes npages bitmap k i s)
  unfolding scan_bytes
  scan_bytes-Outcome zero i p e s at end v = subst (λ q. Passed q s) (omega arith) v
  scan_bytes-Outcome (suc k) i p e s at end v =
      Outcome-chain (scan_byte npages bitmap i 8 0 s) _ (omega arith)
        (scan_byte-Outcome i 8 0 p (p + 8) s refl (omega arith) (omega arith) v)
        λ s' v'. scan_bytes-Outcome k (i + 1) (p + 8) e s' (omega arith) (omega arith) v'

  -- A search that begins out of a run has passed no page.
  pub Passed-first : (s : Search) → 0 < npages → s.in_chunk ≡ false → s.found ≡ 0 → Passed first s
  Passed-first s pos idle zero_found = record {
    at_page = ground arith;
    from = ground arith;
    free = λ r lo hi. absurd (ground arith);
    leftmost = λ q lo lt f. absurd (omega arith);
    short = omega arith;
    no_run = λ q lo fits f. omega arith;
  }
