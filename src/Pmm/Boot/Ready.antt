-- ===== src/Pmm/Boot/Ready.antt =====
-- The state in which `pmm_init` leaves the physical memory manager.
use garn_os.Prelude.{
  ℕ, zero, suc, ◌+◌, ◌*◌, ◌/◌, ◌%◌, ◌^◌, ◌≤◌, ◌<◌, ◌≡◌, refl, ◌∙◌, subst, Bool, true, false, not,
  ◌&&◌, ◌||◌, List, [], ◌∷◌, ◌++◌, arith, inl, inr, Bool-cases, length-append, length-replicate,
  replicate, get_or,
}
use garn_os.Prelude.Bits.{test_bit}
use garn_os.Prelude.Run.{ran}
use garn_os.Memmap.{MemmapEntry}
use garn_os.Pmm.{Pmm, page_size}
use garn_os.Pmm.Scan.{page_used}
use garn_os.Pmm.Marks.{within, IsBytes}
use garn_os.Pmm.Count.{IsValid, count-all}
use garn_os.Pmm.Boot.{find_bitmap, filled, bitmap_size_of, pmm_init}
use garn_os.Pmm.Boot.Opened.{
  usable_page, usable_count, AreApart, in_entry, clear_entries-Opened, take_bitmap-Reserved,
}

get_or-filled : (n i : ℕ) (behind : List ℕ) → i < n → get_or (replicate n 0xff ++ behind) i 0 ≡ 0xff
get_or-filled zero i behind lt = absurd (omega arith)
get_or-filled (suc n) zero behind lt = refl
get_or-filled (suc n) (suc i) behind lt = get_or-filled n i behind (omega arith)

filled-IsBytes : (n : ℕ) (behind : List ℕ) → IsBytes behind → IsBytes (replicate n 0xff ++ behind)
filled-IsBytes zero behind h i = h i
filled-IsBytes (suc n) behind h zero = omega arith
filled-IsBytes (suc n) behind h (suc i) = filled-IsBytes n behind h i

all_set : (j : ℕ) → j < 8 → test_bit 0xff j ≡ true
unfolding test_bit
all_set zero h = refl
all_set (suc zero) h = refl
all_set (suc (suc zero)) h = refl
all_set (suc (suc (suc zero))) h = refl
all_set (suc (suc (suc (suc zero)))) h = refl
all_set (suc (suc (suc (suc (suc zero))))) h = refl
all_set (suc (suc (suc (suc (suc (suc zero)))))) h = refl
all_set (suc (suc (suc (suc (suc (suc (suc zero))))))) h = refl
all_set (suc (suc (suc (suc (suc (suc (suc (suc j)))))))) h = absurd (omega arith)

filled-used :
    (n : ℕ) (behind : List ℕ) (q : ℕ) → q < n * 8 → page_used (filled n behind).bitmap q ≡ true
filled-used n behind q lt =
    rw (get_or-filled n (q / 8) behind (omega arith)) (all_set (q % 8) (omega arith))

filled-IsValid :
    (n : ℕ) (behind : List ℕ) → IsBytes behind → n * 8 ≤ 2 ^ 52 → IsValid (filled n behind)
filled-IsValid n behind h small =
    let all = count-all (page_used (filled n behind).bitmap) (n * 8) (filled-used n behind) in
    record {
      bytes = filled-IsBytes n behind h;
      room =
          omega (arith, length-append (replicate n 0xff) behind, length-replicate {A = ℕ} n 0xff);
      small = small;
      used = omega arith;
      total = omega arith;
    }

usable_page-lt :
    (end : ℕ) (es : List MemmapEntry) (q : ℕ) → AreApart end es → usable_page es q ≡ true → q < end
unfolding usable_page
usable_page-lt end [] q h u = absurd (cc)
usable_page-lt end (e ∷ es) q (here, rest) u = elim (Bool-cases (in_entry e q)) [
  | inl inside ↦ (here q inside).1
  | inr outside ↦ usable_page-lt end es q rest (rw outside at u)
]

-- The pages of the bitmap.
abbrev pub bitmap_pages : List MemmapEntry → ℕ
bitmap_pages es = bitmap_size_of es / page_size + 1

-- The free pages are those of the usable entries without those of the bitmap, at `page`.
pub record Ready (es : List MemmapEntry) (page : ℕ) (t : Pmm) : Type 0 where
  pub valid : IsValid t
  pub size : t.bitmap_size ≡ bitmap_size_of es
  pub marks :
      (q : ℕ)
      → q < t.bitmap_size * 8
      → page_used t.bitmap q ≡ (within page (bitmap_pages es) q || not (usable_page es q))
  pub free : t.free_pages + bitmap_pages es ≡ usable_count es
  pub usable : t.usable_pages ≡ t.free_pages

-- When the boot loader's usable entries share no page and lie within the bitmap, and the pages of
-- the bitmap, at `page`, lie in them, `pmm_init` returns a valid state, in which exactly the usable
-- pages outside of the bitmap are free, and are counted both as free and as usable.
pub pmm_init-Ready :
    (behind : ℕ → List ℕ) (es : List MemmapEntry) (page : ℕ)
    → find_bitmap (bitmap_size_of es) es ≡ ran (page * page_size)
    → bitmap_size_of es * 8 ≤ 2 ^ 52
    → AreApart (bitmap_size_of es * 8) es
    → ((r : ℕ) → page ≤ r → r < page + bitmap_pages es → usable_page es r ≡ true)
    → IsBytes (behind (page * page_size))
    → (t : Pmm) × (pmm_init behind es ≡ ran t) × Ready es page t
unfolding pmm_init
pmm_init-Ready behind es page found small apart inside bytes =
    let n = bitmap_size_of es in
    let s = filled n (behind (page * page_size)) in
    let v = filled-IsValid n (behind (page * page_size)) bytes small in
    let used = filled-used n (behind (page * page_size)) in
    let (t, run, o) =
      clear_entries-Opened es s v refl apart
        (λ q u. used q (usable_page-lt (n * 8) es q apart u)) in
    let top =
      usable_page-lt (n * 8) es (page + n / page_size) apart
        (inside (page + n / page_size) (omega arith) (omega arith)) in
    let (u, run', r) =
      take_bitmap-Reserved (bitmap_pages es) page t o.valid o.usable
        (λ r lo hi. o.marks r ∙ opened _ _ (inside r lo hi)) (omega (arith, o.same_size)) in
    (
      u,
      rw found (rw run run'),
      record {
        valid = r.valid;
        size = r.same_size ∙ o.same_size;
        marks = λ q lt.
            r.marks q
            ∙ left _ _ _ _ (o.marks q)
                (used q (subst (λ x. q < x * 8) (r.same_size ∙ o.same_size) lt));
        free = omega (arith, r.free, o.free);
        usable = r.usable;
      },
    )
  where
    opened : (a b : Bool) → a ≡ true → (not a && b) ≡ false
    opened a b h = ground arith

    left : (w x u b : Bool) → x ≡ (not u && b) → b ≡ true → (w || x) ≡ (w || not u)
    left w x u b e h = ground arith
