-- ===== src/Pmm/Boot/Opened.antt =====
-- What the loops of `pmm_init` do to the marks and the counters.
use garn_os.Prelude.{
  ℕ, zero, suc, ◌+◌, ◌*◌, ◌/◌, ◌≤◌, ◌<◌, ◌≡◌, refl, ◌∙◌, sym, subst, ap, Bool, true, false, not,
  ◌&&◌, ◌||◌, List, [], ◌∷◌, arith, inl, inr, Bool-cases, if◌then◌else◌,
}
use garn_os.Prelude.Run.{ran}
use garn_os.Memmap.{MemmapEntry, is_usable}
use garn_os.Pmm.{Pmm, page_size, inc, dec}
use garn_os.Pmm.Scan.{page_used, IsTaken, IsFree}
use garn_os.Pmm.Marks.{within}
use garn_os.Pmm.Count.{IsValid}
use garn_os.Pmm.Ranges.{clear_one, set_one, logged-IsValid}
use garn_os.Pmm.Boot.{first_page, page_count, clear_pages, clear_entries, take_bitmap}

-- `f` holds of the pages that became free, `n` of them; the usable ones are counted with the free.
pub record Opened (s : Pmm) (f : ℕ → Bool) (n : ℕ) (t : Pmm) : Type 0 where
  pub valid : IsValid t
  pub marks : (q : ℕ) → page_used t.bitmap q ≡ (not (f q) && page_used s.bitmap q)
  pub free : t.free_pages ≡ s.free_pages + n
  pub usable : t.usable_pages ≡ t.free_pages
  pub same_size : t.bitmap_size ≡ s.bitmap_size

pub clear_pages-Opened :
    (k j : ℕ) (s : Pmm)
    → IsValid s
    → s.usable_pages ≡ s.free_pages
    → IsTaken s.bitmap j k
    → ((r : ℕ) → j ≤ r → r < j + k → r < s.bitmap_size * 8)
    → (t : Pmm) × (clear_pages k j s ≡ ran t) × Opened s (within j k) k t
unfolding clear_pages
clear_pages-Opened zero j s v eq taken fits = (
  s,
  refl,
  record {
    valid = v;
    marks = λ q. ground arith;
    free = omega arith;
    usable = eq;
    same_size = refl;
  },
)
clear_pages-Opened (suc k) j s v eq taken fits =
    let (t, run, c) =
      clear_one s j v (taken j (omega arith) (omega arith)) (fits j (omega arith) (omega arith)) in
    let t1 : Pmm = record t { usable_pages = inc t.usable_pages } in
    let eq1 : t1.usable_pages ≡ t1.free_pages =
      omega (arith, c.same_usable, c.free, v.total, v.small, c.valid.total, c.valid.small) in
    let (u, run', o) =
      clear_pages-Opened k (j + 1) t1 (logged-IsValid t (inc t.usable_pages) t.fills c.valid) eq1
        (λ r lo hi. ground (arith, c.marks r, taken r (omega arith) (omega arith)))
        (λ r lo hi. omega (arith, c.same_size, fits r (omega arith) (omega arith))) in
    (
      u,
      rw run run',
      record {
        valid = o.valid;
        marks = λ q. ground (arith, o.marks q, c.marks q);
        free = omega (arith, o.free, c.free);
        usable = o.usable;
        same_size = o.same_size ∙ c.same_size;
      },
    )

-- The page lies in a usable entry.
abbrev pub in_entry : MemmapEntry → ℕ → Bool
in_entry e q = is_usable e && within (first_page e) (page_count e) q

unfoldable pub usable_page : List MemmapEntry → ℕ → Bool
usable_page [] q = false
usable_page (e ∷ es) q = in_entry e q || usable_page es q

abbrev pub usable_count : List MemmapEntry → ℕ
usable_count [] = 0
usable_count (e ∷ es) = (if is_usable e then page_count e else 0) + usable_count es

-- The usable entries share no page, and end below page `end`.
abbrev pub AreApart : ℕ → List MemmapEntry → Type 0
AreApart end [] = Unit
AreApart end (e ∷ es) =
    ((q : ℕ) → in_entry e q ≡ true → (usable_page es q ≡ false) × (q < end)) × AreApart end es

Opened-none : (s : Pmm) → IsValid s → s.usable_pages ≡ s.free_pages → Opened s (λ q. false) 0 s
Opened-none s v eq = record {
  valid = v;
  marks = λ q. ground arith;
  free = omega arith;
  usable = eq;
  same_size = refl;
}

-- One round of the loop over the memory map.
clear_entry-Opened :
    (e : MemmapEntry) (s : Pmm)
    → IsValid s
    → s.usable_pages ≡ s.free_pages
    → ((q : ℕ) → in_entry e q ≡ true → (page_used s.bitmap q ≡ true) × (q < s.bitmap_size * 8))
    → (t : Pmm) × ((if is_usable e then clear_pages (page_count e) (first_page e) s else ran s)
        ≡ ran t)
      × Opened s (in_entry e) (if is_usable e then page_count e else 0) t
clear_entry-Opened e s v eq h = elim (Bool-cases (is_usable e)) [
  | inl use_it ↦
      let inside : (r : ℕ)
          → first_page e ≤ r
          → r < first_page e + page_count e
          → in_entry e r ≡ true =
        λ r lo hi. rw use_it (within-true (first_page e) (page_count e) r lo hi) in
      let (t, run, o) =
        clear_pages-Opened (page_count e) (first_page e) s v eq
          (λ r lo hi. (h r (inside r lo hi)).0) (λ r lo hi. (h r (inside r lo hi)).1) in
      (
        t,
        rw use_it run,
        record {
          valid = o.valid;
          marks = rw use_it o.marks;
          free = rw use_it o.free;
          usable = o.usable;
          same_size = o.same_size;
        },
      )
  | inr skip ↦
      let o = Opened-none s v eq in
      (
        s,
        rw skip refl,
        record {
          valid = o.valid;
          marks = rw skip o.marks;
          free = rw skip o.free;
          usable = o.usable;
          same_size = o.same_size;
        },
      )
]
  where
    within-true : (i k r : ℕ) → i ≤ r → r < i + k → within i k r ≡ true
    within-true i k r lo hi = ground arith

-- The pages of all usable entries become free.
pub clear_entries-Opened :
    (es : List MemmapEntry) (s : Pmm)
    → IsValid s
    → s.usable_pages ≡ s.free_pages
    → AreApart (s.bitmap_size * 8) es
    → ((q : ℕ) → usable_page es q ≡ true → page_used s.bitmap q ≡ true)
    → (t : Pmm) × (clear_entries es s ≡ ran t) × Opened s (usable_page es) (usable_count es) t
unfolding clear_entries usable_page
clear_entries-Opened [] s v eq ap_all taken = (s, refl, Opened-none s v eq)
clear_entries-Opened (e ∷ es) s v eq (here, rest) taken =
    let (t, run, o) =
      clear_entry-Opened e s v eq (λ q h. (taken q (or-left _ _ h), (here q h).1)) in
    let (u, run', o') =
      clear_entries-Opened es t o.valid o.usable
        (subst (λ n. AreApart (n * 8) es) (sym o.same_size) rest) (λ q h. o.marks q ∙ still q h) in
    (
      u,
      rw run run',
      record {
        valid = o'.valid;
        marks = λ q.
            o'.marks q
            ∙ ap (λ b. not (usable_page es q) && b) (o.marks q)
            ∙ both (in_entry e q) (usable_page es q) (page_used s.bitmap q);
        free = omega (arith, o'.free, o.free);
        usable = o'.usable;
        same_size = o'.same_size ∙ o.same_size;
      },
    )
  where
    or-left : (a b : Bool) → a ≡ true → (a || b) ≡ true
    or-left a b h = ground arith

    both : (a b c : Bool) → (not b && (not a && c)) ≡ (not (a || b) && c)
    both a b c = ground arith

    later : (a b c : Bool) → b ≡ true → (a ≡ true → b ≡ false) → c ≡ true → (not a && c) ≡ true
    later a b c h no_both used = ground arith

    or-right : (a b : Bool) → b ≡ true → (a || b) ≡ true
    or-right a b h = ground arith

    still : (q : ℕ) → usable_page es q ≡ true → (not (in_entry e q) && page_used s.bitmap q) ≡ true
    still q h =
        later (in_entry e q) (usable_page es q) (page_used s.bitmap q) h (λ a. (here q a).0)
          (taken q (or-right _ _ h))

-- The pages of the bitmap itself are taken from the free ones.
pub record Reserved (s : Pmm) (i k : ℕ) (t : Pmm) : Type 0 where
  pub valid : IsValid t
  pub marks : (q : ℕ) → page_used t.bitmap q ≡ (within i k q || page_used s.bitmap q)
  pub free : t.free_pages + k ≡ s.free_pages
  pub usable : t.usable_pages ≡ t.free_pages
  pub same_size : t.bitmap_size ≡ s.bitmap_size

pub take_bitmap-Reserved :
    (k page : ℕ) (s : Pmm)
    → IsValid s
    → s.usable_pages ≡ s.free_pages
    → IsFree s.bitmap page k
    → page + k ≤ s.bitmap_size * 8
    → (t : Pmm) × (take_bitmap k (page * page_size) s ≡ ran t) × Reserved s page k t
unfolding take_bitmap
take_bitmap-Reserved zero page s v eq free fits = (
  s,
  refl,
  record {
    valid = v;
    marks = λ q. ground arith;
    free = omega arith;
    usable = eq;
    same_size = refl;
  },
)
take_bitmap-Reserved (suc k) page s v eq free fits =
    let (t, run, m) = set_one s page v (free page (omega arith) (omega arith)) (omega arith) in
    let t1 : Pmm = record t { usable_pages = dec t.usable_pages } in
    let eq1 : t1.usable_pages ≡ t1.free_pages =
      omega (arith, m.same_usable, m.free, v.total, v.small) in
    let (u, run', o) =
      take_bitmap-Reserved k (page + 1) t1 (logged-IsValid t (dec t.usable_pages) t.fills m.valid)
        eq1 (λ r lo hi. ground (arith, m.marks r, free r (omega arith) (omega arith)))
        (omega (arith, m.same_size)) in
    let at : page * page_size / page_size ≡ page = omega arith in
    let next : page * page_size + page_size ≡ (page + 1) * page_size = omega arith in
    (
      u,
      rw (at, next, run) run',
      record {
        valid = o.valid;
        marks = λ q. ground (arith, o.marks q, m.marks q);
        free = omega (arith, o.free, m.free);
        usable = o.usable;
        same_size = o.same_size ∙ m.same_size;
      },
    )
