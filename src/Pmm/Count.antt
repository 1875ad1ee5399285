-- ===== src/Pmm/Count.antt =====
-- The page counters of the bitmap: how many pages are marked, and the invariant over them.
use garn_os.Prelude.{
  ℕ, zero, suc, ◌+◌, ◌*◌, ◌^◌, ◌≤◌, ◌<◌, ◌≡◌, refl, Bool, true, false, not, ◌&&◌, ◌||◌, arith, ◌==◌,
  ltb, if◌then◌else◌, length,
}
use garn_os.Pmm.{Pmm}
use garn_os.Pmm.Scan.{page_used}
use garn_os.Pmm.Marks.{IsBytes}

-- How many numbers below `n` meet `f`.
unfoldable pub count : (ℕ → Bool) → ℕ → ℕ
count f zero = 0
count f (suc n) = (if f n then 1 else 0) + count f n

pub count-put :
    (f g : ℕ → Bool) (p n : ℕ)
    → ((q : ℕ) → g q ≡ ((p == q) || f q))
    → f p ≡ false
    → count g n ≡ count f n + (if ltb p n then 1 else 0)
unfolding count
count-put f g p zero law clear = ground arith
count-put f g p (suc n) law clear = ground (arith, count-put f g p n law clear, law n, at_page)
  where
    at_page : p ≡ n → f n ≡ false
    at_page e = rw (← e) clear

pub count-take :
    (f g : ℕ → Bool) (p n : ℕ)
    → ((q : ℕ) → g q ≡ (not (p == q) && f q))
    → f p ≡ true
    → count g n + (if ltb p n then 1 else 0) ≡ count f n
unfolding count
count-take f g p zero law marked = ground arith
count-take f g p (suc n) law marked = ground (arith, count-take f g p n law marked, law n, at_page)
  where
    at_page : p ≡ n → f n ≡ true
    at_page e = rw (← e) marked

pub count-le : (f : ℕ → Bool) (n : ℕ) → count f n ≤ n
unfolding count
count-le f zero = omega arith
count-le f (suc n) = ground (arith, count-le f n)

-- A page that does not meet `f` leaves room in the count.
pub count-lt : (f : ℕ → Bool) (p n : ℕ) → f p ≡ false → p < n → count f n < n
unfolding count
count-lt f p zero clear lt = absurd (omega arith)
count-lt f p (suc n) clear lt = ground (arith, count-lt f p n clear, count-le f n, at_page)
  where
    at_page : p ≡ n → f n ≡ false
    at_page e = rw (← e) clear

pub count-pos : (f : ℕ → Bool) (p n : ℕ) → f p ≡ true → p < n → 0 < count f n
unfolding count
count-pos f p zero marked lt = absurd (omega arith)
count-pos f p (suc n) marked lt = ground (arith, count-pos f p n marked, at_page)
  where
    at_page : p ≡ n → f n ≡ true
    at_page e = rw (← e) marked

pub count-all : (f : ℕ → Bool) (n : ℕ) → ((q : ℕ) → q < n → f q ≡ true) → count f n ≡ n
unfolding count
count-all f zero all = refl
count-all f (suc n) all = ground (arith, all n, count-all f n (λ q lt. all q (omega arith)))

-- The bitmap lies in memory, and the counters agree with its marks.
pub record IsValid (s : Pmm) : Type 0 where
  pub bytes : IsBytes s.bitmap
  pub room : s.bitmap_size ≤ length s.bitmap
  pub small : s.bitmap_size * 8 ≤ 2 ^ 52
  pub used : s.used_pages ≡ count (page_used s.bitmap) (s.bitmap_size * 8)
  pub total : s.free_pages + s.used_pages ≡ s.bitmap_size * 8
