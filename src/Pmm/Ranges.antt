-- ===== src/Pmm/Ranges.antt =====
-- Marking and clearing a run of pages keeps the invariant and touches no other page.
use garn_os.Prelude.{
  ℕ, zero, suc, ◌+◌, ◌-◌, ◌*◌, ◌/◌, ◌%◌, ◌^◌, ◌≤◌, ◌<◌, ◌≡◌, refl, ◌∙◌, true, false, not, ◌&&◌,
  ◌||◌, List, [], ◌∷◌, ◌++◌, ap, arith, ◌==◌, length, set, get_or, length-set, replicate,
}
use garn_os.Prelude.Bits.{set_bit, clear_bit}
use garn_os.Prelude.Run.{ran}
use garn_os.Pmm.{Pmm, page_size, pmm_bitmap_set, pmm_bitmap_clear, set_pages, free_pages_loop}
use garn_os.Pmm.Scan.{page_used, IsFree, IsTaken}
use garn_os.Pmm.Marks.{within, page_used-set, page_used-clear, IsBytes-set, IsBytes-clear}
use garn_os.Pmm.Count.{count-put, count-take, count-lt, count-pos, IsValid}

-- `t` is `s` with the `k` pages from `i` on newly marked.
pub record Marked (s : Pmm) (i k : ℕ) (t : Pmm) : Type 0 where
  pub valid : IsValid t
  pub marks : (q : ℕ) → page_used t.bitmap q ≡ (within i k q || page_used s.bitmap q)
  pub used : t.used_pages ≡ s.used_pages + k
  pub free : t.free_pages + k ≡ s.free_pages
  pub same_size : t.bitmap_size ≡ s.bitmap_size
  pub same_length : length t.bitmap ≡ length s.bitmap
  pub same_usable : t.usable_pages ≡ s.usable_pages
  pub same_fills : t.fills ≡ s.fills

Marked-none : (s : Pmm) (i : ℕ) → IsValid s → Marked s i 0 s
Marked-none s i v = record {
  valid = v;
  marks = λ q. ground arith;
  used = omega arith;
  free = omega arith;
  same_size = refl;
  same_length = refl;
  same_usable = refl;
  same_fills = refl;
}

Marked-add : (s t u : Pmm) (i k : ℕ) → Marked s i 1 t → Marked t (i + 1) k u → Marked s i (suc k) u
Marked-add s t u i k m n = record {
  valid = n.valid;
  marks = λ q. ground (arith, n.marks q, m.marks q);
  used = omega (arith, n.used, m.used);
  free = omega (arith, n.free, m.free);
  same_size = n.same_size ∙ m.same_size;
  same_length = n.same_length ∙ m.same_length;
  same_usable = n.same_usable ∙ m.same_usable;
  same_fills = n.same_fills ∙ m.same_fills;
}

pub set_one :
    (s : Pmm) (p : ℕ)
    → IsValid s
    → page_used s.bitmap p ≡ false
    → p < s.bitmap_size * 8
    → (t : Pmm) × (pmm_bitmap_set s p ≡ ran t) × Marked s p 1 t
unfolding pmm_bitmap_set
set_one s p v clear lt = (t, ground arith, m)
  where
    t : Pmm
    t = record s {
      used_pages = (s.used_pages + 1) % 2 ^ 64;
      free_pages = (s.free_pages + 2 ^ 64 - 1) % 2 ^ 64;
      bitmap = set s.bitmap (p / 8) (set_bit (get_or s.bitmap (p / 8) 0) (p % 8));
    }

    room : p / 8 < length s.bitmap
    room = omega (arith, v.room)

    marked : (q : ℕ) → page_used t.bitmap q ≡ ((p == q) || page_used s.bitmap q)
    marked = page_used-set s.bitmap p v.bytes room

    below : s.used_pages < s.bitmap_size * 8
    below = omega (arith, v.used, count-lt (page_used s.bitmap) p (s.bitmap_size * 8) clear lt)

    m : Marked s p 1 t
    m = record {
      valid = record {
        bytes = IsBytes-set s.bitmap p v.bytes room;
        room = omega (arith, v.room, length-set s.bitmap (p / 8) _);
        small = v.small;
        used =
            ground
              (arith, v.used, v.small, below, count-put _ _ p (s.bitmap_size * 8) marked clear);
        total = omega (arith, v.total, v.small, below);
      };
      marks = λ q. ground (arith, marked q);
      used = omega (arith, v.small, below);
      free = omega (arith, v.total, v.small, below);
      same_size = refl;
      same_length = length-set s.bitmap (p / 8) _;
      same_usable = refl;
      same_fills = refl;
    }

-- On free pages below the end of the bitmap, the loop of `pmm_allocate` marks exactly these.
pub set_pages-Marked :
    (k i : ℕ) (s : Pmm)
    → IsValid s
    → IsFree s.bitmap i k
    → i + k ≤ s.bitmap_size * 8
    → (t : Pmm) × (set_pages k i s ≡ ran t) × Marked s i k t
unfolding set_pages
set_pages-Marked zero i s v f fits = (s, refl, Marked-none s i v)
set_pages-Marked (suc k) i s v f fits =
    let (t, run, m) = set_one s i v (f i (omega arith) (omega arith)) (omega arith) in
    let (u, run', n) =
      set_pages-Marked k (i + 1) t m.valid
        (λ r lo hi. ground (arith, m.marks r, f r (omega arith) (omega arith)))
        (omega (arith, m.same_size)) in
    (u, rw run run', Marked-add s t u i k m n)

-- `t` is `s` with the `k` pages from `i` on no longer marked, and the pages `added` filled.
pub record Cleared (s : Pmm) (i k : ℕ) (added : List ℕ) (t : Pmm) : Type 0 where
  pub valid : IsValid t
  pub marks : (q : ℕ) → page_used t.bitmap q ≡ (not (within i k q) && page_used s.bitmap q)
  pub used : t.used_pages + k ≡ s.used_pages
  pub free : t.free_pages ≡ s.free_pages + k
  pub same_size : t.bitmap_size ≡ s.bitmap_size
  pub same_length : length t.bitmap ≡ length s.bitmap
  pub same_usable : t.usable_pages ≡ s.usable_pages
  pub fills : t.fills ≡ added ++ s.fills

Cleared-none : (s : Pmm) (i : ℕ) → IsValid s → Cleared s i 0 [] s
Cleared-none s i v = record {
  valid = v;
  marks = λ q. ground arith;
  used = omega arith;
  free = omega arith;
  same_size = refl;
  same_length = refl;
  same_usable = refl;
  fills = refl;
}

replicate-suc {ℓ} :
    {A : Type ℓ} (k : ℕ) (a : A) (xs : List A)
    → replicate k a ++ (a ∷ xs) ≡ a ∷ (replicate k a ++ xs)
replicate-suc zero a xs = refl
replicate-suc (suc k) a xs = ap (λ ys. a ∷ ys) (replicate-suc k a xs)

Cleared-add :
    (s t u : Pmm) (i k a : ℕ)
    → Cleared s i 1 (a ∷ []) t
    → Cleared t (i + 1) k (replicate k a) u
    → Cleared s i (suc k) (replicate (suc k) a) u
Cleared-add s t u i k a m n = record {
  valid = n.valid;
  marks = λ q. ground (arith, n.marks q, m.marks q);
  used = omega (arith, n.used, m.used);
  free = omega (arith, n.free, m.free);
  same_size = n.same_size ∙ m.same_size;
  same_length = n.same_length ∙ m.same_length;
  same_usable = n.same_usable ∙ m.same_usable;
  fills = n.fills ∙ ap (λ xs. replicate k a ++ xs) m.fills ∙ replicate-suc k a s.fills;
}

pub clear_one :
    (s : Pmm) (p : ℕ)
    → IsValid s
    → page_used s.bitmap p ≡ true
    → p < s.bitmap_size * 8
    → (t : Pmm) × (pmm_bitmap_clear s p ≡ ran t) × Cleared s p 1 [] t
unfolding pmm_bitmap_clear
clear_one s p v taken lt = (t, ground arith, m)
  where
    t : Pmm
    t = record s {
      used_pages = (s.used_pages + 2 ^ 64 - 1) % 2 ^ 64;
      free_pages = (s.free_pages + 1) % 2 ^ 64;
      bitmap = set s.bitmap (p / 8) (clear_bit (get_or s.bitmap (p / 8) 0) (p % 8));
    }

    room : p / 8 < length s.bitmap
    room = omega (arith, v.room)

    marked : (q : ℕ) → page_used t.bitmap q ≡ (not (p == q) && page_used s.bitmap q)
    marked = page_used-clear s.bitmap p v.bytes room

    above : 0 < s.used_pages
    above = omega (arith, v.used, count-pos (page_used s.bitmap) p (s.bitmap_size * 8) taken lt)

    m : Cleared s p 1 [] t
    m = record {
      valid = record {
        bytes = IsBytes-clear s.bitmap p v.bytes room;
        room = omega (arith, v.room, length-set s.bitmap (p / 8) _);
        small = v.small;
        used = ground (
          arith,
          v.used,
          v.total,
          v.small,
          above,
          count-take _ _ p (s.bitmap_size * 8) marked taken,
        );
        total = omega (arith, v.total, v.small, above);
      };
      marks = λ q. ground (arith, marked q);
      used = omega (arith, v.total, v.small, above);
      free = omega (arith, v.total, v.small, above);
      same_size = refl;
      same_length = length-set s.bitmap (p / 8) _;
      same_usable = refl;
      fills = refl;
    }

-- The fills and the count of usable pages play no part in the invariant.
pub logged-IsValid :
    (s : Pmm) (u : ℕ) (fills : List ℕ)
    → IsValid s
    → IsValid (record s { usable_pages = u; fills = fills })
logged-IsValid s u fills v = record {
  bytes = v.bytes;
  room = v.room;
  small = v.small;
  used = v.used;
  total = v.total;
}

fill_and_clear :
    (s : Pmm) (p a : ℕ)
    → IsValid s
    → page_used s.bitmap p ≡ true
    → p < s.bitmap_size * 8
    → (t : Pmm) × (pmm_bitmap_clear (record s { fills = a ∷ s.fills }) p ≡ ran t)
      × Cleared s p 1 (a ∷ []) t
fill_and_clear s p a v taken lt =
    let s1 : Pmm = record s { fills = a ∷ s.fills } in
    let (t, run, c) = clear_one s1 p (logged-IsValid s s.usable_pages (a ∷ s.fills) v) taken lt in
    (
      t,
      run,
      record {
        valid = c.valid;
        marks = c.marks;
        used = c.used;
        free = c.free;
        same_size = c.same_size;
        same_length = c.same_length;
        same_usable = c.same_usable;
        fills = c.fills;
      },
    )

-- On marked pages below the end of the bitmap, the loop of `pmm_free` clears exactly these.
pub free_pages_loop-Cleared :
    (base npages k i : ℕ) (s : Pmm)
    → IsValid s
    → IsTaken s.bitmap i k
    → i + k ≤ s.bitmap_size * 8
    → (t : Pmm) × (free_pages_loop base npages k i s ≡ ran t)
      × Cleared s i k (replicate k (base + (npages - 1) * page_size)) t
unfolding free_pages_loop
free_pages_loop-Cleared base npages zero i s v f fits = (s, refl, Cleared-none s i v)
free_pages_loop-Cleared base npages (suc k) i s v f fits =
    let (t, run, m) =
      fill_and_clear s i (base + (npages - 1) * page_size) v (f i (omega arith) (omega arith))
        (omega arith) in
    let (u, run', n) =
      free_pages_loop-Cleared base npages k (i + 1) t m.valid
        (λ r lo hi. ground (arith, m.marks r, f r (omega arith) (omega arith)))
        (omega (arith, m.same_size)) in
    (u, rw run run', Cleared-add s t u i k (base + (npages - 1) * page_size) m n)
