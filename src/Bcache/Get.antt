-- ===== src/Bcache/Get.antt =====
-- `bcache_get`.
use garn_os.Prelude.{
  ℕ, zero, suc, ◌+◌, ◌%◌, ◌^◌, ◌<◌, ◌≡◌, ◌≢◌, refl, sym, ap, subst, ◌∙◌, arith, Bool, true, false,
  Option, none, some, List, [], ◌∷◌, ◌++◌, eq_self, eq_false, length, length-append,
}
use garn_os.Prelude.Exec.{done}
use garn_os.Bcache.{
  Buf, Bcache, Drives, put, find_buf, holds_block, is_unused, bcache_read, load_buf, bcache_get,
}
use garn_os.Bcache.Chain.{first, Linked, IsCache, Linked-kept}

-- No buffer of the list meets the test.
abbrev pub NoneMeets : (Buf → Bool) → (ℕ → Buf) → List ℕ → Type 0
NoneMeets test b [] = Unit
NoneMeets test b (i ∷ is) = (test (b i) ≡ false) × NoneMeets test b is

find_buf-none :
    (fuel : ℕ) (test : Buf → Bool) (b : ℕ → Buf) (p : Option ℕ) (is : List ℕ)
    → Linked b p is none
    → NoneMeets test b is
    → length is < fuel
    → find_buf fuel test b (first is none) ≡ done none
unfolding find_buf
find_buf-none zero test b p is l n f = absurd (omega arith)
find_buf-none (suc fuel) test b p [] l n f = refl
find_buf-none (suc fuel) test b p (i ∷ is) (ep, (en, l)) (no_hit, n) f =
    rw (no_hit, en) (find_buf-none fuel test b (some i) is l n (omega arith))

find_buf-first :
    (fuel : ℕ) (test : Buf → Bool) (b : ℕ → Buf) (p : Option ℕ) (xs : List ℕ) (i : ℕ) (ys : List ℕ)
    → Linked b p (xs ++ i ∷ ys) none
    → NoneMeets test b xs
    → test (b i) ≡ true
    → length xs < fuel
    → find_buf fuel test b (first (xs ++ i ∷ ys) none) ≡ done (some i)
unfolding find_buf
find_buf-first zero test b p xs i ys l n hit f = absurd (omega arith)
find_buf-first (suc fuel) test b p [] i ys l n hit f = rw hit refl
find_buf-first (suc fuel) test b p (x ∷ xs) i ys (ep, (en, l)) (no_hit, n) hit f =
    rw (no_hit, en) (find_buf-first fuel test b (some x) xs i ys l n hit (omega arith))

-- The buffer `i` is given out for the block, and the others are as before.
pub record Given {W : Type 0} (c : Bcache W) (is : List ℕ) (drive block i : ℕ) (c' : Bcache W)
    : Type 0 where
  pub cache : IsCache c' is
  pub holds : holds_block drive block (c'.buf i) ≡ true
  pub count : (c'.buf i).ref_count ≡ ((c.buf i).ref_count + 1) % 2 ^ 32
  pub others : (j : ℕ) → j ≢ i → c'.buf j ≡ c.buf j

-- A buffer changes, but for its links.
same_links :
    {W : Type 0} (c c' : Bcache W) (is : List ℕ) (i : ℕ) (r : Buf)
    → IsCache c is
    → c'.buf ≡ put c.buf i r
    → r.next ≡ (c.buf i).next
    → r.prev ≡ (c.buf i).prev
    → c'.head ≡ c.head
    → c'.tail ≡ c.tail
    → IsCache c' is
same_links c c' is i r h e en ep eh et = record {
  linked =
      subst (λ b. Linked b none is none) (sym e)
        (Linked-kept c.buf i r none is none en ep h.linked);
  distinct = h.distinct;
  head = eh ∙ h.head;
  tail = ap some et ∙ h.tail;
}

-- A block that a valid buffer holds is found there: one more user shares the buffer and its contents.
pub bcache_get-hit :
    {W : Type 0} (drives : Drives W) (fuel drive block : ℕ) (c : Bcache W) (xs : List ℕ) (i : ℕ)
    (ys : List ℕ)
    → IsCache c (xs ++ i ∷ ys)
    → NoneMeets (holds_block drive block) c.buf xs
    → holds_block drive block (c.buf i) ≡ true
    → length xs < fuel
    → (c' : Bcache W) × (bcache_get drives fuel c drive block ≡ done (some i, c'))
      × (Given c (xs ++ i ∷ ys) drive block i c'
          × ((c'.buf i).contents ≡ (c.buf i).contents)
          × (c'.hw ≡ c.hw))
unfolding bcache_get
bcache_get-hit drives fuel drive block c xs i ys h n hit f =
    let found =
      ap (find_buf fuel (holds_block drive block) c.buf) h.head
      ∙ find_buf-first fuel (holds_block drive block) c.buf none xs i ys h.linked n hit f in
    let r : Buf = record (c.buf i) { ref_count = ((c.buf i).ref_count + 1) % 2 ^ 32 } in
    let c' : Bcache _ = record c { buf = put c.buf i r } in
    (
      c',
      rw found refl,
      (
        record {
          cache = same_links c c' (xs ++ i ∷ ys) i r h refl refl refl refl refl;
          holds = rw (eq_self i) hit;
          count = rw (eq_self i) refl;
          others = λ j ne. rw (eq_false j i ne) refl;
        },
        rw (eq_self i) refl,
        refl,
      ),
    )

read_run :
    {W : Type 0} (drives : Drives W) (c : Bcache W) (i drive : ℕ) (read : ℕ → W → List ℕ × W)
    → (c.buf i).drive ≡ drive
    → drives.read drive ≡ some read
    → bcache_read drives c i ≡ (
      true,
      record c {
        buf = put c.buf i (record (c.buf i) { contents = (read (c.buf i).block c.hw).0 });
        hw = (read (c.buf i).block c.hw).1;
      },
    )
unfolding bcache_read
read_run drives c i drive read d e = let e' = ap drives.read d ∙ e in rw (e', bcache_read) refl

-- What `bcache_get` gives a buffer that was not in use, before it is read.
abbrev claimed : {W : Type 0} → Bcache W → ℕ → ℕ → ℕ → Bcache W
claimed c i drive block = record c {
  buf = put c.buf i (record (c.buf i) {
    ref_count = ((c.buf i).ref_count + 1) % 2 ^ 32;
    block = block;
    drive = drive;
    valid = true;
    dirty = false;
  });
}

abbrev loaded : {W : Type 0} → Bcache W → ℕ → (ℕ → W → List ℕ × W) → Bcache W
loaded c i read = record c {
  buf = put c.buf i (record (c.buf i) { contents = (read (c.buf i).block c.hw).0 });
  hw = (read (c.buf i).block c.hw).1;
}

load_buf-loaded :
    {W : Type 0} (drives : Drives W) (c : Bcache W) (i drive block : ℕ) (read : ℕ → W → List ℕ × W)
    → drives.read drive ≡ some read
    → load_buf drives c i drive block ≡ (some i, loaded (claimed c i drive block) i read)
unfolding load_buf
load_buf-loaded drives c i drive block read e =
    let run = read_run drives (claimed c i drive block) i drive read (rw (eq_self i) refl) e in
    rw run refl

loaded-Given :
    {W : Type 0} (c : Bcache W) (is : List ℕ) (i drive block : ℕ) (read : ℕ → W → List ℕ × W)
    → IsCache c is
    → Given c is drive block i (loaded (claimed c i drive block) i read)
loaded-Given c is i drive block read h = record {
  cache =
      let c1 = claimed c i drive block in
      same_links c1 (loaded c1 i read) is i
        (record (c1.buf i) { contents = (read (c1.buf i).block c1.hw).0 })
        (same_links c c1 is i
          (record (c.buf i) {
            ref_count = ((c.buf i).ref_count + 1) % 2 ^ 32;
            block = block;
            drive = drive;
            valid = true;
            dirty = false;
          })
          h refl refl refl refl refl)
        refl refl refl refl refl;
  holds = rw (eq_self i) (rw (eq_self drive, eq_self block) refl);
  count = rw (eq_self i) refl;
  others = λ j ne. rw (eq_false j i ne) refl;
}

-- A block that no buffer holds is read from the drive into the first buffer that is not in use. The
-- buffers in use keep what they hold.
pub bcache_get-miss :
    {W : Type 0} (drives : Drives W) (fuel drive block : ℕ) (c : Bcache W) (xs : List ℕ) (i : ℕ)
    (ys : List ℕ) (read : ℕ → W → List ℕ × W)
    → IsCache c (xs ++ i ∷ ys)
    → NoneMeets (holds_block drive block) c.buf (xs ++ i ∷ ys)
    → NoneMeets is_unused c.buf xs
    → is_unused (c.buf i) ≡ true
    → length (xs ++ i ∷ ys) < fuel
    → drives.read drive ≡ some read
    → (c' : Bcache W) × (bcache_get drives fuel c drive block ≡ done (some i, c'))
      × (Given c (xs ++ i ∷ ys) drive block i c'
          × ((c'.buf i).contents ≡ (read block c.hw).0)
          × (c'.hw ≡ (read block c.hw).1))
unfolding bcache_get
bcache_get-miss drives fuel drive block c xs i ys read h n busy free f e =
    let missed =
      ap (find_buf fuel (holds_block drive block) c.buf) h.head
      ∙ find_buf-none fuel (holds_block drive block) c.buf none (xs ++ i ∷ ys) h.linked n f in
    let found =
      ap (find_buf fuel is_unused c.buf) h.head
      ∙ find_buf-first fuel is_unused c.buf none xs i ys h.linked busy free
          (omega (arith, length-append xs (i ∷ ys))) in
    (
      loaded (claimed c i drive block) i read,
      rw missed (rw found (ap done (load_buf-loaded drives c i drive block read e))),
      (
        loaded-Given c (xs ++ i ∷ ys) i drive block read h,
        rw (eq_self i) refl,
        rw (eq_self i) refl,
      ),
    )
