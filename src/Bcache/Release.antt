-- ===== src/Bcache/Release.antt =====
-- `bcache_release`.
use garn_os.Prelude.{
  ℕ, ◌-◌, ◌≡◌, ◌≢◌, refl, sym, ap, subst, ◌∙◌, arith, true, false, Option, none, some, List, [],
  ◌∷◌, ◌++◌, ◌==◌, if◌then◌else◌, eq_self, eq_false,
}
use garn_os.Bcache.{Buf, Bcache, put, points_at, bcache_release}
use garn_os.Prelude.Distinct.{NotIn, Distinct, NotIn-append_r, Distinct-without, Distinct-snoc}
use garn_os.Bcache.Chain.{
  first, last, Linked, IsCache, field-put, Linked-put, Linked-kept, Linked-append_r, Linked-end,
  Linked-snoc,
}
use garn_os.Bcache.Bypass.{bypass, Linked-bypass}

last-append : (p : Option ℕ) (xs ys : List ℕ) → last p (xs ++ ys) ≡ last (last p xs) ys
last-append p [] ys = refl
last-append p (x ∷ xs) ys = last-append (some x) xs ys

last-cons_append :
    (p : Option ℕ) (x : ℕ) (xs : List ℕ) (i y : ℕ) (ys : List ℕ)
    → last p (xs ++ i ∷ y ∷ ys) ≡ last (some y) ys
last-cons_append p x [] i y ys = refl
last-cons_append p x (z ∷ xs) i y ys = last-cons_append (some z) x xs i y ys

-- A buffer without its links.
abbrev pub payload : Buf → Buf
payload r = record r { next = none; prev = none }

bypass-payload : (b : ℕ → Buf) (p : Option ℕ) (y j : ℕ) → payload (bypass b p y j) ≡ payload (b j)
bypass-payload b none y j = field-put b y (record (b y) { prev = none }) j payload refl
bypass-payload b (some x) y j =
    field-put b1 x (record (b1 x) { next = some y }) j payload refl
    ∙ field-put b y (record (b y) { prev = some x }) j payload refl
  where
    b1 : ℕ → Buf
    b1 = put b y (record (b y) { prev = some x })

module _ {W : Type 0} (c : Bcache W) (xs : List ℕ) (i y : ℕ) (ys : List ℕ)
    (h : IsCache c (xs ++ i ∷ y ∷ ys)) where
  b0 : ℕ → Buf
  b0 = put c.buf i (record (c.buf i) { ref_count = (c.buf i).ref_count - 1 })

  b1 : ℕ → Buf
  b1 = put b0 c.tail (record (b0 c.tail) { next = some i })

  tail-Linked : Linked b1 none (xs ++ i ∷ y ∷ ys) (some i)
  unfolding b0 b1
  tail-Linked = go xs h.linked h.distinct h.tail
    where
      go :
          (xs : List ℕ)
          → Linked c.buf none (xs ++ i ∷ y ∷ ys) none
          → Distinct (xs ++ i ∷ y ∷ ys)
          → some c.tail ≡ last none (xs ++ i ∷ y ∷ ys)
          → Linked b1 none (xs ++ i ∷ y ∷ ys) (some i)
      go [] l d t =
          Linked-end b0 c.tail none i (y ∷ ys) none (some i) t d
            (Linked-kept c.buf i _ none (i ∷ y ∷ ys) none refl refl l)
      go (x ∷ xs) l d t =
          Linked-end b0 c.tail none x (xs ++ i ∷ y ∷ ys) none (some i) t d
            (Linked-kept c.buf i _ none (x ∷ xs ++ i ∷ y ∷ ys) none refl refl l)

  links :
      ((b1 i).prev ≡ last none xs) × (((b1 i).next ≡ some y) × Linked b1 (some i) (y ∷ ys) (some i))
  links = Linked-append_r b1 none xs (i ∷ y ∷ ys) (some i) tail-Linked

  outside : NotIn i (xs ++ y ∷ ys) × Distinct (xs ++ y ∷ ys)
  outside = Distinct-without xs i (y ∷ ys) h.distinct

  i-ne-y : i ≢ y
  i-ne-y = (NotIn-append_r i xs (y ∷ ys) outside.0).0

  around : ℕ → Buf
  around = bypass b1 (last none xs) y

  moved_buf : ℕ → Buf
  moved_buf = put around i (record (around i) { prev = some c.tail; next = none; valid = false })

  moved : Bcache W
  unfolding moved_buf
  moved = record c {
    head = if points_at c.head i then some y else c.head;
    tail = i;
    buf = moved_buf;
  }

  release-moved : (c.buf i).ref_count ≡ 1 → bcache_release c i ≡ moved
  unfolding bcache_release moved moved_buf around b1 b0
  release-moved one =
      let t1 : ((c.buf i).ref_count == 0) ≡ false = ground arith in
      let t2 : ((c.buf i).ref_count - 1 == 0) ≡ true = ground arith in
      let far = eq_false i y i-ne-y in rw (t1, t2) (rw (links.1.0) (rw far (rw (links.0) refl)))

  moved-head : moved.head ≡ first ((xs ++ y ∷ ys) ++ i ∷ []) none
  unfolding moved
  moved-head = go xs h.head outside.0
    where
      go :
          (xs : List ℕ)
          → c.head ≡ first (xs ++ i ∷ y ∷ ys) none
          → NotIn i (xs ++ y ∷ ys)
          → (if points_at c.head i then some y else c.head) ≡ first ((xs ++ y ∷ ys) ++ i ∷ []) none
      go [] e out = rw e (rw (eq_self i) refl)
      go (x ∷ xs) e (ne, out) = rw e (rw (eq_false x i (λ p. ne (sym p))) refl)

  -- Another buffer, but for its links.
  moved-payload : (j : ℕ) → j ≢ i → payload (moved.buf j) ≡ payload (c.buf j)
  unfolding moved moved_buf around b1 b0
  moved-payload j ne = rw (eq_false j i ne) (
      bypass-payload b1 (last none xs) y j
      ∙ field-put b0 c.tail (record (b0 c.tail) { next = some i }) j payload refl
      ∙ rw (eq_false j i ne) refl)

  moved-unused : (c.buf i).ref_count ≡ 1 → (moved.buf i).ref_count ≡ 0
  unfolding moved moved_buf around b1 b0
  moved-unused one =
      let same =
        bypass-payload b1 (last none xs) y i
        ∙ field-put b0 c.tail (record (b0 c.tail) { next = some i }) i payload refl in
      let count : (b0 i).ref_count ≡ 0 = rw (eq_self i) (omega (arith, one)) in
      rw (eq_self i) (ap (λ r. r.ref_count) same ∙ count)

  last-snoc : (p : Option ℕ) (zs : List ℕ) → some i ≡ last p (zs ++ i ∷ [])
  last-snoc p [] = refl
  last-snoc p (z ∷ zs) = last-snoc (some z) zs

  moved-IsCache : IsCache moved ((xs ++ y ∷ ys) ++ i ∷ [])
  unfolding moved moved_buf around
  moved-IsCache = record {
    linked =
        Linked-snoc moved_buf none (xs ++ y ∷ ys) i none
          (Linked-put around i _ none (xs ++ y ∷ ys) (some i) outside.0
            (Linked-bypass b1 xs i y ys (some i) tail-Linked h.distinct))
          (rw (eq_self i)
            (h.tail ∙ last-append none xs (i ∷ y ∷ ys) ∙ sym (last-append none xs (y ∷ ys))))
          (rw (eq_self i) refl);
    distinct = Distinct-snoc (xs ++ y ∷ ys) i outside.0 outside.1;
    head = moved-head;
    tail = last-snoc none (xs ++ y ∷ ys);
  }

-- What is left when the buffer `i` is no longer in use: it is the last to be used again.
pub record Moved {W : Type 0} (c : Bcache W) (is : List ℕ) (i : ℕ) (c' : Bcache W) : Type 0 where
  pub cache : IsCache c' (is ++ i ∷ [])
  pub unused : (c'.buf i).ref_count ≡ 0
  pub invalid : (c'.buf i).valid ≡ false
  pub others : (j : ℕ) → j ≢ i → payload (c'.buf j) ≡ payload (c.buf j)
  pub hw : c'.hw ≡ c.hw

-- When the last user releases a buffer that is not at the end of the list, the buffer moves to the
-- end, behind all others in their order, unused and not valid; the others keep what they hold.
pub bcache_release-Moved :
    {W : Type 0} (c : Bcache W) (xs : List ℕ) (i y : ℕ) (ys : List ℕ)
    → IsCache c (xs ++ i ∷ y ∷ ys)
    → (c.buf i).ref_count ≡ 1
    → Moved c (xs ++ y ∷ ys) i (bcache_release c i)
unfolding moved moved_buf
bcache_release-Moved c xs i y ys h one =
    subst (Moved c (xs ++ y ∷ ys) i) (sym (release-moved c xs i y ys h one)) (record {
      cache = moved-IsCache c xs i y ys h;
      unused = moved-unused c xs i y ys h one;
      invalid = rw (eq_self i) refl;
      others = moved-payload c xs i y ys h;
      hw = refl;
    })
