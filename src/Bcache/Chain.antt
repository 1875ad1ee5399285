-- ===== src/Bcache/Chain.antt =====
-- The buffers as a doubly linked list: their indices, from the head on.
use garn_os.Prelude.{
  ℕ, ◌≡◌, ◌≢◌, refl, sym, ap, ◌∙◌, arith, true, Option, none, some, List, [], ◌∷◌, ◌++◌, ◌==◌,
  eq_false, inl, inr, Bool-cases, ==_iff,
}
use garn_os.Prelude.Distinct.{NotIn, Distinct}
use garn_os.Bcache.{Buf, Bcache, put}

-- The first index, and `q` behind all of them.
abbrev pub first : List ℕ → Option ℕ → Option ℕ
first [] q = q
first (i ∷ is) q = some i

abbrev pub last : Option ℕ → List ℕ → Option ℕ
last p [] = p
last p (i ∷ is) = last (some i) is

-- The buffers are linked in both directions, with `p` before and `q` behind them.
abbrev pub Linked : (ℕ → Buf) → Option ℕ → List ℕ → Option ℕ → Type 0
Linked b p [] q = Unit
Linked b p (i ∷ is) q = ((b i).prev ≡ p) × (((b i).next ≡ first is q) × Linked b (some i) is q)

pub record IsCache {W : Type 0} (c : Bcache W) (is : List ℕ) : Type 0 where
  pub linked : Linked c.buf none is none
  pub distinct : Distinct is
  pub head : c.head ≡ first is none
  pub tail : some c.tail ≡ last none is

-- A buffer outside of the list changes.
pub Linked-put :
    (b : ℕ → Buf) (j : ℕ) (r : Buf) (p : Option ℕ) (is : List ℕ) (q : Option ℕ)
    → NotIn j is
    → Linked b p is q
    → Linked (put b j r) p is q
Linked-put b j r p [] q out l = tt
Linked-put b j r p (i ∷ is) q (ne, out) (at_prev, (at_next, l)) =
    let other = eq_false i j (λ e. ne (sym e)) in
    (rw other at_prev, (rw other at_next, Linked-put b j r (some i) is q out l))

-- A field that a write leaves alone.
pub field-put {ℓ} :
    {A : Type ℓ} (b : ℕ → Buf) (j : ℕ) (r : Buf) (i : ℕ) (f : Buf → A)
    → f r ≡ f (b j)
    → f (put b j r i) ≡ f (b i)
field-put b j r i f e = elim (Bool-cases (i == j)) [
  | inl here ↦ rw here (e ∙ ap (λ x. f (b x)) (sym ((==_iff i j).0 here)))
  | inr there ↦ rw there refl
]

-- A buffer changes, but for its links.
pub Linked-kept :
    (b : ℕ → Buf) (j : ℕ) (r : Buf) (p : Option ℕ) (is : List ℕ) (q : Option ℕ)
    → r.next ≡ (b j).next
    → r.prev ≡ (b j).prev
    → Linked b p is q
    → Linked (put b j r) p is q
Linked-kept b j r p [] q en ep l = tt
Linked-kept b j r p (i ∷ is) q en ep (at_prev, (at_next, l)) = (
  field-put b j r i (λ x. x.prev) ep ∙ at_prev,
  (field-put b j r i (λ x. x.next) en ∙ at_next, Linked-kept b j r (some i) is q en ep l),
)

pub Linked-append_r :
    (b : ℕ → Buf) (p : Option ℕ) (xs ys : List ℕ) (q : Option ℕ)
    → Linked b p (xs ++ ys) q
    → Linked b (last p xs) ys q
Linked-append_r b p [] ys q l = l
Linked-append_r b p (x ∷ xs) ys q l = Linked-append_r b (some x) xs ys q l.1.1

-- The last buffer gets another one behind it.
pub Linked-end :
    (b : ℕ → Buf) (t : ℕ) (p : Option ℕ) (i : ℕ) (is : List ℕ) (q q' : Option ℕ)
    → some t ≡ last p (i ∷ is)
    → Distinct (i ∷ is)
    → Linked b p (i ∷ is) q
    → Linked (put b t (record (b t) { next = q' })) p (i ∷ is) q'
Linked-end b t p i [] q q' e d (at_prev, (at_next, l)) =
    let here : (i == t) ≡ true = ground (arith, e) in
    let same : t ≡ i = ground (arith, e) in (rw here (rw same at_prev), (rw here refl, tt))
Linked-end b t p i (j ∷ is) q q' e (out, d) (at_prev, (at_next, l)) =
    let other = eq_false i t (last-ne i t j is e out) in
    (rw other at_prev, (rw other at_next, Linked-end b t (some i) j is q q' e d l))
  where
    last-ne : (i t j : ℕ) (is : List ℕ) → some t ≡ last (some i) (j ∷ is) → NotIn i (j ∷ is) → i ≢ t
    last-ne i t j [] e (ne, out) = ground (arith, e, ne)
    last-ne i t j (k ∷ is) e (ne, out) = last-ne i t k is e out

pub Linked-snoc :
    (b : ℕ → Buf) (p : Option ℕ) (is : List ℕ) (i : ℕ) (q : Option ℕ)
    → Linked b p is (some i)
    → (b i).prev ≡ last p is
    → (b i).next ≡ q
    → Linked b p (is ++ i ∷ []) q
Linked-snoc b p [] i q l ep en = (ep, (en, tt))
Linked-snoc b p (j ∷ []) i q (at_prev, (at_next, l)) ep en =
    (at_prev, (at_next, Linked-snoc b (some j) [] i q l ep en))
Linked-snoc b p (j ∷ k ∷ is) i q (at_prev, (at_next, l)) ep en =
    (at_prev, (at_next, Linked-snoc b (some j) (k ∷ is) i q l ep en))
