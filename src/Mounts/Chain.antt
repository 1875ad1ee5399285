-- ===== src/Mounts/Chain.antt =====
-- The list of mounted file systems, by their addresses from the root on.
use garn_os.Prelude.{
  ℕ, ◌≡◌, ◌≢◌, refl, sym, ap, ◌∙◌, subst, arith, inl, inr, Bool-cases, List, [], ◌∷◌, ◌++◌, ◌==◌,
  eq_self, eq_false,
}
use garn_os.Prelude.Distinct.{NotIn, Distinct, NotIn-append_l}
use garn_os.Mounts.{Mount, Mounts, put_mount}

-- From `p` on the file systems are linked, and `q` is behind them.
abbrev pub Linked : (ℕ → Mount) → ℕ → List ℕ → ℕ → Type 0
Linked t p [] q = p ≡ q
Linked t p (i ∷ is) q = (p ≡ i) × (i ≢ 0) × Linked t (t i).next is q

abbrev pub last : ℕ → List ℕ → ℕ
last p [] = p
last p (i ∷ is) = last i is

pub record IsMounted (m : Mounts) (is : List ℕ) : Type 0 where
  pub linked : Linked m.mount m.fs.root_vfs is 0
  pub distinct : Distinct is
  pub tail : m.last_vfs ≡ last 0 is

-- A file system outside of the list changes.
pub Linked-put :
    (t : ℕ → Mount) (j : ℕ) (r : Mount) (p : ℕ) (is : List ℕ) (q : ℕ)
    → NotIn j is
    → Linked t p is q
    → Linked (put_mount t j r) p is q
Linked-put t j r p [] q out l = l
Linked-put t j r p (i ∷ is) q (ne, out) (e, nz, l) =
    let other = eq_false i j (λ e. ne (sym e)) in
    (e, nz, rw other (Linked-put t j r (t i).next is q out l))

-- A field other than `next` changes.
pub Linked-kept :
    (t : ℕ → Mount) (j : ℕ) (r : Mount) (p : ℕ) (is : List ℕ) (q : ℕ)
    → r.next ≡ (t j).next
    → Linked t p is q
    → Linked (put_mount t j r) p is q
Linked-kept t j r p [] q e l = l
Linked-kept t j r p (i ∷ is) q e (h, nz, l) =
    let same : (put_mount t j r i).next ≡ (t i).next = elim (Bool-cases (i == j)) [
      | inl here ↦
          let i_j : i ≡ j = ground (arith, here) in rw here (e ∙ ap (λ x. (t x).next) (sym i_j))
      | inr other ↦ rw other refl
    ] in
    (
      h,
      nz,
      subst (λ x. Linked (put_mount t j r) x is q) (sym same)
          (Linked-kept t j r (t i).next is q e l),
    )

pub Linked-append :
    (t : ℕ → Mount) (p : ℕ) (xs ys : List ℕ) (q r : ℕ)
    → Linked t p xs q
    → Linked t q ys r
    → Linked t p (xs ++ ys) r
Linked-append t p [] ys q r e l = subst (λ x. Linked t x ys r) (sym e) l
Linked-append t p (x ∷ xs) ys q r (e, nz, k) l = (e, nz, Linked-append t (t x).next xs ys q r k l)

pub Linked-split :
    (t : ℕ → Mount) (p : ℕ) (xs ys : List ℕ) (r : ℕ)
    → Linked t p (xs ++ ys) r
    → (q : ℕ) × Linked t p xs q × Linked t q ys r
Linked-split t p [] ys r l = (p, refl, l)
Linked-split t p (x ∷ xs) ys r (e, nz, l) =
    let s = Linked-split t (t x).next xs ys r l in (s.0, (e, nz, s.1), s.2)

abbrev pub redirect : (ℕ → Mount) → ℕ → ℕ → ℕ → Mount
redirect t e q = put_mount t e (record (t e) { next = q })

-- The last one is not among those after it.
pub last-NotIn : (i : ℕ) (is ys : List ℕ) → Distinct ((i ∷ is) ++ ys) → NotIn (last i is) ys
last-NotIn i [] ys d = d.0
last-NotIn i (j ∷ is) ys d = last-NotIn j is ys d.1

pub last-ne : (i j : ℕ) (is : List ℕ) → NotIn i (j ∷ is) → i ≢ last j is
last-ne i j [] (ne, out) = ne
last-ne i j (k ∷ is) (ne, out) = last-ne i k is out

-- The last one gets another one behind it.
pub Linked-end :
    (t : ℕ → Mount) (p i : ℕ) (is : List ℕ) (q q' : ℕ)
    → Distinct (i ∷ is)
    → Linked t p (i ∷ is) q
    → Linked (redirect t (last i is) q') p (i ∷ is) q'
Linked-end t p i [] q q' d (e, nz, l) = (e, nz, rw (eq_self i) refl)
Linked-end t p i (j ∷ is) q q' (out, d) (e, nz, l) =
    let same : redirect t (last j is) q' i ≡ t i =
      rw (eq_false i (last j is) (last-ne i j is out)) refl in
    (
      e,
      nz,
      subst (λ r. Linked (redirect t (last j is) q') r.next (j ∷ is) q') (sym same)
          (Linked-end t (t i).next j is q q' d l),
    )

pub Distinct-left : (xs ys : List ℕ) → Distinct (xs ++ ys) → Distinct xs
Distinct-left [] ys d = tt
Distinct-left (x ∷ xs) ys (out, d) = (NotIn-append_l x xs ys out, Distinct-left xs ys d)

pub last-snoc : (p : ℕ) (is : List ℕ) (v : ℕ) → last p (is ++ v ∷ []) ≡ v
last-snoc p [] v = refl
last-snoc p (i ∷ is) v = last-snoc i is v

pub last-nonzero :
    (t : ℕ → Mount) (p i : ℕ) (is : List ℕ) (q : ℕ) → Linked t p (i ∷ is) q → last i is ≢ 0
last-nonzero t p i [] q (e, nz, l) = nz
last-nonzero t p i (j ∷ is) q (e, nz, l) = last-nonzero t (t i).next j is q l

pub last-append : (p : ℕ) (xs : List ℕ) (y : ℕ) (ys : List ℕ) → last p (xs ++ y ∷ ys) ≡ last y ys
last-append p [] y ys = refl
last-append p (x ∷ xs) y ys = last-append x xs y ys
