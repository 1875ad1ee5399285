-- ===== src/Prelude/Distinct.antt =====
-- Lists of indices or addresses that are all distinct.
use garn_os.Prelude.{ℕ, ◌≢◌, sym, List, [], ◌∷◌, ◌++◌}

abbrev pub NotIn : ℕ → List ℕ → Type 0
NotIn j [] = Unit
NotIn j (i ∷ is) = (j ≢ i) × NotIn j is

abbrev pub Distinct : List ℕ → Type 0
Distinct [] = Unit
Distinct (i ∷ is) = NotIn i is × Distinct is

pub NotIn-append_l : (j : ℕ) (xs ys : List ℕ) → NotIn j (xs ++ ys) → NotIn j xs
NotIn-append_l j [] ys h = tt
NotIn-append_l j (x ∷ xs) ys (h, t) = (h, NotIn-append_l j xs ys t)

pub NotIn-append_r : (j : ℕ) (xs ys : List ℕ) → NotIn j (xs ++ ys) → NotIn j ys
NotIn-append_r j [] ys h = h
NotIn-append_r j (x ∷ xs) ys (h, t) = NotIn-append_r j xs ys t

pub NotIn-append : (j : ℕ) (xs ys : List ℕ) → NotIn j xs → NotIn j ys → NotIn j (xs ++ ys)
NotIn-append j [] ys h k = k
NotIn-append j (x ∷ xs) ys (h, t) k = (h, NotIn-append j xs ys t k)

-- What is left when one index goes.
pub Distinct-without :
    (xs : List ℕ) (i : ℕ) (ys : List ℕ)
    → Distinct (xs ++ i ∷ ys)
    → NotIn i (xs ++ ys) × Distinct (xs ++ ys)
Distinct-without [] i ys (out, d) = (out, d)
Distinct-without (x ∷ xs) i ys (out, d) =
    let (o, d') = Distinct-without xs i ys d in
    let r = NotIn-append_r x xs (i ∷ ys) out in
    (((λ e. r.0 (sym e)), o), (NotIn-append x xs ys (NotIn-append_l x xs (i ∷ ys) out) r.1, d'))

pub Distinct-snoc : (xs : List ℕ) (i : ℕ) → NotIn i xs → Distinct xs → Distinct (xs ++ i ∷ [])
Distinct-snoc [] i out d = (tt, tt)
Distinct-snoc (x ∷ xs) i (ne, out) (o, d) =
    (NotIn-append x xs (i ∷ []) o ((λ e. ne (sym e)), tt), Distinct-snoc xs i out d)
