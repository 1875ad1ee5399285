-- ===== src/Bcache/Bypass.antt =====
-- A buffer is taken out of the list.
use garn_os.Prelude.{
  ℕ, ◌≡◌, ◌≢◌, refl, sym, ap, ◌∙◌, Option, none, some, List, [], ◌∷◌, ◌++◌, eq_self, eq_false,
}
use garn_os.Bcache.{Buf, put, set_next}
use garn_os.Prelude.Distinct.{NotIn, Distinct, NotIn-append_l, NotIn-append_r}
use garn_os.Bcache.Chain.{last, Linked, Linked-put}

-- The buffer `i` is passed over, in both directions.
abbrev pub bypass : (ℕ → Buf) → Option ℕ → ℕ → ℕ → Buf
bypass b p y = set_next (put b y (record (b y) { prev = p })) p (some y)

Linked-bypass_after :
    (b : ℕ → Buf) (p : Option ℕ) (x : ℕ) (xs : List ℕ) (i y : ℕ) (ys : List ℕ) (q : Option ℕ)
    → Linked b p ((x ∷ xs) ++ i ∷ y ∷ ys) q
    → Distinct ((x ∷ xs) ++ i ∷ y ∷ ys)
    → Linked (bypass b (last (some x) xs) y) p ((x ∷ xs) ++ y ∷ ys) q
      × ((j : ℕ) → NotIn j (x ∷ xs) → j ≢ y → bypass b (last (some x) xs) y j ≡ b j)
Linked-bypass_after b p x [] i y ys q (at_prev, (at_next, l)) (out, d) =
    let (at_prev_y, (at_next_y, rest)) = l.1.1 in
    let x_y = eq_false x y out.1.0 in
    let y_x = eq_false y x (λ e. out.1.0 (sym e)) in
    (
      (
        rw (eq_self x, x_y) at_prev,
        (
          rw (eq_self x) refl,
          (
            rw (y_x, eq_self y) refl,
            (
              rw (y_x, eq_self y) at_next_y,
              Linked-put _ x _ (some y) ys q out.1.1 (Linked-put b y _ (some y) ys q d.1.0 rest),
            ),
          ),
        ),
      ),
      λ j h ne. rw (eq_false j x h.0, eq_false j y ne) refl,
    )
Linked-bypass_after b p x (x' ∷ xs) i y ys q (at_prev, (at_next, l)) (out, d) =
    let (l', kept) = Linked-bypass_after b (some x) x' xs i y ys q l d in
    let far = NotIn-append_r x (x' ∷ xs) (i ∷ y ∷ ys) out in
    let same = kept x (NotIn-append_l x (x' ∷ xs) (i ∷ y ∷ ys) out) far.1.0 in
    (
      (ap (λ r. r.prev) same ∙ at_prev, (ap (λ r. r.next) same ∙ at_next, l')),
      λ j h ne. kept j h.1 ne,
    )

pub Linked-bypass :
    (b : ℕ → Buf) (xs : List ℕ) (i y : ℕ) (ys : List ℕ) (q : Option ℕ)
    → Linked b none (xs ++ i ∷ y ∷ ys) q
    → Distinct (xs ++ i ∷ y ∷ ys)
    → Linked (bypass b (last none xs) y) none (xs ++ y ∷ ys) q
Linked-bypass b [] i y ys q l d =
    let (at_prev_y, (at_next_y, rest)) = l.1.1 in
    (rw (eq_self y) refl, (rw (eq_self y) at_next_y, Linked-put b y _ (some y) ys q d.1.0 rest))
Linked-bypass b (x ∷ xs) i y ys q l d = (Linked-bypass_after b none x xs i y ys q l d).0
