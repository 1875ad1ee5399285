-- ===== src/LinkedList/Remove.antt =====
-- `list_remove` and `list_remove_index` take one cell out.
use garn_os.Prelude.{
  ℕ, zero, suc, ◌+◌, ◌<◌, ◌≤◌, ◌^◌, ◌≡◌, ◌≢◌, inl, inr, refl, sym, ap, subst, ◌∙◌, arith, Bool,
  true, false, none, some, [], ◌∷◌, length, ◌==◌, if◌then◌else◌, Bool-cases,
}
use garn_os.Prelude.Exec.{Exec, done}
use garn_os.LinkedList.{Memory, Store, dec, put, unlink, remove_loop}
use garn_os.LinkedList.Chain.{Cells, NotIn, Distinct, Chain, last_address, IsList, Chain-put}

-- The cells without the first that the test accepts.
abbrev pub erase : (ℕ → ℕ → Bool) → ℕ → Cells → Cells
erase hit i [] = []
erase hit i ((a, w) ∷ cs) = if hit i w then cs else (a, w) ∷ erase hit (i + 1) cs

abbrev pub accepts : (ℕ → ℕ → Bool) → ℕ → Cells → Bool
accepts hit i [] = false
accepts hit i ((a, w) ∷ cs) = if hit i w then true else accepts hit (i + 1) cs

NotIn-erase : (hit : ℕ → ℕ → Bool) (i x : ℕ) (cs : Cells) → NotIn x cs → NotIn x (erase hit i cs)
NotIn-erase hit i x [] h = tt
NotIn-erase hit i x ((a, w) ∷ cs) (ne, out) = elim (Bool-cases (hit i w)) [
  | inl yes_hit ↦ rw yes_hit out
  | inr miss ↦ rw miss (ne, NotIn-erase hit (i + 1) x cs out)
]

Distinct-erase : (hit : ℕ → ℕ → Bool) (i : ℕ) (cs : Cells) → Distinct cs → Distinct (erase hit i cs)
Distinct-erase hit i [] h = tt
Distinct-erase hit i ((a, w) ∷ cs) (out, rest) = elim (Bool-cases (hit i w)) [
  | inl yes_hit ↦ rw yes_hit rest
  | inr miss ↦ rw miss (NotIn-erase hit (i + 1) a cs out, Distinct-erase hit (i + 1) cs rest)
]

-- What a call leaves of the list from the cell `c` on, when the cells behind it become `cs'`.
pub record Rest (l : Store) (c : ℕ × ℕ) (cs cs' : Cells) (l' : Store) : Type 0 where
  pub chain : Chain l'.node c.0 (c ∷ cs')
  pub same : (x : ℕ) → NotIn x (c ∷ cs) → l'.node x ≡ l.node x
  pub head : l'.head ≡ l.head
  pub tail : l'.tail ≡ last_address c.0 cs'
  pub count : l'.node_count + length cs ≡ l.node_count + length cs'

-- Memory after the cell at `a`, behind the one at `prev`, is unlinked.
abbrev unlinked : Memory → ℕ → ℕ → ℕ → ℕ → Memory
unlinked m prev v a q = put (put m prev (some (record { next = q; value = v }))) a none

abbrev unlinked_store : Store → ℕ → ℕ → ℕ → ℕ → Store
unlinked_store l prev v a q = record {
  node = unlinked l.node prev v a q;
  head = if l.head == a then q else l.head;
  tail = if l.tail == a then prev else l.tail;
  node_count = dec l.node_count;
}

unlink-done :
    (l : Store) (prev v a w q : ℕ)
    → prev ≢ 0
    → prev ≢ a
    → l.node prev ≡ some (record { next = a; value = v })
    → l.node a ≡ some (record { next = q; value = w })
    → unlink l prev a q ≡ done (unlinked_store l prev v a q)
unfolding unlink
unlink-done l prev v a w q nz ne at_prev at_a =
    let one : (prev == 0) ≡ false = ground arith in
    let two : (a == prev) ≡ false = ground arith in rw (one, at_prev) (rw two (rw at_a refl))

-- The tail, when the cell at `a` in front of `cs` goes and `prev` is before it.
tail_without :
    (t a prev : ℕ) (cs : Cells)
    → NotIn a cs
    → t ≡ last_address a cs
    → (if t == a then prev else t) ≡ last_address prev cs
tail_without t a prev [] out h = ground arith
tail_without t a prev ((b, w) ∷ cs) (ne, out) h =
    let apart = last-ne a b cs ne out in let other : (t == a) ≡ false = ground arith in rw other h
  where
    last-ne : (a b : ℕ) (cs : Cells) → a ≢ b → NotIn a cs → a ≢ last_address b cs
    last-ne a b [] ne out = ne
    last-ne a b ((c, w) ∷ cs) ne (ne', out) = last-ne a c cs ne' out

pub unlinked_at : (m : Memory) (prev v a q x : ℕ) → x ≢ prev → x ≢ a → unlinked m prev v a q x ≡ m x
unlinked_at m prev v a q x ne ne' = ground arith

unlinked-Rest :
    (l : Store) (prev v a w q : ℕ) (cs : Cells)
    → prev ≢ 0
    → prev ≢ a
    → NotIn prev cs
    → NotIn a cs
    → l.head ≢ a
    → Chain l.node q cs
    → l.tail ≡ last_address a cs
    → suc (length cs) ≤ l.node_count
    → l.node_count < 2 ^ 64
    → Rest l (prev, v) ((a, w) ∷ cs) cs (unlinked_store l prev v a q)
unlinked-Rest l prev v a w q cs nz ne out a_out front rest tl many few = record {
  chain =
      let one : (prev == a) ≡ false = ground arith in
      let two : (prev == prev) ≡ true = ground arith in
      (
        refl,
        nz,
        (
          q,
          rw (one, two) refl,
          Chain-put _ a none q cs a_out (Chain-put l.node prev _ q cs out rest),
        ),
      );
  same = λ x o. unlinked_at l.node prev v a q x o.0 o.1.0;
  head = let other : (l.head == a) ≡ false = ground arith in rw other refl;
  tail = tail_without l.tail a prev cs a_out tl;
  count = omega arith;
}

-- The cell at `a` stays.
Rest-cons :
    (l : Store) (prev v a w : ℕ) (cs cs' : Cells) (l' : Store)
    → prev ≢ 0
    → prev ≢ a
    → NotIn prev cs
    → l.node prev ≡ some (record { next = a; value = v })
    → Rest l (a, w) cs cs' l'
    → Rest l (prev, v) ((a, w) ∷ cs) ((a, w) ∷ cs') l'
Rest-cons l prev v a w cs cs' l' nz ne out at_prev r = record {
  chain = (refl, nz, (a, r.same prev (ne, out) ∙ at_prev, r.chain));
  same = λ x o. r.same x o.1;
  head = r.head;
  tail = r.tail;
  count = let n = r.count in omega arith;
}

Result : Store → ℕ × ℕ → Cells → (ℕ → ℕ → Bool) → ℕ → Exec (Bool × Store) → Type 0
Result l c cs hit i r =
    (l' : Store) × (r ≡ done (accepts hit i cs, l')) × Rest l c cs (erase hit i cs) l'

remove_loop-Rest :
    (hit : ℕ → ℕ → Bool) (fuel : ℕ) (l : Store) (prev v p i : ℕ) (cs : Cells)
    → length cs < fuel
    → prev ≢ 0
    → l.node prev ≡ some (record { next = p; value = v })
    → Chain l.node p cs
    → NotIn prev cs
    → Distinct cs
    → NotIn l.head cs
    → l.tail ≡ last_address prev cs
    → length cs ≤ l.node_count
    → l.node_count < 2 ^ 64
    → Result l (prev, v) cs hit i (remove_loop hit fuel l prev p i)
unfolding remove_loop Result
remove_loop-Rest hit zero l prev v p i cs f nz at_prev ch out dis front tl many few =
    absurd (omega arith)
remove_loop-Rest hit (suc fuel) l prev v p i [] f nz at_prev ch out dis front tl many few =
    let e : (p == 0) ≡ true = ground arith in
    (
      l,
      rw e refl,
      record {
        chain = (refl, nz, (p, at_prev, ch));
        same = λ x o. refl;
        head = refl;
        tail = tl;
        count = refl;
      },
    )
remove_loop-Rest hit (suc fuel) l prev v p i ((a, w) ∷ cs) f nz at_prev (pa, az, (q, at_a, rest))
      (ne, out) (a_out, dis) (front, front_out) tl many few =
    let stop : (p == 0) ≡ false = ground arith in
    let at_prev' : l.node prev ≡ some (record { next = a; value = v }) =
      at_prev ∙ ap (λ x. some (record { next = x; value = v })) pa in
    elim (Bool-cases (hit i w)) [
      | inl yes_hit ↦
          let e = unlink-done l prev v a w q nz ne at_prev' at_a in
          (
            unlinked_store l prev v a q,
            rw (stop, pa, at_a, yes_hit) (rw e refl),
            rw yes_hit (unlinked-Rest l prev v a w q cs nz ne out a_out front rest tl many few),
          )
      | inr miss ↦
          let (l', e, r) =
            remove_loop-Rest hit fuel l a w q (i + 1) cs (omega arith) az at_a rest a_out dis
              front_out tl (omega arith) few in
          (
            l',
            rw (stop, pa, at_a, miss) e,
            rw miss (Rest-cons l prev v a w cs (erase hit (i + 1) cs) l' nz ne out at_prev' r),
          )
    ]

-- The first cell goes.
unlinked_front : Store → ℕ → ℕ → Store
unlinked_front l a q = record {
  node = put l.node a none;
  head = if l.head == a then q else l.head;
  tail = if l.tail == a then 0 else l.tail;
  node_count = dec l.node_count;
}

unlinked_front-IsList :
    (l : Store) (a w q : ℕ) (cs : Cells)
    → IsList l ((a, w) ∷ cs)
    → l.node a ≡ some (record { next = q; value = w })
    → Chain l.node q cs
    → IsList (unlinked_front l a q) cs
unfolding unlinked_front
unlinked_front-IsList l a w q cs h at_a rest =
    let here : (l.head == a) ≡ true = let e = h.chain.0 in ground arith in
    let few = h.few in
    let n = h.count in
    record {
      chain = rw here (Chain-put l.node a none q cs h.distinct.0 rest);
      distinct = h.distinct.1;
      tail = tail_without l.tail a 0 cs h.distinct.0 h.tail;
      few = omega arith;
      count = omega arith;
    }

unlink-front :
    (l : Store) (p q w : ℕ)
    → l.node p ≡ some (record { next = q; value = w })
    → unlink l 0 p q ≡ done (unlinked_front l p q)
unfolding unlink unlinked_front
unlink-front l p q w at_p = rw at_p refl

length-erase : (hit : ℕ → ℕ → Bool) (i : ℕ) (cs : Cells) → length (erase hit i cs) ≤ length cs
length-erase hit i [] = omega arith
length-erase hit i ((a, w) ∷ cs) = ground (arith, length-erase hit (i + 1) cs)

Rest-IsList :
    (l : Store) (a w : ℕ) (cs cs' : Cells) (l' : Store)
    → IsList l ((a, w) ∷ cs)
    → Rest l (a, w) cs cs' l'
    → NotIn a cs'
    → Distinct cs'
    → length cs' ≤ length cs
    → IsList l' ((a, w) ∷ cs')
Rest-IsList l a w cs cs' l' h r out dis short =
    let few = h.few in
    let n = h.count in
    let n' = r.count in
    let e : l'.head ≡ a = r.head ∙ h.chain.0 in
    record {
      chain = (e, r.chain.1, r.chain.2);
      distinct = (out, dis);
      tail = r.tail;
      few = omega arith;
      count = omega arith;
    }

-- Both functions return whether a cell was accepted, and then take the first such cell out of the
-- list.
pub remove_loop-IsList :
    (hit : ℕ → ℕ → Bool) (fuel : ℕ) (l : Store) (cs : Cells)
    → IsList l cs
    → length cs < fuel
    → (l' : Store) × (remove_loop hit fuel l 0 l.head 0 ≡ done (accepts hit 0 cs, l'))
      × IsList l' (erase hit 0 cs)
unfolding remove_loop Result unlinked_front
remove_loop-IsList hit zero l cs h f = absurd (omega arith)
remove_loop-IsList hit (suc fuel) l [] h f =
    let stop : (l.head == 0) ≡ true = let e = h.chain in ground arith in (l, rw stop refl, h)
remove_loop-IsList hit (suc fuel) l ((a, w) ∷ cs) h f =
    let (at_head, az, (q, at_a, rest)) = h.chain in
    let stop : (l.head == 0) ≡ false = ground arith in
    let at_head' : l.node l.head ≡ some (record { next = q; value = w }) =
      ap l.node at_head ∙ at_a in
    let few = h.few in
    let n = h.count in
    elim (Bool-cases (hit 0 w)) [
      | inl yes_hit ↦ (
        unlinked_front l l.head q,
        rw (stop, at_head', yes_hit) (rw (unlink-front l l.head q w at_head') refl),
        rw yes_hit (
            subst (λ x. IsList (unlinked_front l x q) cs) (sym at_head)
              (unlinked_front-IsList l a w q cs h at_a rest)),
      )
      | inr miss ↦
          let (l', e, r) =
            remove_loop-Rest hit fuel l a w q 1 cs (omega arith) az at_a rest h.distinct.0
              h.distinct.1 (subst (λ x. NotIn x cs) (sym at_head) h.distinct.0) h.tail (omega arith)
              (omega arith) in
          (
            l',
            rw (stop, at_head', miss)
                (subst (λ x. remove_loop hit fuel l x q 1 ≡ done (accepts hit 1 cs, l'))
                  (sym at_head) e),
            rw miss (
                Rest-IsList l a w cs (erase hit 1 cs) l' h r (NotIn-erase hit 1 a cs h.distinct.0)
                  (Distinct-erase hit 1 cs h.distinct.1) (length-erase hit 1 cs)),
          )
    ]
