-- ===== src/Processes/Chain.antt =====
-- The list of processes in memory, as entries: an address and a process each, whose `next` is where
-- the following entry says.
use garn_os.Prelude.{
  eq_self, eq_false, ℕ, zero, suc, ◌<◌, ◌≡◌, ◌≢◌, inl, inr, refl, sym, ◌∙◌, arith, some, List, [],
  ◌∷◌, ◌++◌, ◌==◌, if◌then◌else◌, length, Bool-cases, Option, map,
}
use garn_os.Prelude.Exec.{done}
use garn_os.Processes.{Process, Memory, replace, reparent}

abbrev pub Entries : Type 0
Entries = List (ℕ × Process)

abbrev pub first : Entries → ℕ
first [] = 0
first ((a, r) ∷ ps) = a

abbrev pub last : ℕ → Entries → ℕ
last p [] = p
last p ((a, r) ∷ ps) = last a ps

abbrev pub NotIn : ℕ → Entries → Type 0
NotIn p [] = Unit
NotIn p ((a, r) ∷ ps) = (p ≢ a) × NotIn p ps

abbrev pub Distinct : Entries → Type 0
Distinct [] = Unit
Distinct ((a, r) ∷ ps) = NotIn a ps × Distinct ps

abbrev pub Linked : Memory → Entries → Type 0
Linked m [] = Unit
Linked m ((a, r) ∷ ps) = (a ≢ 0) × ((m a ≡ some (record r { next = first ps })) × Linked m ps)

pub Linked-replace :
    (m : Memory) (p : ℕ) (o : Option Process) (ps : Entries)
    → NotIn p ps
    → Linked m ps
    → Linked (replace m p o) ps
Linked-replace m p o [] out l = tt
Linked-replace m p o ((a, r) ∷ ps) (ne, out) (nz, (at, l)) =
    let other = eq_false a p (λ e. ne (sym e)) in (nz, (rw other at, Linked-replace m p o ps out l))

pub NotIn-append_l : (p : ℕ) (xs ys : Entries) → NotIn p (xs ++ ys) → NotIn p xs
NotIn-append_l p [] ys h = tt
NotIn-append_l p (x ∷ xs) ys (h, t) = (h, NotIn-append_l p xs ys t)

pub NotIn-append_r : (p : ℕ) (xs ys : Entries) → NotIn p (xs ++ ys) → NotIn p ys
NotIn-append_r p [] ys h = h
NotIn-append_r p (x ∷ xs) ys (h, t) = NotIn-append_r p xs ys t

pub NotIn-append : (p : ℕ) (xs ys : Entries) → NotIn p xs → NotIn p ys → NotIn p (xs ++ ys)
NotIn-append p [] ys h k = k
NotIn-append p (x ∷ xs) ys (h, t) k = (h, NotIn-append p xs ys t k)

-- What is left when the entry at `a` goes.
pub Distinct-without :
    (xs : Entries) (a : ℕ) (r : Process) (ys : Entries)
    → Distinct (xs ++ (a, r) ∷ ys)
    → NotIn a (xs ++ ys) × Distinct (xs ++ ys)
Distinct-without [] a r ys (out, d) = (out, d)
Distinct-without ((x, w) ∷ xs) a r ys (out, d) =
    let (o, d') = Distinct-without xs a r ys d in
    let ne = (NotIn-append_r x xs ((a, r) ∷ ys) out).0 in
    (
      ((λ e. ne (sym e)), o),
      (
        NotIn-append x xs ys (NotIn-append_l x xs ((a, r) ∷ ys) out)
            (NotIn-append_r x xs ((a, r) ∷ ys) out).1,
        d',
      ),
    )

pub Linked-append_r : (m : Memory) (xs ys : Entries) → Linked m (xs ++ ys) → Linked m ys
Linked-append_r m [] ys l = l
Linked-append_r m (x ∷ xs) ys (nz, (at, l)) = Linked-append_r m xs ys l

-- The entry with `init` for the parent `p`.
abbrev pub adopt : ℕ → ℕ → ℕ × Process → ℕ × Process
adopt p init (a, r) = (a, if r.parent == p then record r { parent = init } else r)

pub first-adopt : (p init : ℕ) (ps : Entries) → first (map (adopt p init) ps) ≡ first ps
first-adopt p init [] = refl
first-adopt p init (x ∷ ps) = refl

pub last-adopt : (p init d : ℕ) (ps : Entries) → last d (map (adopt p init) ps) ≡ last d ps
last-adopt p init d [] = refl
last-adopt p init d ((a, r) ∷ ps) = last-adopt p init a ps

pub NotIn-adopt : (p init x : ℕ) (ps : Entries) → NotIn x ps → NotIn x (map (adopt p init) ps)
NotIn-adopt p init x [] h = tt
NotIn-adopt p init x ((a, r) ∷ ps) (h, t) = (h, NotIn-adopt p init x ps t)

pub Distinct-adopt : (p init : ℕ) (ps : Entries) → Distinct ps → Distinct (map (adopt p init) ps)
Distinct-adopt p init [] d = tt
Distinct-adopt p init ((a, r) ∷ ps) (out, d) =
    (NotIn-adopt p init a ps out, Distinct-adopt p init ps d)

-- The loop over the children gives each the new parent, and changes nothing else.
pub reparent-Linked :
    (fuel : ℕ) (m : Memory) (p init : ℕ) (ps : Entries)
    → length ps < fuel
    → Linked m ps
    → Distinct ps
    → (m' : Memory) × (reparent fuel m p init (first ps) ≡ done m')
      × (Linked m' (map (adopt p init) ps) × ((x : ℕ) → NotIn x ps → m' x ≡ m x))
unfolding reparent
reparent-Linked zero m p init ps f l d = absurd (omega arith)
reparent-Linked (suc fuel) m p init [] f l d = (m, refl, (tt, λ x h. refl))
reparent-Linked (suc fuel) m p init ((a, r) ∷ ps) f (nz, (at, l)) (out, d) =
    let stop = eq_false a 0 nz in
    elim (Bool-cases (r.parent == p)) [
      | inl child ↦
          let m1 = replace m a (some (record r { next = first ps; parent = init })) in
          let (m', run, (l', kept)) =
            reparent-Linked fuel m1 p init ps (omega arith) (Linked-replace m a _ ps out l) d in
          let here = eq_self a in
          (
            m',
            rw stop (rw at (rw child run)),
            (
              rw child (nz, (rw (first-adopt p init ps) (kept a out ∙ rw here refl), l')),
              λ x h. kept x h.1 ∙ let other = eq_false x a h.0 in rw other refl,
            ),
          )
      | inr stranger ↦
          let (m', run, (l', kept)) = reparent-Linked fuel m p init ps (omega arith) l d in
          (
            m',
            rw stop (rw at (rw stranger run)),
            (
              rw stranger (nz, (rw (first-adopt p init ps) (kept a out ∙ at), l')),
              λ x h. kept x h.1,
            ),
          )
    ]
