-- ===== src/Sched/Turns.antt =====
-- Every ready thread has its turn.
use garn_os.Prelude.{
  ℕ, zero, suc, ◌+◌, ◌*◌, ◌≤◌, ◌≡◌, refl, sym, ap, subst, ◌∙◌, arith, false, [], ◌∷◌, ◌++◌, length,
  length-append, ◌==◌,
}
use garn_os.Prelude.Exec.{Exec, done, fault, spent, ◌>>=◌}
use garn_os.LinkedList.Chain.{Cells, Chain}
use garn_os.Sched.{Sched, sched_preempt}
use garn_os.Sched.Rounds.{At, switched, switched-At, sched_get_next_thread-switched}

-- `k` preemptions.
unfoldable pub preempt : ℕ → ℕ → ℕ → Sched → Exec Sched
preempt list_fuel fuel zero s = done s
preempt list_fuel fuel (suc k) s =
    sched_preempt list_fuel fuel s >>= λ s'. preempt list_fuel fuel k s'

head_nonzero :
    (s : Sched) (all : Cells)
    → 2 ≤ length all
    → Chain s.thread_list.node s.thread_list.head all
    → (s.thread_list.head == 0) ≡ false
head_nonzero s [] h ch = absurd (omega arith)
head_nonzero s ((a, w) ∷ cs) h (e, nz, rest) = ground arith

module _ (list_fuel fuel : ℕ) where
  preempt-add :
      (j k : ℕ) (s : Sched)
      → preempt list_fuel (suc fuel) (j + k) s
        ≡ (preempt list_fuel (suc fuel) j s >>= preempt list_fuel (suc fuel) k)
  unfolding preempt
  preempt-add zero k s =
      let e : 0 + k ≡ k = omega arith in ap (λ n. preempt list_fuel (suc fuel) n s) e
  preempt-add (suc j) k s =
      let e : suc j + k ≡ suc (j + k) = omega arith in
      ap (λ n. preempt list_fuel (suc fuel) n s) e
      ∙ after (λ s'. preempt-add j k s') (sched_preempt list_fuel (suc fuel) s)
    where
      after :
          ((s' : Sched)
            → preempt list_fuel (suc fuel) (j + k) s'
              ≡ (preempt list_fuel (suc fuel) j s' >>= preempt list_fuel (suc fuel) k))
          → (r : Exec Sched)
          → (r >>= preempt list_fuel (suc fuel) (j + k))
            ≡ ((r >>= preempt list_fuel (suc fuel) j) >>= preempt list_fuel (suc fuel) k)
      after ih (done s') = ih s'
      after ih fault = refl
      after ih spent = refl

  sched_preempt-switched :
      (s : Sched) (all before after : Cells) (a t : ℕ)
      → At s all before ((a, t) ∷ after)
      → sched_preempt list_fuel (suc fuel) s ≡ done (switched s t after)
  unfolding sched_preempt
  sched_preempt-switched s all before after a t h =
      let some_thread : (s.thread_list.head == 0) ≡ false =
        head_nonzero s all h.several h.list.chain in
      rw some_thread (sched_get_next_thread-switched list_fuel fuel s all before after a t h)

  -- The end of the round.
  round_ends :
      (after : Cells) (s : Sched) (all before : Cells) (c : ℕ × ℕ)
      → At s all before (c ∷ after)
      → (s' : Sched) × (preempt list_fuel (suc fuel) (suc (length after)) s ≡ done s')
        × At s' all [] all
  unfolding preempt
  round_ends [] s all before (a, t) h = (
    switched s t [],
    rw (sched_preempt-switched s all before [] a t h) refl,
    switched-At s all before [] a t h,
  )
  round_ends (c ∷ after) s all before (a, t) h =
      let (s', e, at) =
        round_ends after (switched s t (c ∷ after)) all (before ++ (a, t) ∷ []) c
          (switched-At s all before (c ∷ after) a t h) in
      (s', rw (sched_preempt-switched s all before (c ∷ after) a t h) e, at)

  -- A thread that is still to come in this round.
  reached :
      (xs : Cells) (s : Sched) (all before ys : Cells) (a t : ℕ)
      → At s all before (xs ++ (a, t) ∷ ys)
      → (s' : Sched) × (preempt list_fuel (suc fuel) (suc (length xs)) s ≡ done s')
        × (s'.current_thread ≡ t)
  unfolding preempt switched
  reached [] s all before ys a t h =
      (switched s t ys, rw (sched_preempt-switched s all before ys a t h) refl, refl)
  reached ((b, u) ∷ []) s all before ys a t h =
      let (s', e, now) =
        reached [] (switched s u ((a, t) ∷ ys)) all (before ++ (b, u) ∷ []) ys a t
          (switched-At s all before ((a, t) ∷ ys) b u h) in
      (s', rw (sched_preempt-switched s all before ((a, t) ∷ ys) b u h) e, now)
  reached ((b, u) ∷ x ∷ xs) s all before ys a t h =
      let (s', e, now) =
        reached (x ∷ xs) (switched s u (x ∷ xs ++ (a, t) ∷ ys)) all (before ++ (b, u) ∷ []) ys a t
          (switched-At s all before (x ∷ xs ++ (a, t) ∷ ys) b u h) in
      (s', rw (sched_preempt-switched s all before (x ∷ xs ++ (a, t) ∷ ys) b u h) e, now)

-- Among ready threads nobody waits for more than two rounds: within twice as many preemptions as
-- there are threads, from any point of a round, a given thread of the list is the current one.
pub sched_preempt-turn :
    (list_fuel fuel : ℕ) (s : Sched) (all before after : Cells) (c : ℕ × ℕ)
    → At s all before (c ∷ after)
    → (xs ys : Cells) (a t : ℕ) → xs ++ (a, t) ∷ ys ≡ all
    → (k : ℕ) × (s' : Sched) × (k ≤ 2 * length all)
      × (preempt list_fuel (suc fuel) k s ≡ done s')
      × (s'.current_thread ≡ t)
sched_preempt-turn list_fuel fuel s all before after c h xs ys a t here =
    let (s1, e1, at1) = round_ends list_fuel fuel after s all before c h in
    let (s2, e2, now) =
      reached list_fuel fuel xs s1 all [] ys a t (subst (At s1 all []) (sym here) at1) in
    let n1 = length-append before (c ∷ after) in
    let n2 = length-append xs ((a, t) ∷ ys) in
    let n3 : length (before ++ c ∷ after) ≡ length all = ap length h.split in
    let n4 : length (xs ++ (a, t) ∷ ys) ≡ length all = ap length here in
    (
      suc (length after) + suc (length xs),
      s2,
      omega arith,
      preempt-add list_fuel fuel (suc (length after)) (suc (length xs)) s ∙ rw e1 e2,
      now,
    )
