-- ===== src/Processes/Wait.antt =====
-- `sys_waitpid` and `process_free`.
use garn_os.Prelude.{
  eq_self, eq_false, ℕ, zero, suc, ◌-◌, ◌^◌, ◌<◌, ◌≡◌, ◌≢◌, refl, sym, ap, ◌∙◌, arith, Bool, true,
  false, not, ◌&&◌, ◌||◌, none, some, [], ◌∷◌, ◌++◌, ltb, ◌==◌, if◌then◌else◌, length, map,
  length-append,
}
use garn_os.Prelude.Exec.{Exec, done, ◌>>=◌}
use garn_os.Vaspace.{ret}
use garn_os.Processes.{
  Process, System, Memory, replace, fetch, drop_files, free_found, free_loop, process_free, awaited,
  find_child, wait_loop, sys_waitpid,
}
use garn_os.Processes.Chain.{
  Entries, first, last, NotIn, Distinct, Linked, Linked-replace, NotIn-append_l, NotIn-append_r,
  Distinct-without, Linked-append_r, adopt, first-adopt, last-adopt, NotIn-adopt, Distinct-adopt,
  reparent-Linked,
}

-- The system's processes are the entries.
pub record AreProcesses (s : System) (ps : Entries) : Type 0 where
  pub linked : Linked s.process ps
  pub distinct : Distinct ps
  pub list : s.process_list ≡ first ps
  pub end : s.process_list_last ≡ last 0 ps

abbrev pub NoneAwaited : ℕ → ℕ → Entries → Type 0
NoneAwaited pid current [] = Unit
NoneAwaited pid current ((a, r) ∷ ps) = (awaited pid current r ≡ false) × NoneAwaited pid current ps

find_child-first :
    (fuel pid current : ℕ) (m : Memory) (xs : Entries) (a : ℕ) (r : Process) (ys : Entries)
    → Linked m (xs ++ (a, r) ∷ ys)
    → NoneAwaited pid current xs
    → awaited pid current r ≡ true
    → length xs < fuel
    → find_child fuel m pid current (first (xs ++ (a, r) ∷ ys)) ≡ done (some a)
unfolding find_child
find_child-first zero pid current m xs a r ys l unready ok f = absurd (omega arith)
find_child-first (suc fuel) pid current m [] a r ys (nz, (at, l)) unready ok f =
    rw (eq_false a 0 nz) (rw at (rw ok refl))
find_child-first (suc fuel) pid current m ((x, w) ∷ xs) a r ys (nz, (at, l)) (unfit, unready) ok f =
    rw (eq_false x 0 nz)
      (rw at (rw unfit (find_child-first fuel pid current m xs a r ys l unready ok (omega arith))))

-- The loop of `process_free` meets the process, with the one before it.
free_loop-meets :
    (list_fuel fuel : ℕ) (s : System) (prev : ℕ) (xs : Entries) (a : ℕ) (r : Process) (ys : Entries)
    → Linked s.process (xs ++ (a, r) ∷ ys)
    → NotIn a xs
    → length xs < fuel
    → free_loop list_fuel fuel s a prev (first (xs ++ (a, r) ∷ ys))
      ≡ free_found list_fuel s (last prev xs) a (record r { next = first ys })
unfolding free_loop
free_loop-meets list_fuel zero s prev xs a r ys l out f = absurd (omega arith)
free_loop-meets list_fuel (suc fuel) s prev [] a r ys (nz, (at, l)) out f =
    let here = eq_self a in rw (eq_false a 0 nz) (rw at (rw here refl))
free_loop-meets list_fuel (suc fuel) s prev ((x, w) ∷ xs) a r ys (nz, (at, l)) (ne, out) f =
    rw (eq_false x 0 nz) (
      rw at (
        rw (eq_false x a (λ e. ne (sym e)))
          (free_loop-meets list_fuel fuel s x xs a r ys l out (omega arith))))

-- The write to the process before the one that goes.
bridge : Memory → ℕ → ℕ → Exec Memory
bridge m prev next =
    if prev == 0
    then done m
    else (fetch m prev >>= λ b. done (replace m prev (some (record b { next = next }))))

bridge-Linked :
    (m : Memory) (x : ℕ) (w : Process) (xs : Entries) (a : ℕ) (r : Process) (ys : Entries)
    → Linked m (((x, w) ∷ xs) ++ (a, r) ∷ ys)
    → Distinct (((x, w) ∷ xs) ++ (a, r) ∷ ys)
    → (m' : Memory) × (bridge m (last x xs) (first ys) ≡ done m')
      × (Linked m' (((x, w) ∷ xs) ++ ys) × ((y : ℕ) → NotIn y ((x, w) ∷ xs) → m' y ≡ m y))
unfolding bridge
bridge-Linked m x w [] a r ys (nz, (at, l)) (out, d) =
    let here = eq_self x in
    (
      replace m x (some (record w { next = first ys })),
      rw (eq_false x 0 nz) (rw at refl),
      (
        (nz, (rw here refl, Linked-replace m x _ ys out.1 l.1.1)),
        λ y h. let other = eq_false y x h.0 in rw other refl,
      ),
    )
bridge-Linked m x w ((x', w') ∷ xs) a r ys (nz, (at, l)) (out, d) =
    let (m', run, (l', kept)) = bridge-Linked m x' w' xs a r ys l d in
    (
      m',
      run,
      (
        (nz, (kept x (NotIn-append_l x ((x', w') ∷ xs) ((a, r) ∷ ys) out) ∙ at, l')),
        λ y h. kept y h.1,
      ),
    )

bridge-all :
    (m : Memory) (xs : Entries) (a : ℕ) (r : Process) (ys : Entries)
    → Linked m (xs ++ (a, r) ∷ ys)
    → Distinct (xs ++ (a, r) ∷ ys)
    → (m' : Memory) × (bridge m (last 0 xs) (first ys) ≡ done m') × Linked m' (xs ++ ys)
unfolding bridge
bridge-all m [] a r ys l d = (m, refl, l.1.1)
bridge-all m ((x, w) ∷ xs) a r ys l d =
    let (m', run, (l', kept)) = bridge-Linked m x w xs a r ys l d in (m', run, l')

-- The first and the last entry when the entry at `a` goes.
first-without :
    (p : ℕ) (xs : Entries) (a : ℕ) (r : Process) (ys : Entries)
    → NotIn a xs
    → p ≡ first (xs ++ (a, r) ∷ ys)
    → (if a == p then first ys else p) ≡ first (xs ++ ys)
first-without p [] a r ys out e = ground arith
first-without p ((x, w) ∷ xs) a r ys (ne, out) e =
    let other : (a == p) ≡ false = ground arith in rw other e

last-ne : (a x : ℕ) (ys : Entries) → a ≢ x → NotIn a ys → a ≢ last x ys
last-ne a x [] ne out = ne
last-ne a x ((y, w) ∷ ys) ne (ne', out) = last-ne a y ys ne' out

last-without :
    (e d : ℕ) (xs : Entries) (a : ℕ) (r : Process) (ys : Entries)
    → NotIn a ys
    → e ≡ last d (xs ++ (a, r) ∷ ys)
    → (if a == e then last d xs else e) ≡ last d (xs ++ ys)
last-without e d [] a r [] out h = ground arith
last-without e d [] a r ((y, w) ∷ ys) (ne, out) h =
    let other = last-ne a y ys ne out in let no : (a == e) ≡ false = ground arith in rw no h
last-without e d ((x, w) ∷ xs) a r ys out h = last-without e x xs a r ys out h

-- What is left when the process at `a` is freed: the others in their order, and its children belong
-- to `init`.
pub record Reaped (s : System) (xs : Entries) (a : ℕ) (r : Process) (ys : Entries) (s' : System)
    : Type 0 where
  pub processes : AreProcesses s' (map (adopt a s.init_proc) (xs ++ ys))
  pub gone : s'.process a ≡ none
  pub fs : s'.fs ≡ drop_files r.fd_max r.fd_table 0 s.fs
  pub threads : s'.sched ≡ s.sched

pub process_free-Reaped :
    (fuel : ℕ) (s : System) (xs : Entries) (a : ℕ) (r : Process) (ys : Entries)
    → AreProcesses s (xs ++ (a, r) ∷ ys)
    → length (xs ++ ys) < fuel
    → (s' : System) × (process_free fuel s a ≡ done s') × Reaped s xs a r ys s'
unfolding process_free free_found bridge
process_free-Reaped fuel s xs a r ys h f =
    let (gone, d) = Distinct-without xs a r ys h.distinct in
    let (m1, run1, l1) = bridge-all s.process xs a r ys h.linked h.distinct in
    let (m2, run2, (l2, kept)) = reparent-Linked fuel m1 a s.init_proc (xs ++ ys) f l1 d in
    let e1 = first-without s.process_list xs a r ys (NotIn-append_l a xs ys gone) h.list in
    let e2 = last-without s.process_list_last 0 xs a r ys (NotIn-append_r a xs ys gone) h.end in
    let meets =
      free_loop-meets fuel fuel s 0 xs a r ys h.linked (NotIn-append_l a xs ys gone)
        (omega (arith, length-append xs ys)) in
    let here = eq_self a in
    let rest = map (adopt a s.init_proc) (xs ++ ys) in
    (
      record s {
        process = replace m2 a none;
        process_list = if a == s.process_list then first ys else s.process_list;
        process_list_last = if a == s.process_list_last then last 0 xs else s.process_list_last;
        fs = drop_files r.fd_max r.fd_table 0 s.fs;
      },
      ap (free_loop fuel fuel s a 0) h.list ∙ meets ∙ rw run1 (rw e1 (rw run2 refl)),
      record {
        processes = record {
          linked = Linked-replace m2 a none rest (NotIn-adopt a s.init_proc a (xs ++ ys) gone) l2;
          distinct = Distinct-adopt a s.init_proc (xs ++ ys) d;
          list = e1 ∙ sym (first-adopt a s.init_proc (xs ++ ys));
          end = e2 ∙ sym (last-adopt a s.init_proc 0 (xs ++ ys));
        };
        gone = rw here refl;
        fs = refl;
        threads = refl;
      },
    )

-- The system call returns `ENOSYS` for these: 0, and what is below -1 as an `int`.
abbrev pub unsupported : ℕ → Bool
unsupported pid = (pid == 0) || (not (ltb pid (2 ^ 31)) && ltb pid (2 ^ 32 - 1))

-- When a child that `pid` asks for is a zombie, and none of the processes before it in the list is,
-- `sys_waitpid` returns in its first pass, with the child's pid and exit status. The child is gone,
-- the other processes are left in their order, and the child's own children belong to `init`.
pub sys_waitpid-Reaped :
    (meanwhile : System → System) (fuel rounds pid : ℕ) (s : System) (xs : Entries) (a : ℕ)
    (r : Process) (ys : Entries)
    → AreProcesses s (xs ++ (a, r) ∷ ys)
    → unsupported pid ≡ false
    → NoneAwaited pid s.sched.current_process xs
    → awaited pid s.sched.current_process r ≡ true
    → length (xs ++ ys) < fuel
    → 0 < rounds
    → (s' : System) × (sys_waitpid meanwhile fuel rounds s pid
        ≡ done (ret r.pid, r.exit_status, s'))
      × Reaped s xs a r ys s'
unfolding sys_waitpid wait_loop
sys_waitpid-Reaped meanwhile fuel zero pid s xs a r ys h valid unready ok f n = absurd (omega arith)
sys_waitpid-Reaped meanwhile fuel (suc rounds) pid s xs a r ys h valid unready ok f n =
    let at = (Linked-append_r s.process xs ((a, r) ∷ ys) h.linked).1.0 in
    let find : find_child fuel s.process pid s.sched.current_process s.process_list
        ≡ done (some a) =
      ap (find_child fuel s.process pid s.sched.current_process) h.list
      ∙ find_child-first fuel pid s.sched.current_process s.process xs a r ys h.linked unready ok
          (omega (arith, length-append xs ys)) in
    let (s', run, left) = process_free-Reaped fuel s xs a r ys h f in
    (s', rw valid (rw find (rw at (rw run refl))), left)
