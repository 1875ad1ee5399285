-- ===== src/Processes/Fork.antt =====
-- `sys_fork`: the child, and what is left of the parent.
use garn_os.Prelude.{
  eq_self, ℕ, zero, suc, ◌+◌, ◌%◌, ◌^◌, ◌<◌, ◌≤◌, ◌≡◌, ◌≢◌, inl, inr, refl, subst, ◌∙◌, arith, true,
  false, some, List, [], ◌∷◌, ◌++◌, ◌==◌, if◌then◌else◌, length, get_or, set, get_or-set_self,
  get_or-set_ne, length-set, length-replicate, get_or-replicate, Bool-cases,
}
use garn_os.Prelude.Exec.{done}
use garn_os.Files.Vnodes.{Fs}
use garn_os.Files.Descriptors.{Fd, empty_fd, vnode_alloc_fd_table}
use garn_os.LinkedList.Chain.{Cells, NotIn, IsList}
use garn_os.LinkedList.Calls.{list_insert-IsList}
use garn_os.Sched.{Thread, Sched, set_status, ready, sched_add_thread}
use garn_os.Processes.{
  Process, System, replace, running, fork_suffix, ref_up, copy_files, sys_fork, child_of,
  child_thread,
}

-- The entries from `i` on, `k` of them, that refer to the vnode.
abbrev pub uses : ℕ → ℕ → List Fd → ℕ → ℕ
uses v zero table i = 0
uses v (suc k) table i =
    (if (get_or table i empty_fd).file == v then 1 else 0) + uses v k table (i + 1)

ref_up-count :
    (fs : Fs) (w v : ℕ)
    → v ≢ 0
    → ((ref_up fs w).vnode v).ref_count % 2 ^ 32
      ≡ ((fs.vnode v).ref_count + (if w == v then 1 else 0)) % 2 ^ 32
ref_up-count fs w v nz = elim (Bool-cases (w == 0)) [
  | inl null ↦ let other : (w == v) ≡ false = ground (arith, null) in rw (null, other) (omega arith)
  | inr live ↦ elim (Bool-cases (w == v)) [
    | inl same ↦
        let e : w ≡ v = ground (arith, same) in
        let back : (v == w) ≡ true = ground arith in rw (live, same, back) (rw e (omega arith))
    | inr other ↦
        let back : (v == w) ≡ false = ground (arith, other) in rw (live, other, back) (omega arith)
  ]
]

-- What the loop over the descriptors gives.
pub record Copied (k : ℕ) (table : List Fd) (i : ℕ) (c d : List Fd × Fs) : Type 0 where
  pub same_length : length d.0 ≡ length c.0
  pub copied :
      (j : ℕ) → i ≤ j → j < i + k → j < length c.0 → get_or d.0 j empty_fd ≡ get_or table j empty_fd
  pub kept : (j : ℕ) → i + k ≤ j → get_or d.0 j empty_fd ≡ get_or c.0 j empty_fd
  pub before : (j : ℕ) → j < i → get_or d.0 j empty_fd ≡ get_or c.0 j empty_fd
  pub counted :
      (v : ℕ)
      → v ≢ 0
      → (d.1.vnode v).ref_count % 2 ^ 32 ≡ ((c.1.vnode v).ref_count + uses v k table i) % 2 ^ 32

copy_files-Copied :
    (k : ℕ) (table : List Fd) (i : ℕ) (c : List Fd × Fs)
    → Copied k table i c (copy_files k table i c)
unfolding copy_files
copy_files-Copied zero table i c = record {
  same_length = refl;
  copied = λ j lo hi lt. absurd (omega arith);
  kept = λ j h. refl;
  before = λ j h. refl;
  counted = λ v nz. omega arith;
}
copy_files-Copied (suc k) table i c =
    let fd = get_or table i empty_fd in
    let r = copy_files-Copied k table (i + 1) (set c.0 i fd, ref_up c.1 fd.file) in
    record {
      same_length = r.same_length ∙ length-set c.0 i fd;
      copied = λ j lo hi lt. elim (Bool-cases (i == j)) [
        | inl e ↦
            let e' : i ≡ j = ground (arith, e) in
            r.before j (omega arith)
            ∙ subst (λ x. get_or (set c.0 i fd) x empty_fd ≡ get_or table x empty_fd) e'
                (get_or-set_self c.0 i fd empty_fd (omega arith))
        | inr ne ↦
            let ne' : i ≢ j = ground (arith, ne) in
            r.copied j (omega arith) (omega arith) (omega (arith, length-set c.0 i fd))
      ];
      kept = λ j h.
          r.kept j (omega arith) ∙ get_or-set_ne c.0 i j fd empty_fd (λ e. absurd (omega arith));
      before = λ j h.
          r.before j (omega arith) ∙ get_or-set_ne c.0 i j fd empty_fd (λ e. absurd (omega arith));
      counted = λ v nz.
          let one = ref_up-count c.1 fd.file v nz in let rest = r.counted v nz in omega arith;
    }

-- What a call of `fork` leaves, for the parent `r` and the last process `l`.
pub record Forked (s : System) (r l : Process) (new thread node : ℕ) (cs : Cells) (s' : System)
    : Type 0 where
  pub child : Process
  pub at_new : s'.process new ≡ some child
  pub pid : child.pid ≡ s.next_pid
  pub parent : child.parent ≡ s.sched.current_process
  pub status : child.status ≡ running
  pub name : child.name ≡ r.name ++ fork_suffix
  pub cwd : child.cwd ≡ r.cwd
  pub fd_max : child.fd_max ≡ r.fd_max
  pub files :
      (j : ℕ) → j < r.fd_max → get_or child.fd_table j empty_fd ≡ get_or r.fd_table j empty_fd
  pub last_file : get_or child.fd_table r.fd_max empty_fd ≡ empty_fd
  pub counts :
      (v : ℕ)
      → v ≢ 0
      → (s'.fs.vnode v).ref_count % 2 ^ 32
        ≡ ((s.fs.vnode v).ref_count + uses v r.fd_max r.fd_table 0) % 2 ^ 32
  pub at_last : s'.process s.process_list_last ≡ some (record l { next = new })
  pub last : s'.process_list_last ≡ new
  pub end : child.next ≡ 0
  pub others : (p : ℕ) → p ≢ new → p ≢ s.process_list_last → s'.process p ≡ s.process p
  pub queued : IsList s'.sched.thread_list (cs ++ (node, thread) ∷ [])
  pub is_ready : (s'.sched.thread thread).status ≡ ready
  pub owner : (s'.sched.thread thread).process ≡ new

-- `sys_fork` with fresh addresses returns the next pid. The new process is the last of the list; its
-- name is the name of its parent with " (fork)" appended, and its directory is that of its parent;
-- its descriptors are the parent's below `fdMax`, each of which counts as one more use of its vnode,
-- and the last one, `fdMax`, is empty. Its thread is ready, at the end of the list of threads. All
-- other processes stay.
pub sys_fork-Forked :
    (s : System) (r l : Process) (new thread node : ℕ) (cs : Cells)
    → s.process s.sched.current_process ≡ some r
    → s.process s.process_list_last ≡ some l
    → new ≢ s.process_list_last
    → IsList s.sched.thread_list cs
    → node ≢ 0
    → NotIn node cs
    → length cs + 1 < 2 ^ 64
    → (s' : System) × (sys_fork s new thread node ≡ done (s.next_pid, s'))
      × Forked s r l new thread node cs s'
unfolding sys_fork sched_add_thread vnode_alloc_fd_table
sys_fork-Forked s r l new thread node cs at_current at_last ne h nz out few =
    let c = copy_files-Copied r.fd_max r.fd_table 0 (vnode_alloc_fd_table (r.fd_max + 1), s.fs) in
    let (tl, run, g) = list_insert-IsList s.sched.thread_list node thread cs h nz out few in
    let o1 : (s.process_list_last == new) ≡ false = ground arith in
    let o2 : (new == s.process_list_last) ≡ false = ground arith in
    let here = eq_self new in
    let here_l = eq_self s.process_list_last in
    let here_t = eq_self thread in
    let copy = copy_files r.fd_max r.fd_table 0 (vnode_alloc_fd_table (r.fd_max + 1), s.fs) in
    let child = child_of s r copy.0 thread in
    let th : ℕ → Thread = λ t. if t == thread then child_thread new else s.sched.thread t in
    let sched : Sched = record {
      thread = set_status th thread ready;
      thread_list = tl;
      current_thread = if s.sched.current_thread == 0 then thread else s.sched.current_thread;
      current_process =
          if s.sched.current_process == 0 then (th thread).process else s.sched.current_process;
      current_thread_node =
          if s.sched.current_thread_node == 0 then tl.head else s.sched.current_thread_node;
    } in
    let s' : System = record s {
      process =
          replace (replace s.process new (some child)) s.process_list_last
            (some (record l { next = new }));
      process_list_last = new;
      next_pid = (s.next_pid + 1) % 2 ^ 32;
      sched = sched;
      fs = copy.1;
    } in
    (
      s',
      rw at_current (rw o1 (rw at_last (rw run refl))),
      record {
        child = child;
        at_new = rw (o2, here) refl;
        pid = refl;
        parent = refl;
        status = refl;
        name = refl;
        cwd = refl;
        fd_max = refl;
        files = λ j lt.
            c.copied j (omega arith) (omega arith)
              (omega (arith, length-replicate (r.fd_max + 1) empty_fd));
        last_file =
            c.kept r.fd_max (omega arith)
            ∙ get_or-replicate (r.fd_max + 1) empty_fd empty_fd r.fd_max (omega arith);
        counts = c.counted;
        at_last = rw here_l refl;
        last = refl;
        end = refl;
        others = λ p a b.
            let e1 : (p == new) ≡ false = ground arith in
            let e2 : (p == s.process_list_last) ≡ false = ground arith in rw (e2, e1) refl;
        queued = g;
        is_ready = rw here_t refl;
        owner = rw here_t refl;
      },
    )
