-- ===== src/Processes.antt =====
-- kernel/process/process.c: the list of processes, `fork`, `exit` and `waitpid`.
-- A process is named by its address. The addresses that the heap gives are arguments of `sys_fork`.
-- The registers, stacks and page tables of a process, and the log, are left out. The loops over the
-- list take fuel.
pub mod Fork
pub mod Chain
pub mod Wait
use garn_os.Prelude.{
  ℕ, zero, suc, ◌+◌, ◌-◌, ◌*◌, ◌%◌, ◌^◌, Bool, true, false, not, ◌&&◌, ◌||◌, Option, none, some,
  List, [], ◌∷◌, ◌++◌, ltb, ◌==◌, if◌then◌else◌, get_or, set, map,
}
use garn_os.Prelude.Exec.{Exec, done, fault, spent, ◌>>=◌}
use garn_os.Vaspace.{Ret, ret, fail}
use garn_os.Files.Vnodes.{Fs, set_vnode}
use garn_os.Files.Descriptors.{Fd, empty_fd, vnode_alloc_fd_table}
use garn_os.Sched.{Thread, Sched, ready, sched_add_thread, sched_remove_thread}

abbrev pub running : ℕ
running = 0

abbrev pub zombie : ℕ
zombie = 1

abbrev pub enosys : ℕ
enosys = 88

abbrev pub fork_suffix : List ℕ
fork_suffix = b' ' ∷ b'(' ∷ b'f' ∷ b'o' ∷ b'r' ∷ b'k' ∷ b')' ∷ []

-- `process_t`
pub record Process : Type 0 where
  pub name : List ℕ
  pub pid : ℕ
  pub exit_status : ℕ
  pub status : ℕ
  pub fd_table : List Fd
  pub fd_max : ℕ
  pub cwd : List ℕ
  pub main_thread : ℕ
  pub parent : ℕ
  pub next : ℕ

-- The processes that are allocated, by address.
abbrev pub Memory : Type 0
Memory = ℕ → Option Process

pub record System : Type 0 where
  pub process : Memory
  pub process_list : ℕ
  pub process_list_last : ℕ
  pub init_proc : ℕ
  pub next_pid : ℕ
  pub sched : Sched
  pub fs : Fs

abbrev pub replace : Memory → ℕ → Option Process → Memory
replace m p r q = if q == p then r else m q

abbrev found : Option Process → Exec Process
found none = fault
found (some r) = done r

abbrev pub fetch : Memory → ℕ → Exec Process
fetch m p = found (m p)

-- The processes after the loop of `process_terminate` from `p`, and whether it met `target`.
unfoldable pub terminate_loop : ℕ → Memory → ℕ → ℕ → Exec (Option ℕ × Memory)
terminate_loop zero m target p = spent
terminate_loop (suc fuel) m target p =
    let rest = fetch m p >>= λ r.
    if p == target
    then done (some r.main_thread, replace m p (some (record r { status = zombie })))
    else terminate_loop fuel m target r.next in
    if p == 0 then done (none, m) else rest

unfoldable pub process_terminate : ℕ → System → ℕ → Exec System
process_terminate fuel s target = terminate_loop fuel s.process target s.process_list >>= λ r.
    elim r.0 [
      | some t ↦ done (record s { process = r.1; sched = sched_remove_thread s.sched t })
      | none ↦ done (record s { process = r.1 })
    ]

-- `refCount--` and `refCount++`
abbrev pub ref_down : Fs → ℕ → Fs
ref_down fs v =
    if v == 0
    then fs
    else set_vnode fs v
        (record (fs.vnode v) { ref_count = ((fs.vnode v).ref_count + 2 ^ 32 - 1) % 2 ^ 32 })

abbrev pub ref_up : Fs → ℕ → Fs
ref_up fs v =
    if v == 0
    then fs
    else set_vnode fs v (record (fs.vnode v) { ref_count = ((fs.vnode v).ref_count + 1) % 2 ^ 32 })

-- The loop over the descriptors in `process_free` from entry `i`, with `k` rounds left.
unfoldable pub drop_files : ℕ → List Fd → ℕ → Fs → Fs
drop_files zero table i fs = fs
drop_files (suc k) table i fs =
    drop_files k table (i + 1) (ref_down fs (get_or table i empty_fd).file)

-- The loop over the children of `parent` in `process_free`.
unfoldable pub reparent : ℕ → Memory → ℕ → ℕ → ℕ → Exec Memory
reparent zero m parent init p = spent
reparent (suc fuel) m parent init p =
    let rest = fetch m p >>= λ r.
    reparent fuel
      (if r.parent == parent then replace m p (some (record r { parent = init })) else m) parent
      init r.next in
    if p == 0 then done m else rest

-- The body of the `if` in `process_free`.
unfoldable pub free_found : ℕ → System → ℕ → ℕ → Process → Exec System
free_found fuel s prev p r =
    let list = if p == s.process_list then r.next else s.process_list in
    (if prev == 0
      then done s.process
      else (fetch s.process prev >>= λ b.
          done (replace s.process prev (some (record b { next = r.next })))))
    >>= λ m. reparent fuel m p s.init_proc list >>= λ m'. done (record s {
      process = replace m' p none;
      process_list = list;
      process_list_last = if p == s.process_list_last then prev else s.process_list_last;
      fs = drop_files r.fd_max r.fd_table 0 s.fs;
    })

unfoldable pub free_loop : ℕ → ℕ → System → ℕ → ℕ → ℕ → Exec System
free_loop list_fuel zero s target prev p = spent
free_loop list_fuel (suc fuel) s target prev p =
    let rest = fetch s.process p >>= λ r.
    if p == target
    then free_found list_fuel s prev p r
    else free_loop list_fuel fuel s target p r.next in
    if p == 0 then done s else rest

unfoldable pub process_free : ℕ → System → ℕ → Exec System
process_free fuel s target = free_loop fuel fuel s target 0 s.process_list

-- The loop over the descriptors in `sys_fork` from entry `i`, with `k` rounds left.
unfoldable pub copy_files : ℕ → List Fd → ℕ → List Fd × Fs → List Fd × Fs
copy_files zero table i c = c
copy_files (suc k) table i c =
    let fd = get_or table i empty_fd in
    copy_files k table (i + 1) (set c.0 i fd, ref_up c.1 fd.file)

-- The fields of the new process.
abbrev pub child_of : System → Process → List Fd → ℕ → Process
child_of s r table thread = record {
  name = r.name ++ fork_suffix;
  pid = s.next_pid;
  exit_status = 0;
  status = running;
  fd_table = table;
  fd_max = r.fd_max;
  cwd = r.cwd;
  main_thread = thread;
  parent = s.sched.current_process;
  next = 0;
}

abbrev pub child_thread : ℕ → Thread
child_thread new = record { status = ready; process = new; has_stack = true }

-- `new`, `thread` and `node` are the addresses of the new process, its thread, and the thread's
-- node in the list of threads.
unfoldable pub sys_fork : System → ℕ → ℕ → ℕ → Exec (ℕ × System)
sys_fork s new thread node = fetch s.process s.sched.current_process >>= λ r.
    let copy = copy_files r.fd_max r.fd_table 0 (vnode_alloc_fd_table (r.fd_max + 1), s.fs) in
    let m = replace s.process new (some (child_of s r copy.0 thread)) in
    fetch m s.process_list_last >>= λ l.
    sched_add_thread
      (record s.sched { thread = λ t. if t == thread then child_thread new else s.sched.thread t })
      thread node
    >>= λ sched. done (
      s.next_pid,
      record s {
        process = replace m s.process_list_last (some (record l { next = new }));
        process_list_last = new;
        next_pid = (s.next_pid + 1) % 2 ^ 32;
        sched = sched;
        fs = copy.1;
      },
    )

-- Up to the endless loop, in which the process waits to be switched off.
unfoldable pub sys_exit : ℕ → System → ℕ → Exec System
sys_exit fuel s status = fetch s.process s.sched.current_process >>= λ r.
    process_terminate fuel
      (record s {
        process =
            replace s.process s.sched.current_process
              (some (record r { exit_status = status % 256 * 256 }));
      })
      s.sched.current_process

-- Whether `sys_waitpid` of `current` takes the process; `pid` is -1, as 32 bits, or positive.
abbrev pub awaited : ℕ → ℕ → Process → Bool
awaited pid current r =
    r.status == zombie
    && (r.parent == current && (not (ltb 0 pid && ltb pid (2 ^ 31)) || r.pid == pid))

-- The inner loop of `sys_waitpid` up to a child, from process `p`.
unfoldable pub find_child : ℕ → Memory → ℕ → ℕ → ℕ → Exec (Option ℕ)
find_child zero m pid current p = spent
find_child (suc fuel) m pid current p =
    let rest = fetch m p >>= λ r.
    if awaited pid current r then done (some p) else find_child fuel m pid current r.next in
    if p == 0 then done none else rest

-- What other processes do between two passes of the endless loop is `meanwhile`. The result is the
-- pid that is returned, and the value for `status`.
unfoldable pub wait_loop : (System → System) → ℕ → ℕ → System → ℕ → ℕ → Exec (Ret × ℕ × System)
wait_loop meanwhile fuel zero s pid current = spent
wait_loop meanwhile fuel (suc rounds) s pid current =
    find_child fuel s.process pid current s.process_list >>= λ o. elim o [
      | some p ↦ fetch s.process p >>= λ r.
          process_free fuel s p >>= λ s'. done (ret r.pid, r.exit_status, s')
      | none ↦ wait_loop meanwhile fuel rounds (meanwhile s) pid current
    ]

unfoldable pub sys_waitpid : (System → System) → ℕ → ℕ → System → ℕ → Exec (Ret × ℕ × System)
sys_waitpid meanwhile fuel rounds s pid =
    let wait = wait_loop meanwhile fuel rounds s pid s.sched.current_process in
    if (pid == 0) || (not (ltb pid (2 ^ 31)) && ltb pid (2 ^ 32 - 1))
    then done (fail enosys, 0, s)
    else wait
