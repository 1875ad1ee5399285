-- ===== src/Sched.antt =====
-- kernel/process/sched/sched.c: the list of threads and the choice of the next one.
-- A thread is named by its address. The registers, the stacks and the page table register that
-- `sched_preempt` switches belong to the processor.
pub mod Rounds
pub mod Turns
pub mod Destroyed
use garn_os.Prelude.{ℕ, zero, suc, Bool, true, false, ◌==◌, if◌then◌else◌}
use garn_os.Prelude.Exec.{Exec, done, fault, spent, ◌>>=◌}
use garn_os.LinkedList.{Store, load, list_insert, list_remove}

abbrev pub ready : ℕ
ready = 0

abbrev pub destroyed : ℕ
destroyed = 3

-- `thread_t`; `has_stack` says that the kernel stack is allocated.
pub record Thread : Type 0 where
  pub status : ℕ
  pub process : ℕ
  pub has_stack : Bool

pub record Sched : Type 0 where
  pub thread : ℕ → Thread
  pub thread_list : Store
  pub current_thread_node : ℕ
  pub current_thread : ℕ
  pub current_process : ℕ

abbrev pub set_status : (ℕ → Thread) → ℕ → ℕ → ℕ → Thread
set_status th t status u = if u == t then record (th u) { status = status } else th u

-- What stands between `checkready` and the last test.
unfoldable pub switch_thread : ℕ → Sched → Exec Sched
switch_thread list_fuel s =
    (if (s.thread s.current_thread).status == destroyed
      then (list_remove list_fuel s.thread_list s.current_thread >>= λ r.
          done (record s { thread_list = r.1 }))
      else done (record s { thread = set_status s.thread s.current_thread ready }))
    >>= λ s1.
        let node =
          if s1.current_thread_node == 0 then s1.thread_list.head else s1.current_thread_node in
        load s1.thread_list.node node >>= λ n. done (record s1 {
          current_thread = n.value;
          current_thread_node = n.next;
          current_process = (s1.thread n.value).process;
        })

-- The jumps to `checkready`.
unfoldable pub check_ready : ℕ → ℕ → Sched → Exec Sched
check_ready list_fuel zero s = spent
check_ready list_fuel (suc fuel) s = switch_thread list_fuel s >>= λ s'.
    if (s'.thread s'.current_thread).status == ready then done s' else check_ready list_fuel fuel s'

unfoldable pub sched_get_next_thread : ℕ → ℕ → Sched → Exec Sched
sched_get_next_thread list_fuel fuel s = load s.thread_list.node s.thread_list.head >>= λ h.
    if h.next == 0 then done s else check_ready list_fuel fuel s

-- `node` is the address that `list_insert` gets from the heap.
unfoldable pub sched_add_thread : Sched → ℕ → ℕ → Exec Sched
sched_add_thread s t node = list_insert s.thread_list node t >>= λ l. done (record {
  thread = set_status s.thread t ready;
  thread_list = l;
  current_thread = if s.current_thread == 0 then t else s.current_thread;
  current_process = if s.current_process == 0 then (s.thread t).process else s.current_process;
  current_thread_node = if s.current_thread_node == 0 then l.head else s.current_thread_node;
})

unfoldable pub sched_remove_thread : Sched → ℕ → Sched
sched_remove_thread s t = record s {
  thread = λ u.
      if u == t then record (s.thread u) { has_stack = false; status = destroyed } else s.thread u;
}

-- The list is there since `sched_init`.
unfoldable pub sched_preempt : ℕ → ℕ → Sched → Exec Sched
sched_preempt list_fuel fuel s =
    if s.thread_list.head == 0 then done s else sched_get_next_thread list_fuel fuel s
