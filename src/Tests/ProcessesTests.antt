-- ===== src/Tests/ProcessesTests.antt =====
-- Three processes at 100, 200 and 300: the second is a zombie child of the first, and the parent of
-- the third.
use garn_os.Prelude.{ℕ, ◌+◌, ◌≡◌, refl, arith, true, none, some, List, [], ◌∷◌, ◌==◌, if◌then◌else◌}
use garn_os.Prelude.Exec.{done}
use garn_os.Vaspace.{ret}
use garn_os.Files.Descriptors.{Fd}
use garn_os.Sched.{Sched}
use garn_os.Processes.{Process, System, Memory, sys_fork, sys_waitpid, running, zombie}
use garn_os.Processes.Fork.{Forked, sys_fork-Forked}
use garn_os.Processes.Wait.{AreProcesses, Reaped, sys_waitpid-Reaped}
use garn_os.Tests.LinkedListTests.{blank, blank-IsList}
use garn_os.Tests.FilesTests.{disk}

-- Two descriptors, both of vnode 2.
abbrev files : List Fd
files =
    (record { file = 2; offset = 5; flags = 0 }) ∷ (record { file = 2; offset = 0; flags = 1 }) ∷ []

abbrev process : ℕ → ℕ → ℕ → ℕ → Process
process pid status parent next = record {
  name = b'p' ∷ [];
  pid = pid;
  exit_status = 0x300;
  status = status;
  fd_table = files;
  fd_max = 1;
  cwd = b'/' ∷ [];
  main_thread = pid + 1000;
  parent = parent;
  next = next;
}

abbrev processes : Memory
processes p =
    if p == 100
    then some (process 1 running 0 200)
    else if p == 200
    then some (process 2 zombie 100 300)
    else if p == 300
    then some (process 3 running 200 0)
    else none

abbrev sched : Sched
sched = record {
  thread = λ t. record { status = 0; process = 100; has_stack = true };
  thread_list = blank;
  current_thread_node = 0;
  current_thread = 1001;
  current_process = 100;
}

abbrev system : System
system = record {
  process = processes;
  process_list = 100;
  process_list_last = 300;
  init_proc = 100;
  next_pid = 4;
  sched = sched;
  fs = disk;
}

sys_fork-Forked_example :
    (s' : System) × (sys_fork system 400 1004 48 ≡ done (4, s'))
    × Forked system (process 1 running 0 200) (process 3 running 200 0) 400 1004 48 [] s'
sys_fork-Forked_example =
    sys_fork-Forked system (process 1 running 0 200) (process 3 running 200 0) 400 1004 48 [] refl
      refl (omega arith) blank-IsList (omega arith) tt (omega arith)

system-AreProcesses : AreProcesses system (
    (100, process 1 running 0 200)
    ∷ (200, process 2 zombie 100 300)
    ∷ (300, process 3 running 200 0)
    ∷ [])
system-AreProcesses = record {
  linked = (omega arith, (refl, (omega arith, (refl, (omega arith, (refl, tt))))));
  distinct = ((omega arith, (omega arith, tt)), ((omega arith, tt), (tt, tt)));
  list = refl;
  end = refl;
}

sys_waitpid-Reaped_example :
    (s' : System) × (sys_waitpid (λ s. s) 9 1 system 0xffffffff ≡ done (ret 2, 0x300, s'))
    × Reaped system
        ((100, process 1 running 0 200) ∷ [])
        200
        (process 2 zombie 100 300)
        ((300, process 3 running 200 0) ∷ [])
        s'
sys_waitpid-Reaped_example =
    sys_waitpid-Reaped (λ s. s) 9 1 0xffffffff system ((100, process 1 running 0 200) ∷ []) 200
      (process 2 zombie 100 300) ((300, process 3 running 200 0) ∷ []) system-AreProcesses refl
      (refl, tt) refl (omega arith) (omega arith)
