-- ===== src/Tests/SchedTests.antt =====
-- Two threads, 7 and 9, in the list of `LinkedListTests`.
use garn_os.Prelude.{ℕ, ◌+◌, ◌*◌, ◌≤◌, ◌≡◌, refl, arith, true, [], ◌∷◌, length}
use garn_os.Prelude.Exec.{Exec, done}
use garn_os.LinkedList.{list_insert}
use garn_os.Sched.{
  Sched, sched_get_next_thread, sched_preempt, sched_remove_thread, check_ready, switch_thread,
}
use garn_os.Sched.Rounds.{At}
use garn_os.Sched.Turns.{preempt, sched_preempt-turn}
use garn_os.Tests.LinkedListTests.{two, two-IsList}

abbrev running : Sched
running = record {
  thread = λ t. record { status = 0; process = t + 100; has_stack = true };
  thread_list = two;
  current_thread_node = 32;
  current_thread = 7;
  current_process = 107;
}

running-At : At running ((16, 7) ∷ (32, 9) ∷ []) ((16, 7) ∷ []) ((32, 9) ∷ [])
running-At = record {
  list = two-IsList;
  split = refl;
  node = refl;
  several = omega arith;
  ready_all = (refl, (refl, tt));
  ready_now = refl;
}

sched_preempt-turn_example :
    (k : ℕ) × (s' : Sched) × (k ≤ 2 * length {A = ℕ × ℕ} ((16, 7) ∷ (32, 9) ∷ []))
    × (preempt 3 1 k running ≡ done s')
    × (s'.current_thread ≡ 7)
sched_preempt-turn_example =
    sched_preempt-turn 3 0 running ((16, 7) ∷ (32, 9) ∷ []) ((16, 7) ∷ []) [] (32, 9) running-At []
      ((32, 9) ∷ []) 16 7 refl

abbrev now : Exec Sched → ℕ
now (done s) = s.current_thread
now _ = 0

-- The threads take turns.
turns :
    (now (preempt 3 1 1 running) ≡ 9)
    × (now (preempt 3 1 2 running) ≡ 7)
    × (now (preempt 3 1 3 running) ≡ 9)
unfolding preempt sched_preempt sched_get_next_thread check_ready switch_thread list_insert
turns = (refl, refl, refl)

abbrev exiting : Sched
exiting = sched_remove_thread running 7
