-- ===== src/Sched/Destroyed.antt =====
-- A current thread that was destroyed leaves the list, and another goes on.
use garn_os.Prelude.{ℕ, ◌≤◌, ◌≡◌, ◌≢◌, ◌⊎◌, Bool, [], ◌∷◌, ◌++◌, length, ◌==◌}
use garn_os.LinkedList.{Store}
use garn_os.LinkedList.Chain.{Cells, Chain, IsList}
use garn_os.Sched.{Sched, ready, destroyed}
use garn_os.Sched.Rounds.{first_address}

-- No cell holds the thread.
abbrev pub Without : ℕ → Cells → Type 0
Without t [] = Unit
Without t ((a, u) ∷ cs) = (u ≢ t) × Without t cs

abbrev holds : ℕ → ℕ → ℕ → Bool
holds t i u = u == t

-- The current thread is destroyed and has its cell between `xs` and `ys`; the next cell, `(b, u)`,
-- stands behind `pre` in the list without it.
pub record Leaving (s : Sched) (xs ys pre : Cells) (a b u : ℕ) (post : Cells) : Type 0 where
  pub list : IsList s.thread_list (xs ++ (a, s.current_thread) ∷ ys)
  pub once : Without s.current_thread xs
  pub remaining : xs ++ ys ≡ pre ++ (b, u) ∷ post
  pub node : (s.current_thread_node ≡ b) ⊎ ((s.current_thread_node ≡ 0) × (pre ≡ []))
  pub several : 2 ≤ length (xs ++ (a, s.current_thread) ∷ ys)
  pub gone : (s.thread s.current_thread).status ≡ destroyed
  pub next_ready : (s.thread u).status ≡ ready

-- The state behind the switch, with the list that the removal leaves.
abbrev left_to : Sched → Store → ℕ → Cells → Sched
left_to s l u post = record s {
  thread_list = l;
  current_thread = u;
  current_thread_node = first_address post;
  current_process = (s.thread u).process;
}
