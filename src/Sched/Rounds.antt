-- ===== src/Sched/Rounds.antt =====
-- With threads that are all ready, the scheduler goes round the list.
use garn_os.Prelude.{
  ℕ, suc, ◌≤◌, ◌≡◌, ◌≢◌, refl, sym, ap, subst, ◌∙◌, arith, true, false, some, [], ◌∷◌, ◌++◌, length,
  append_assoc, ◌==◌, if◌then◌else◌,
}
use garn_os.Prelude.Exec.{done}
use garn_os.LinkedList.{Node, Memory}
use garn_os.LinkedList.Chain.{Cells, Chain, IsList}
use garn_os.Sched.{
  Thread, Sched, ready, destroyed, set_status, switch_thread, check_ready, sched_get_next_thread,
}

abbrev pub first_address : Cells → ℕ
first_address [] = 0
first_address ((a, w) ∷ cs) = a

abbrev pub AllReady : (ℕ → Thread) → Cells → Type 0
AllReady th [] = Unit
AllReady th ((a, t) ∷ cs) = ((th t).status ≡ ready) × AllReady th cs

-- The node that the next switch reads.
abbrev pub next_node : Sched → ℕ
next_node s = if s.current_thread_node == 0 then s.thread_list.head else s.current_thread_node

-- Of the ready threads `all`, those of `after` are still to come in this round.
pub record At (s : Sched) (all before after : Cells) : Type 0 where
  pub list : IsList s.thread_list all
  pub split : before ++ after ≡ all
  pub node : next_node s ≡ first_address after
  pub several : 2 ≤ length all
  pub ready_all : AllReady s.thread all
  pub ready_now : (s.thread s.current_thread).status ≡ ready

pub Chain-start : (m : Memory) (p : ℕ) (cs : Cells) → Chain m p cs → p ≡ first_address cs
Chain-start m p [] h = h
Chain-start m p ((b, u) ∷ cs) h = h.0

-- What memory holds at a cell of a chain.
pub Chain-at :
    (m : Memory) (p a w : ℕ) (before after : Cells)
    → Chain m p (before ++ (a, w) ∷ after)
    → (a ≢ 0) × (m a ≡ some (record { next = first_address after; value = w }))
Chain-at m p a w [] after (e, nz, (q, at, rest)) =
    (nz, at ∙ ap (λ x. some (record { next = x; value = w })) (Chain-start m q after rest))
Chain-at m p a w ((b, u) ∷ before) after (e, nz, (q, at, rest)) = Chain-at m q a w before after rest

AllReady-set :
    (th : ℕ → Thread) (t : ℕ) (cs : Cells) → AllReady th cs → AllReady (set_status th t ready) cs
AllReady-set th t [] h = tt
AllReady-set th t ((a, u) ∷ cs) (r, rest) = (ground arith, AllReady-set th t cs rest)

AllReady-at :
    (th : ℕ → Thread) (before : Cells) (a t : ℕ) (after : Cells)
    → AllReady th (before ++ (a, t) ∷ after)
    → (th t).status ≡ ready
AllReady-at th [] a t after h = h.0
AllReady-at th ((b, u) ∷ before) a t after h = AllReady-at th before a t after h.1

-- The state behind a switch to a thread, from a current thread that is not destroyed.
unfoldable pub switched : Sched → ℕ → Cells → Sched
switched s t after = record s {
  thread = set_status s.thread s.current_thread ready;
  current_thread = t;
  current_thread_node = first_address after;
  current_process = (set_status s.thread s.current_thread ready t).process;
}

switch_thread-ready :
    (list_fuel : ℕ) (s : Sched) (all before after : Cells) (a t : ℕ)
    → At s all before ((a, t) ∷ after)
    → switch_thread list_fuel s ≡ done (switched s t after)
unfolding switch_thread switched
switch_thread-ready list_fuel s all before after a t h =
    let alive : ((s.thread s.current_thread).status == destroyed) ≡ false =
      let r = h.ready_now in ground arith in
    let (nz, at) =
      Chain-at s.thread_list.node s.thread_list.head a t before after
        (subst (Chain s.thread_list.node s.thread_list.head) (sym h.split) h.list.chain) in
    rw alive (rw h.node (rw at refl))

-- The cells that are still to come behind `after`, when none is left, are all of them.
abbrev pub to_come : Cells → Cells → Cells
to_come all [] = all
to_come all (c ∷ cs) = c ∷ cs

abbrev pub gone : Cells → Cells → Cells
gone before [] = []
gone before (c ∷ cs) = before

picked :
    (s : Sched) (all before : Cells) (a t : ℕ) (after : Cells)
    → At s all before ((a, t) ∷ after)
    → (set_status s.thread s.current_thread ready t).status ≡ ready
picked s all before a t after h =
    AllReady-at (set_status s.thread s.current_thread ready) before a t after (
      subst (AllReady (set_status s.thread s.current_thread ready)) (sym h.split)
        (AllReady-set s.thread s.current_thread all h.ready_all))

pub switched-At :
    (s : Sched) (all before after : Cells) (a t : ℕ)
    → At s all before ((a, t) ∷ after)
    → At (switched s t after) all (gone (before ++ (a, t) ∷ []) after) (to_come all after)
unfolding switched
switched-At s all before [] a t h =
    let wrapped : next_node (switched s t []) ≡ first_address all =
      Chain-start s.thread_list.node s.thread_list.head all h.list.chain in
    record {
      list = h.list;
      split = refl;
      node = wrapped;
      several = h.several;
      ready_all = AllReady-set s.thread s.current_thread all h.ready_all;
      ready_now = picked s all before a t [] h;
    }
switched-At s all before ((b, u) ∷ after) a t h =
    let split : (before ++ (a, t) ∷ []) ++ (b, u) ∷ after ≡ all =
      append_assoc before ((a, t) ∷ []) ((b, u) ∷ after) ∙ h.split in
    let (nz, at) =
      Chain-at s.thread_list.node s.thread_list.head b u (before ++ (a, t) ∷ []) after
        (subst (Chain s.thread_list.node s.thread_list.head) (sym split) h.list.chain) in
    let further : (b == 0) ≡ false = ground arith in
    record {
      list = h.list;
      split = split;
      node = rw further refl;
      several = h.several;
      ready_all = AllReady-set s.thread s.current_thread all h.ready_all;
      ready_now = picked s all before a t ((b, u) ∷ after) h;
    }

-- The list has a second node.
pub second :
    (m : Memory) (p : ℕ) (all : Cells)
    → 2 ≤ length all
    → Chain m p all
    → (n : Node) × (m p ≡ some n) × ((n.next == 0) ≡ false)
second m p [] h ch = absurd (omega arith)
second m p (c ∷ []) h ch = absurd (omega arith)
second m p ((a, w) ∷ (b, u) ∷ cs) h (e, nz, (q, at, rest)) =
    let qb = rest.0 in
    let bz = rest.1 in (record { next = q; value = w }, ap m e ∙ at, ground arith)

pub sched_get_next_thread-switched :
    (list_fuel fuel : ℕ) (s : Sched) (all before after : Cells) (a t : ℕ)
    → At s all before ((a, t) ∷ after)
    → sched_get_next_thread list_fuel (suc fuel) s ≡ done (switched s t after)
unfolding check_ready sched_get_next_thread switched
sched_get_next_thread-switched list_fuel fuel s all before after a t h =
    let (n, at_head, more) =
      second s.thread_list.node s.thread_list.head all h.several h.list.chain in
    let ok : ((set_status s.thread s.current_thread ready t).status == ready) ≡ true =
      let r = picked s all before a t after h in ground arith in
    rw (at_head, more) (rw (switch_thread-ready list_fuel s all before after a t h) (rw ok refl))
