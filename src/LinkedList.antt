-- ===== src/LinkedList.antt =====
-- kernel/ds/list.c: singly linked lists in the kernel heap.
-- `Store` holds one `list_t` and the nodes that are allocated; the null pointer is 0. What `kmalloc`
-- returns is an argument of `list_insert`. The lock is held over each function, so a call is one
-- step. The loops over the nodes take fuel.
pub mod Chain
pub mod Remove
pub mod Calls
use garn_os.Prelude.{
  ℕ, zero, suc, ◌+◌, ◌-◌, ◌%◌, ◌^◌, Bool, true, false, Option, none, some, ◌==◌, if◌then◌else◌,
}
use garn_os.Prelude.Exec.{Exec, done, fault, spent, ◌>>=◌}

-- `size_t` counters go round at 2 ^ 64.
abbrev pub inc : ℕ → ℕ
inc x = (x + 1) % 2 ^ 64

abbrev pub dec : ℕ → ℕ
dec x = (x + 2 ^ 64 - 1) % 2 ^ 64

-- `list_node_t`
pub record Node : Type 0 where
  pub next : ℕ
  pub value : ℕ

abbrev pub Memory : Type 0
Memory = ℕ → Option Node

pub record Store : Type 0 where
  pub node : Memory
  pub head : ℕ
  pub tail : ℕ
  pub node_count : ℕ

abbrev pub put : Memory → ℕ → Option Node → Memory
put m a c b = if b == a then c else m b

abbrev pub found : Option Node → Exec Node
found none = fault
found (some n) = done n

abbrev pub load : Memory → ℕ → Exec Node
load m a = found (m a)

-- `a->next = q`
abbrev pub set_next : Memory → ℕ → ℕ → Exec Memory
set_next m a q = load m a >>= λ n. done (put m a (some (record n { next = q })))

abbrev pub free : Memory → ℕ → Exec Memory
free m a = load m a >>= λ n. done (put m a none)

unfoldable pub list_create : Memory → Store
list_create m = record { node = m; head = 0; tail = 0; node_count = 0 }

-- `node->next` is set last, and nothing reads it before.
unfoldable pub list_insert : Store → ℕ → ℕ → Exec Store
list_insert l addr value =
    let m = put l.node addr (some (record { next = 0; value = value })) in
    if l.node_count == 0
    then done (record { node = m; head = addr; tail = addr; node_count = inc l.node_count })
    else set_next m l.tail addr >>= λ m'.
        done (record { node = m'; head = l.head; tail = addr; node_count = inc l.node_count })

-- The loop of `list_index_of` from node `p`; `none` is -1.
unfoldable pub index_loop : ℕ → Memory → ℕ → ℕ → ℕ → Exec (Option ℕ)
index_loop zero m p value i = spent
index_loop (suc fuel) m p value i =
    let rest = load m p >>= λ n.
    if n.value == value then done (some i) else index_loop fuel m n.next value (i + 1) in
    if p == 0 then done none else rest

unfoldable pub list_index_of : ℕ → Store → ℕ → Exec (Option ℕ)
list_index_of fuel l value = index_loop fuel l.node l.head value 0

-- The loop of `list_get` from node `p`; `none` is the null pointer that ends the search.
unfoldable pub get_loop : ℕ → Memory → ℕ → ℕ → ℕ → Exec (Option ℕ)
get_loop zero m p index i = spent
get_loop (suc fuel) m p index i =
    let rest = load m p >>= λ n.
    if i == index then done (some n.value) else get_loop fuel m n.next index (i + 1) in
    if p == 0 then done none else rest

unfoldable pub list_get : ℕ → Store → ℕ → Exec (Option ℕ)
list_get fuel l index = get_loop fuel l.node l.head index 0

-- The body of the `if` in `list_remove` and `list_remove_index`.
unfoldable pub unlink : Store → ℕ → ℕ → ℕ → Exec Store
unlink l prev p next = (if prev == 0 then done l.node else set_next l.node prev next) >>= λ m.
    free m p >>= λ m'. done (record {
      node = m';
      head = if l.head == p then next else l.head;
      tail = if l.tail == p then prev else l.tail;
      node_count = dec l.node_count;
    })

-- The loop of `list_remove` and `list_remove_index` from node `p`, by the test of a node's index
-- and value. The result is whether 0 is returned.
unfoldable pub remove_loop : (ℕ → ℕ → Bool) → ℕ → Store → ℕ → ℕ → ℕ → Exec (Bool × Store)
remove_loop hit zero l prev p i = spent
remove_loop hit (suc fuel) l prev p i =
    let rest = load l.node p >>= λ n.
    if hit i n.value
    then (unlink l prev p n.next >>= λ l'. done (true, l'))
    else remove_loop hit fuel l p n.next (i + 1) in
    if p == 0 then done (false, l) else rest

unfoldable pub list_remove : ℕ → Store → ℕ → Exec (Bool × Store)
list_remove fuel l value = remove_loop (λ i w. w == value) fuel l 0 l.head 0

unfoldable pub list_remove_index : ℕ → Store → ℕ → Exec (Bool × Store)
list_remove_index fuel l index = remove_loop (λ i w. i == index) fuel l 0 l.head 0

-- The loop of `list_destroy`: the next pointer is read from the node that was just freed.
unfoldable pub destroy_loop : ℕ → Memory → ℕ → Exec Memory
destroy_loop zero m p = spent
destroy_loop (suc fuel) m p =
    let rest = free m p >>= λ m'. load m' p >>= λ n. destroy_loop fuel m' n.next in
    if p == 0 then done m else rest

unfoldable pub list_destroy : ℕ → Store → Exec Memory
list_destroy fuel l = destroy_loop fuel l.node l.head
