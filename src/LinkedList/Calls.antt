-- ===== src/LinkedList/Calls.antt =====
-- The public functions on a list that holds given cells.
use garn_os.Prelude.{
  ℕ, zero, suc, ◌+◌, ◌-◌, ◌^◌, ◌<◌, ◌≤◌, ◌≡◌, ◌≢◌, inl, inr, refl, sym, ap, subst, ◌∙◌, arith, true,
  false, Option, none, some, List, [], ◌∷◌, ◌++◌, length, get_elem?, length-append, ◌==◌,
  if◌then◌else◌, Bool-cases,
}
use garn_os.Prelude.Exec.{done, fault}
use garn_os.LinkedList.{
  Memory, Store, put, inc, list_insert, index_loop, list_index_of, get_loop, list_get, list_remove,
  list_remove_index, destroy_loop, list_destroy,
}
use garn_os.LinkedList.Chain.{
  Cells, NotIn, Distinct, Chain, last_address, values, IsList, Chain-put,
}
use garn_os.LinkedList.Remove.{erase, accepts, remove_loop-IsList}

-- Both removals return 0 exactly if there is such a cell, the first with the value or the one at
-- the index, and then take it out of the list and leave the others.
pub list_remove-IsList :
    (fuel : ℕ) (l : Store) (cs : Cells) (x : ℕ)
    → IsList l cs
    → length cs < fuel
    → ((l' : Store) × (list_remove fuel l x ≡ done (accepts (λ i w. w == x) 0 cs, l'))
        × IsList l' (erase (λ i w. w == x) 0 cs))
      × ((l' : Store) × (list_remove_index fuel l x ≡ done (accepts (λ i w. i == x) 0 cs, l'))
          × IsList l' (erase (λ i w. i == x) 0 cs))
unfolding list_remove list_remove_index
list_remove-IsList fuel l cs x h f = (
  remove_loop-IsList (λ i w. w == x) fuel l cs h f,
  remove_loop-IsList (λ i w. i == x) fuel l cs h f,
)

-- The value in the last node, which points nowhere.
last_node :
    (m : Memory) (p a w : ℕ) (cs : Cells)
    → Chain m p ((a, w) ∷ cs)
    → (v : ℕ) × (m (last_address a cs) ≡ some (record { next = 0; value = v }))
last_node m p a w [] (e, nz, (q, at, end)) =
    (w, at ∙ ap (λ x. some (record { next = x; value = w })) end)
last_node m p a w ((b, u) ∷ cs) (e, nz, (q, at, rest)) = last_node m q b u cs rest

last-ne : (x a : ℕ) (cs : Cells) → x ≢ a → NotIn x cs → x ≢ last_address a cs
last-ne x a [] ne out = ne
last-ne x a ((b, w) ∷ cs) ne (ne', out) = last-ne x b cs ne' out

-- The last node is made to point to a node that ends the chain.
Chain-append :
    (m : Memory) (p a w addr x v : ℕ) (cs : Cells)
    → Chain m p ((a, w) ∷ cs)
    → Distinct ((a, w) ∷ cs)
    → addr ≢ 0
    → NotIn addr ((a, w) ∷ cs)
    → m addr ≡ some (record { next = 0; value = x })
    → m (last_address a cs) ≡ some (record { next = 0; value = v })
    → Chain
        (put m (last_address a cs) (some (record { next = addr; value = v })))
        p
        ((a, w) ∷ cs ++ (addr, x) ∷ [])
Chain-append m p a w addr x v [] (e, nz, (q, at, end)) dis anz (ne, out) new at_last =
    let here : (a == a) ≡ true = ground arith in
    let other : (addr == a) ≡ false = ground arith in
    let same : v ≡ w = ground (arith, at, at_last) in
    (
      e,
      nz,
      (
        addr,
        rw here (ap (λ y. some (record { next = addr; value = y })) same),
        (refl, anz, (0, rw other new, refl)),
      ),
    )
Chain-append m p a w addr x v ((b, u) ∷ cs) (e, nz, (q, at, rest)) ((ne, out), dis) anz
      (new_ne, new_out) new at_last =
    let apart = last-ne a b cs ne out in
    let other : (a == last_address b cs) ≡ false = ground arith in
    (e, nz, (q, rw other at, Chain-append m q b u addr x v cs rest dis anz new_out new at_last))

NotIn-append : (x addr v : ℕ) (cs : Cells) → NotIn x cs → x ≢ addr → NotIn x (cs ++ (addr, v) ∷ [])
NotIn-append x addr v [] out ne = (ne, tt)
NotIn-append x addr v ((a, w) ∷ cs) (ne', out) ne = (ne', NotIn-append x addr v cs out ne)

Distinct-append :
    (addr v : ℕ) (cs : Cells) → Distinct cs → NotIn addr cs → Distinct (cs ++ (addr, v) ∷ [])
Distinct-append addr v [] dis out = (tt, tt)
Distinct-append addr v ((a, w) ∷ cs) (a_out, dis) (ne, out) =
    (NotIn-append a addr v cs a_out (λ e. ne (sym e)), Distinct-append addr v cs dis out)

last_address-append : (d addr v : ℕ) (cs : Cells) → last_address d (cs ++ (addr, v) ∷ []) ≡ addr
last_address-append d addr v [] = refl
last_address-append d addr v ((a, w) ∷ cs) = last_address-append a addr v cs

-- `list_insert` puts a new cell behind the others, at an address that is not null and not in use in
-- the list, as `kmalloc` returns it.
pub list_insert-IsList :
    (l : Store) (addr v : ℕ) (cs : Cells)
    → IsList l cs
    → addr ≢ 0
    → NotIn addr cs
    → length cs + 1 < 2 ^ 64
    → (l' : Store) × (list_insert l addr v ≡ done l') × IsList l' (cs ++ (addr, v) ∷ [])
unfolding list_insert
list_insert-IsList l addr v [] h nz out few =
    let n = h.count in
    let none_yet : (l.node_count == 0) ≡ true = ground arith in
    let here : (addr == addr) ≡ true = ground arith in
    let l' : Store = record {
      node = put l.node addr (some (record { next = 0; value = v }));
      head = addr;
      tail = addr;
      node_count = inc l.node_count;
    } in
    (
      l',
      rw none_yet refl,
      record {
        chain = (refl, nz, (0, rw here refl, refl));
        distinct = (tt, tt);
        tail = refl;
        few = omega arith;
        count = omega arith;
      },
    )
list_insert-IsList l addr v ((a, w) ∷ cs) h nz out few =
    let n = h.count in
    let some_yet : (l.node_count == 0) ≡ false = ground arith in
    let m = put l.node addr (some (record { next = 0; value = v })) in
    let ch =
      Chain-put l.node addr (some (record { next = 0; value = v })) l.head ((a, w) ∷ cs) out
        h.chain in
    let (u, at_last) = last_node m l.head a w cs ch in
    let at_tail : m l.tail ≡ some (record { next = 0; value = u }) = ap m h.tail ∙ at_last in
    let here : (addr == addr) ≡ true = ground arith in
    let len = length-append ((a, w) ∷ cs) ((addr, v) ∷ []) in
    (
      record {
        node = put m l.tail (some (record { next = addr; value = u }));
        head = l.head;
        tail = addr;
        node_count = inc l.node_count;
      },
      rw (some_yet, at_tail) refl,
      record {
        chain =
            subst
              (λ t.
                Chain (put m t (some (record { next = addr; value = u }))) l.head
                  ((a, w) ∷ cs ++ (addr, v) ∷ []))
              (sym h.tail)
              (Chain-append m l.head a w addr v u cs ch h.distinct nz out (rw here refl) at_last);
        distinct = Distinct-append addr v ((a, w) ∷ cs) h.distinct out;
        tail = sym (last_address-append a addr v cs);
        few = omega arith;
        count = omega arith;
      },
    )

-- The index of the first cell with a value, counted from `i`.
abbrev pub first_index : ℕ → ℕ → List ℕ → Option ℕ
first_index v i [] = none
first_index v i (w ∷ ws) = if w == v then some i else first_index v (i + 1) ws

index_loop_lem :
    (fuel : ℕ) (m : Memory) (p v i : ℕ) (cs : Cells)
    → length cs < fuel
    → Chain m p cs
    → index_loop fuel m p v i ≡ done (first_index v i (values cs))
unfolding index_loop
index_loop_lem zero m p v i cs f ch = absurd (omega arith)
index_loop_lem (suc fuel) m p v i [] f ch =
    let stop : (p == 0) ≡ true = ground arith in rw stop refl
index_loop_lem (suc fuel) m p v i ((a, w) ∷ cs) f (e, nz, (q, at, rest)) =
    let go : (p == 0) ≡ false = ground arith in
    let at_p : m p ≡ some (record { next = q; value = w }) = ap m e ∙ at in
    elim (Bool-cases (w == v)) [
      | inl here ↦ rw (go, at_p, here) refl
      | inr other ↦ rw (go, at_p, other) (index_loop_lem fuel m q v (i + 1) cs (omega arith) rest)
    ]

get_loop_lem :
    (fuel : ℕ) (m : Memory) (p index i : ℕ) (cs : Cells)
    → length cs < fuel
    → i ≤ index
    → Chain m p cs
    → get_loop fuel m p index i ≡ done (get_elem? (values cs) (index - i))
unfolding get_loop
get_loop_lem zero m p index i cs f le ch = absurd (omega arith)
get_loop_lem (suc fuel) m p index i [] f le ch =
    let stop : (p == 0) ≡ true = ground arith in rw stop refl
get_loop_lem (suc fuel) m p index i ((a, w) ∷ cs) f le (e, nz, (q, at, rest)) =
    let go : (p == 0) ≡ false = ground arith in
    let at_p : m p ≡ some (record { next = q; value = w }) = ap m e ∙ at in
    elim (Bool-cases (i == index)) [
      | inl here ↦ let z : index - i ≡ 0 = ground arith in rw (go, at_p, here) (rw z refl)
      | inr other ↦
          let s : index - i ≡ suc (index - (i + 1)) = ground arith in
          rw (go, at_p, other)
            (rw s (get_loop_lem fuel m q index (i + 1) cs (omega arith) (ground arith) rest))
    ]

-- `list_get` returns the value at an index, and the null pointer behind the end; `list_index_of`
-- the index of the first cell with a value, and -1 if there is none.
pub list_get-list_index_of :
    (fuel : ℕ) (l : Store) (cs : Cells) (x : ℕ)
    → IsList l cs
    → length cs < fuel
    → (list_get fuel l x ≡ done (get_elem? (values cs) x))
      × (list_index_of fuel l x ≡ done (first_index x 0 (values cs)))
unfolding list_get list_index_of
list_get-list_index_of fuel l cs x h f = (
  get_loop_lem fuel l.node l.head x 0 cs f (omega arith) h.chain
      ∙ ap (λ i. done (get_elem? (values cs) i)) (omega arith),
  index_loop_lem fuel l.node l.head x 0 cs f h.chain,
)

-- `list_destroy` of a list with a node reads a node that it has freed.
pub list_destroy-fault :
    (fuel : ℕ) (l : Store) (c : ℕ × ℕ) (cs : Cells)
    → IsList l (c ∷ cs)
    → list_destroy (suc fuel) l ≡ fault
unfolding list_destroy destroy_loop
list_destroy-fault fuel l (a, w) cs h =
    let (e, nz, (q, at, rest)) = h.chain in
    let go : (l.head == 0) ≡ false = ground arith in
    let at_head : l.node l.head ≡ some (record { next = q; value = w }) = ap l.node e ∙ at in
    let freed : (l.head == l.head) ≡ true = ground arith in rw (go, at_head, freed) refl
