-- ===== src/LinkedList/Chain.antt =====
-- The nodes of a list in memory, as cells: an address and a value each.
use garn_os.Prelude.{ℕ, ◌^◌, ◌<◌, ◌≡◌, ◌≢◌, arith, false, Option, some, List, [], ◌∷◌, length, ◌==◌}
use garn_os.LinkedList.{Node, Memory, Store, put}

abbrev pub Cells : Type 0
Cells = List (ℕ × ℕ)

abbrev pub NotIn : ℕ → Cells → Type 0
NotIn a [] = Unit
NotIn a ((b, w) ∷ cs) = (a ≢ b) × NotIn a cs

abbrev pub Distinct : Cells → Type 0
Distinct [] = Unit
Distinct ((a, w) ∷ cs) = NotIn a cs × Distinct cs

-- From `p` on, memory holds the cells, and ends with the null pointer.
abbrev pub Chain : Memory → ℕ → Cells → Type 0
Chain m p [] = p ≡ 0
Chain m p ((a, w) ∷ cs) =
    (p ≡ a) × (a ≢ 0) × ((q : ℕ) × (m a ≡ some (record { next = q; value = w })) × Chain m q cs)

abbrev pub last_address : ℕ → Cells → ℕ
last_address d [] = d
last_address d ((a, w) ∷ cs) = last_address a cs

abbrev pub values : Cells → List ℕ
values [] = []
values ((a, w) ∷ cs) = w ∷ values cs

-- The list holds the cells.
pub record IsList (l : Store) (cs : Cells) : Type 0 where
  pub chain : Chain l.node l.head cs
  pub distinct : Distinct cs
  pub tail : l.tail ≡ last_address 0 cs
  pub few : length cs < 2 ^ 64
  pub count : l.node_count ≡ length cs

-- A write elsewhere leaves a chain.
pub Chain-put :
    (m : Memory) (x : ℕ) (c : Option Node) (p : ℕ) (cs : Cells)
    → NotIn x cs
    → Chain m p cs
    → Chain (put m x c) p cs
Chain-put m x c p [] out h = h
Chain-put m x c p ((a, w) ∷ cs) (ne, out) (e, nz, (q, at, rest)) =
    let other : (a == x) ≡ false = ground arith in
    (e, nz, (q, rw other at, Chain-put m x c q cs out rest))
