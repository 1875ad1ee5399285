-- ===== src/Paging/Map.antt =====
-- `arch_mm_map`: the page is mapped as asked, and every other page is as before.
use garn_os.Prelude.{ℕ, ◌+◌, ◌/◌, ◌%◌, ◌^◌, ◌≤◌, ◌<◌, ◌≡◌, ◌∙◌, sym, ap, ap₂, arith, if◌then◌else◌}
use garn_os.Prelude.Run.{Run, ran, panicked, ◌>>=◌}
use garn_os.Pmm.Alloc.{free_pages_of_NoRun}
use garn_os.Paging.{Entry, Vmm, Indices, write, with_flags, mm_indexer, arch_mm_map}
use garn_os.Paging.Walk.{path, leaf}
use garn_os.Paging.Tree.{Role, pdp, pd, child, IsTree}
use garn_os.Paging.Grow.{Grown, Made, next_table-Made}
use garn_os.Paging.Leaf.{Reaches, place_of, same_page, write-IsTree, leaf-write, leaf-Reaches}

-- The entry that `arch_mm_map` writes over the entry `e` of a page.
abbrev pub mapped_entry : Entry → ℕ → ℕ → Entry
mapped_entry e phys flags = with_flags (record e { addr = phys / 2 ^ 12 % 2 ^ 51 }) flags

-- `v'` is an address space that sees `new` at the page of `x`, and what `v` sees at every other; at
-- most three pages were taken.
pub record Changed (top : ℕ) (v : Vmm) (x : Indices) (new : Entry) (v' : Vmm) : Type 0 where
  pub role : ℕ → Role
  pub tree : IsTree role top v'
  pub view :
      (y : Indices) → leaf v'.tables top y ≡ (if same_page y x then new else leaf v.tables top y)
  pub cost : v.pmm.free_pages ≤ v'.pmm.free_pages + 3

-- Three tables can be missing, so a panic means that fewer than three pages were free.
abbrev pub Mapped : ℕ → Vmm → Indices → ℕ → ℕ → Run Vmm → Type 0
Mapped top v x phys flags (ran v') =
    Changed top v x (mapped_entry (leaf v.tables top x) phys flags) v'
Mapped top v x phys flags panicked = v.pmm.free_pages < 3

-- The write at the end of `arch_mm_map`.
finish : Indices → ℕ → ℕ → ℕ → Vmm → Run Vmm
finish x phys flags f w =
    ran (record w { tables = write w.tables f x.p (mapped_entry (w.tables f x.p) phys flags) })

module _ (top : ℕ) (v : Vmm) (phys flags : ℕ) (x : Indices) where
  finish-Mapped :
      (f : ℕ) (w : Vmm) (role' : ℕ → Role)
      → IsTree role' top w
      → role' f ≡ place_of x
      → Reaches w.tables top x f
      → ((y : Indices) → leaf w.tables top y ≡ leaf v.tables top y)
      → v.pmm.free_pages ≤ w.pmm.free_pages + 3
      → Mapped top v x phys flags (finish x phys flags f w)
  unfolding finish
  finish-Mapped f w role' tree' place reach same cost =
      let entry = sym (leaf-Reaches w.tables top f x reach) ∙ same x in
      record {
        role = role';
        tree = write-IsTree role' top w x f _ tree' place;
        view = λ y.
            leaf-write role' top w x f _ tree' place y reach
            ∙ ap₂ (λ e o. if same_page y x then mapped_entry e phys flags else o) entry (same y);
        cost = cost;
      }

  then-Made :
      (role : ℕ → Role) (f i : ℕ) (w : Vmm) (r : Run (ℕ × Vmm)) (k : ℕ × Vmm → Run Vmm)
      → IsTree role top w
      → v.pmm.free_pages < w.pmm.free_pages + 3
      → Made role top f i w r
      → ((g : ℕ) (w' : Vmm) → Grown role top f i w g w' → Mapped top v x phys flags (k (g, w')))
      → Mapped top v x phys flags (r >>= k)
  then-Made role f i w (ran (g, w')) k tree cost made next = next g w' made
  then-Made role f i w panicked k tree cost made next =
      omega (arith, free_pages_of_NoRun w.pmm tree.valid made)

leaf-Grown :
    (role : ℕ → Role) (top f i : ℕ) (v : Vmm) (g : ℕ) (v' : Vmm)
    → IsTree role top v
    → Grown role top f i v g v'
    → (y : Indices) → leaf v'.tables top y ≡ leaf v.tables top y
leaf-Grown role top f i v g v' tree grown y =
    grown.view top y.pdp (path y) (rw tree.rooted) (rw tree.rooted)

-- Three tables made in turn, each at the entry that leads to the next.
module _ (top : ℕ) (x : Indices) (role : ℕ → Role) (v0 v1 v2 v3 : Vmm) (g1 g2 g3 : ℕ)
    (tree : IsTree role top v0) (m1 : Grown role top top x.pdp v0 g1 v1)
    (m2 : Grown m1.role' top g1 x.pd v1 g2 v2) (m3 : Grown m2.role' top g2 x.pt v2 g3 v3) where
  place1 : m1.role' g1 ≡ pdp x.pdp
  place1 = m1.place ∙ ap (λ r. child r x.pdp) tree.rooted

  place2 : m2.role' g2 ≡ pd x.pdp x.pd
  place2 = m2.place ∙ ap (λ r. child r x.pd) place1

  pub place3 : m3.role' g3 ≡ place_of x
  place3 = m3.place ∙ ap (λ r. child r x.pt) place2

  -- The entry at the top, and that in the first table made, are not touched later.
  top2 : v2.tables top x.pdp ≡ v1.tables top x.pdp
  top2 = m2.links top x.pdp (rw m1.tree.rooted) m1.present

  top3 : v3.tables top x.pdp ≡ v1.tables top x.pdp
  top3 = m3.links top x.pdp (rw m2.tree.rooted) (rw top2 m1.present) ∙ top2

  mid3 : v3.tables g1 x.pd ≡ v2.tables g1 x.pd
  mid3 = m3.links g1 x.pd (rw (m2.same_roles g1 (rw place1), place1)) m2.present

  pub chain-Reaches : Reaches v3.tables top x g3
  chain-Reaches = record {
    first = rw top3 m1.present;
    second = rw (top3, m1.target, mid3) m2.present;
    third = rw (top3, m1.target, mid3, m2.target) m3.present;
    last = rw (top3, m1.target, mid3, m2.target) m3.target;
  }

  pub same_leaf : (y : Indices) → leaf v3.tables top y ≡ leaf v0.tables top y
  same_leaf y =
      leaf-Grown m2.role' top g2 x.pt v2 g3 v3 m2.tree m3 y
      ∙ leaf-Grown m1.role' top g1 x.pd v1 g2 v2 m1.tree m2 y
      ∙ leaf-Grown role top top x.pdp v0 g1 v1 tree m1 y

-- On an address space that is a tree, `arch_mm_map` makes the page of `virt` see the frame of
-- `phys` with the given flags, leaves what every other page sees, keeps the tree, and takes at most
-- three pages. It panics only with fewer than three free pages.
pub arch_mm_map-Mapped :
    (role : ℕ → Role) (top : ℕ) (v : Vmm) (phys virt flags : ℕ)
    → IsTree role top v
    → Mapped top v (mm_indexer virt) phys flags (arch_mm_map v top phys virt flags)
unfolding arch_mm_map finish
arch_mm_map-Mapped role top v phys virt flags tree =
    let x = mm_indexer virt in
    then-Made top v phys flags x role top x.pdp v _ _ tree (omega arith)
      (next_table-Made role top top x.pdp flags v tree (rw tree.rooted (omega arith)))
      λ g1 v1 m1.
        let p1 : m1.role' g1 ≡ pdp x.pdp = m1.place ∙ ap (λ r. child r x.pdp) tree.rooted in
        then-Made top v phys flags x m1.role' g1 x.pd v1 _ _ m1.tree (omega (arith, m1.cost))
          (next_table-Made m1.role' top g1 x.pd flags v1 m1.tree (rw p1 (omega arith)))
          λ g2 v2 m2.
            let p2 : m2.role' g2 ≡ pd x.pdp x.pd = m2.place ∙ ap (λ r. child r x.pd) p1 in
            then-Made top v phys flags x m2.role' g2 x.pt v2 _ _ m2.tree
              (omega (arith, m1.cost, m2.cost))
              (next_table-Made m2.role' top g2 x.pt flags v2 m2.tree (rw p2 (omega arith)))
              λ g3 v3 m3.
                finish-Mapped top v phys flags x g3 v3 m3.role' m3.tree
                  (place3 top x role v v1 v2 v3 g1 g2 g3 tree m1 m2 m3)
                  (chain-Reaches top x role v v1 v2 v3 g1 g2 g3 tree m1 m2 m3)
                  (same_leaf top x role v v1 v2 v3 g1 g2 g3 tree m1 m2 m3)
                  (omega (arith, m1.cost, m2.cost, m3.cost))
