-- ===== src/Paging/Grow.antt =====
-- `next_table`: a missing table is added, and no page is mapped or unmapped by that.
use garn_os.Prelude.{
  ℕ, ◌*◌, ◌/◌, ◌%◌, ◌^◌, ◌≤◌, ◌<◌, ◌≡◌, ◌∙◌, refl, sym, ap, true, false, ◌&&◌, List, [], ◌∷◌, arith,
  length, if◌then◌else◌, ◌==◌, Bool-cases, inl, inr, not_both, ==_iff, eq_of_tests, ap₂, ◌+◌,
}
use garn_os.Prelude.Run.{Run, ran, panicked, ◌>>=◌}
use garn_os.Pmm.{Pmm, pmm_allocate}
use garn_os.Pmm.Scan.{page_used}
use garn_os.Pmm.Ranges.{Marked}
use garn_os.Pmm.Find.{NoRun}
use garn_os.Pmm.Alloc.{Allocated, pmm_allocate-Allocated}
use garn_os.Paging.{Entry, zero_entry, Tables, Vmm, write, clear, has_flag, is_absent, next_table}
use garn_os.Paging.Walk.{observe}
use garn_os.Paging.Tree.{
  Role, child, height, is_other, IsTree, dir_not_other, child_not_other, height-child,
}

-- Walks of full length from tables of the tree see the same entries.
abbrev pub SameView : (ℕ → Role) → Tables → Tables → Type 0
SameView role t t' =
    (h j : ℕ) (js : List ℕ)
    → is_other (role h) ≡ false
    → height (role h) ≡ length js
    → observe t' h j js ≡ observe t h j js

-- Links stay: an entry of a table of the tree that is present is not changed.
abbrev pub KeepsLinks : (ℕ → Role) → Tables → Tables → Type 0
KeepsLinks role t t' =
    (h j : ℕ) → is_other (role h) ≡ false → (t h j).present ≡ true → t' h j ≡ t h j

pub record Grown (role : ℕ → Role) (top f i : ℕ) (v : Vmm) (g : ℕ) (v' : Vmm) : Type 0 where
  pub role' : ℕ → Role
  pub tree : IsTree role' top v'
  pub place : role' g ≡ child (role f) i
  pub same_roles : (h : ℕ) → is_other (role h) ≡ false → role' h ≡ role h
  pub present : (v'.tables f i).present ≡ true
  pub target : (v'.tables f i).addr ≡ g
  pub view : SameView role v.tables v'.tables
  pub links : KeepsLinks role v.tables v'.tables
  pub cost : v.pmm.free_pages ≤ v'.pmm.free_pages + 1

-- Entry `i` of table `f` leads to the new, cleared table `g`.
abbrev grown_tables : Tables → ℕ → ℕ → ℕ → Entry → Tables
grown_tables t f i g new = write (clear t g) f i new

module _ (role : ℕ → Role) (top f i : ℕ) (v : Vmm) (new : Entry) (g : ℕ) (pmm' : Pmm)
    (tree : IsTree role top v) (dir : 0 < height (role f))
    (missing : (v.tables f i).present ≡ false) (free : page_used v.pmm.bitmap g ≡ false)
    (m : Marked v.pmm g 1 pmm') (new_present : new.present ≡ true) (new_addr : new.addr ≡ g) where
  abbrev t : Tables
  t = v.tables

  abbrev t' : Tables
  t' = grown_tables v.tables f i g new

  abbrev role' : ℕ → Role
  role' h = if h == g then child (role f) i else role h

  fresh : is_other (role g) ≡ true
  fresh = elim (Bool-cases (is_other (role g))) [
    | inl o ↦ o
    | inr o ↦ absurd (not_both _ (tree.owned g o) free)
  ]

  not_fresh : (h : ℕ) → is_other (role h) ≡ false → (h == g) ≡ false
  not_fresh h o = elim (Bool-cases (h == g)) [
    | inl here ↦ absurd (not_both _ fresh (rw (← (==_iff h g).0 here) o))
    | inr there ↦ there
  ]

  from_not_fresh : (f == g) ≡ false
  from_not_fresh = not_fresh f (dir_not_other (role f) dir)

  same_role : (h : ℕ) → is_other (role h) ≡ false → role' h ≡ role h
  same_role h o = rw (not_fresh h o)

  at_new : (h j : ℕ) → ((h == f) && (j == i)) ≡ true → t' h j ≡ new
  at_new h j here = rw here

  place : role' g ≡ child (role f) i
  place = ground arith

  -- What is linked from the changed entry has the place below `f`.
  place_from :
      (h j : ℕ)
      → (h == g) ≡ false
      → ((h == f) && (j == i)) ≡ true
      → child (role f) i ≡ child (role' h) j
  place_from h j not_g here =
      let e = eq_of_tests h f j i here in
      rw not_g (ap₂ (λ a b. child (role a) b) (sym e.0) (sym e.1))

  at_fresh : (h j : ℕ) → (h == g) ≡ true → t' h j ≡ zero_entry
  at_fresh h j here = ground (arith, from_not_fresh)

  elsewhere : (h j : ℕ) → (h == g) ≡ false → ((h == f) && (j == i)) ≡ false → t' h j ≡ t h j
  elsewhere h j not_g not_here = rw (not_here, not_g)

  -- The old link of a directory of the tree, in the new roles.
  old_link :
      (h j : ℕ)
      → 0 < height (role h)
      → (t h j).present ≡ true
      → role' (t h j).addr ≡ child (role h) j
  old_link h j d p =
      same_role (t h j).addr (rw (tree.linked h j d p) (child_not_other (role h) j d))
      ∙ tree.linked h j d p

  new_link :
      (h j : ℕ)
      → 0 < height (role' h)
      → (t' h j).present ≡ true
      → role' (t' h j).addr ≡ child (role' h) j
  new_link h j d p = elim (Bool-cases (h == g)) [
    | inl here ↦ absurd (not_both _ p (ap (λ x. x.present) (at_fresh h j here)))
    | inr not_g ↦ elim (Bool-cases ((h == f) && (j == i))) [
      | inl here ↦
          ap (λ x. role' x.addr) (at_new h j here)
          ∙ ap role' new_addr
          ∙ place
          ∙ place_from h j not_g here
      | inr not_here ↦
          let old = elsewhere h j not_g not_here in
          let place_h : role' h ≡ role h = rw not_g in
          let dir_h : 0 < height (role h) = rw (← place_h) d in
          ap (λ x. role' x.addr) old
          ∙ old_link h j dir_h (ap (λ x. x.present) (sym old) ∙ p)
          ∙ ap (λ r. child r j) (sym place_h)
    ]
  ]

  new_break : (h j : ℕ) → 0 < height (role' h) → (t' h j).present ≡ false → (t' h j).addr ≡ 0
  new_break h j d p = elim (Bool-cases (h == g)) [
    | inl here ↦ ap (λ x. x.addr) (at_fresh h j here)
    | inr not_g ↦ elim (Bool-cases ((h == f) && (j == i))) [
      | inl here ↦ absurd (not_both _ (ap (λ x. x.present) (at_new h j here) ∙ new_present) p)
      | inr not_here ↦
          let old = elsewhere h j not_g not_here in
          let place_h : role' h ≡ role h = rw not_g in
          ap (λ x. x.addr) old
          ∙ tree.broken h j (rw (← place_h) d) (ap (λ x. x.present) (sym old) ∙ p)
    ]
  ]

  grown-IsTree : IsTree role' top (record { pmm = pmm'; tables = t' })
  grown-IsTree = record {
    valid = m.valid;
    fits = omega (arith, tree.fits, m.same_size);
    rooted = same_role top (rw tree.rooted) ∙ tree.rooted;
    linked = new_link;
    broken = new_break;
    owned = λ h o. ground (arith, m.marks h, tree.owned h);
  }

  -- A walk that starts in the new table ends in a cleared entry.
  from_fresh : (j : ℕ) (js : List ℕ) → observe t' g j js ≡ zero_entry
  unfolding observe
  from_fresh j [] = at_fresh g j (ground arith)
  from_fresh j (k ∷ ks) = rw (at_fresh g j (ground arith))

  hole_absent : is_absent (t f i) ≡ true
  hole_absent = ground (arith, missing, tree.broken f i dir missing)

  old_present : (h j : ℕ) → 0 < height (role h) → is_absent (t h j) ≡ false → (t h j).present ≡ true
  old_present h j d there = elim (Bool-cases (t h j).present) [
    | inl p ↦ p
    | inr p ↦ absurd (ground (arith, p, there, tree.broken h j d p))
  ]

  view_here :
      (h j k : ℕ) (ks : List ℕ)
      → ((h == f) && (j == i)) ≡ true
      → observe t' h j (k ∷ ks) ≡ observe t h j (k ∷ ks)
  unfolding observe
  view_here h j k ks here =
      let e = eq_of_tests h f j i here in
      rw (e.0, e.1, at_new f i (ground arith), hole_absent, new_present, new_addr) (from_fresh k ks)

  grown-view : SameView role t t'
  unfolding observe
  grown-view h j [] o level = elsewhere h j (not_fresh h o) (ground arith)
  grown-view h j (k ∷ ks) o level = elim (Bool-cases ((h == f) && (j == i))) [
    | inl here ↦ view_here h j k ks here
    | inr not_here ↦
        let d : 0 < height (role h) = omega arith in
        elim (Bool-cases (is_absent (t h j))) [
          | inl gone ↦ rw (elsewhere h j (not_fresh h o) not_here, gone)
          | inr there ↦
              let link = tree.linked h j d (old_present h j d there) in
              rw (elsewhere h j (not_fresh h o) not_here, there)
                (grown-view (t h j).addr k ks (rw link (child_not_other (role h) j d))
                  (rw link (height-child (role h) j (length ks) (omega arith))))
        ]
  ]

  grown-links : KeepsLinks role t t'
  grown-links h j o p = elsewhere h j (not_fresh h o) (elim (Bool-cases ((h == f) && (j == i))) [
    | inl here ↦
        let e = eq_of_tests h f j i here in absurd (not_both _ (rw (← e.0, ← e.1) p) missing)
    | inr there ↦ there
  ])

  grow-Grown : Grown role top f i v g (record { pmm = pmm'; tables = t' })
  grow-Grown = record {
    role' = role';
    tree = grown-IsTree;
    place = place;
    same_roles = same_role;
    present = ap (λ x. x.present) (at_new f i (ground arith)) ∙ new_present;
    target = ap (λ x. x.addr) (at_new f i (ground arith)) ∙ new_addr;
    view = grown-view;
    links = grown-links;
    cost = omega (arith, m.free);
  }

-- The table below is there afterwards, or no page is left for it.
abbrev pub Made : (ℕ → Role) → ℕ → ℕ → ℕ → Vmm → Run (ℕ × Vmm) → Type 0
Made role top f i v (ran (g, v')) = Grown role top f i v g v'
Made role top f i v panicked = NoRun v.pmm.bitmap 0 (v.pmm.bitmap_size * 8) 1

there-Grown :
    (role : ℕ → Role) (top f i : ℕ) (v : Vmm)
    → IsTree role top v
    → 0 < height (role f)
    → (v.tables f i).present ≡ true
    → Grown role top f i v (v.tables f i).addr v
there-Grown role top f i v tree dir p = record {
  role' = role;
  tree = tree;
  place = tree.linked f i dir p;
  same_roles = λ h o. refl;
  present = p;
  target = refl;
  view = λ h j js o level. refl;
  links = λ h j o q. refl;
  cost = omega arith;
}

added-Made :
    (role : ℕ → Role) (top f i flags : ℕ) (v : Vmm) (r : Run (ℕ × Pmm))
    → IsTree role top v
    → 0 < height (role f)
    → (v.tables f i).present ≡ false
    → Allocated v.pmm (v.pmm.bitmap_size * 8) 1 r
    → Made role top f i v (
        r >>= λ r.
        let g = r.0 / 2 ^ 12 in
        ran (
          g,
          record {
            pmm = r.1;
            tables = write (clear v.tables g) f i (record (v.tables f i) {
              addr = g % 2 ^ 51;
              present = true;
              read_write = true;
              user_supervisor = has_flag flags 2;
            });
          },
        ))
added-Made role top f i flags v (ran (base, pmm')) tree dir missing (page, at, fits, free, m) =
    let g : base / 2 ^ 12 ≡ page = omega arith in
    rw g (
      grow-Grown role top f i v _ page pmm' tree dir missing (free page (omega arith) (omega arith))
        m refl (omega (arith, tree.fits)))
added-Made role top f i flags v panicked tree dir missing o = o

pub next_table-Made :
    (role : ℕ → Role) (top f i flags : ℕ) (v : Vmm)
    → IsTree role top v
    → 0 < height (role f)
    → Made role top f i v (next_table v f i flags)
unfolding next_table
next_table-Made role top f i flags v tree dir = elim (Bool-cases (v.tables f i).present) [
  | inl p ↦ rw p (there-Grown role top f i v tree dir p)
  | inr missing ↦ rw missing (
      added-Made role top f i flags v (pmm_allocate v.pmm 1) tree dir missing
        (pmm_allocate-Allocated v.pmm 1 tree.valid (omega arith)))
]
