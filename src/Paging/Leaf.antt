-- ===== src/Paging/Leaf.antt =====
-- A write to one entry of a last-level table changes what one page sees, and no other.
use garn_os.Prelude.{
  ℕ, ◌<◌, ◌≡◌, ◌∙◌, refl, sym, ap, Bool, true, false, ◌&&◌, arith, if◌then◌else◌, ◌==◌, ◌⊎◌,
  Bool-cases, inl, inr, not_both, eq_of_tests,
}
use garn_os.Paging.{Entry, zero_entry, Tables, Vmm, Indices, write, is_absent}
use garn_os.Paging.Walk.{observe, leaf}
use garn_os.Paging.Tree.{Role, root, pdp, pd, pt, child, height, IsTree}

-- The place to which the indices of `x` lead.
abbrev pub place_of : Indices → Role
place_of x = pt x.pdp x.pd x.pt

-- Every table on the way to `x` is there, and the last is in frame `f`.
pub record Reaches (t : Tables) (top : ℕ) (x : Indices) (f : ℕ) : Type 0 where
  pub first : (t top x.pdp).present ≡ true
  pub second : (t (t top x.pdp).addr x.pd).present ≡ true
  pub third : (t (t (t top x.pdp).addr x.pd).addr x.pt).present ≡ true
  pub last : (t (t (t top x.pdp).addr x.pd).addr x.pt).addr ≡ f

present_there : (e : Entry) → e.present ≡ true → is_absent e ≡ false
present_there e p = rw p

pub leaf-Reaches :
    (t : Tables) (top f : ℕ) (x : Indices) → Reaches t top x f → leaf t top x ≡ t f x.p
unfolding observe
leaf-Reaches t top f x r = rw (
  present_there (t top x.pdp) r.first,
  present_there (t (t top x.pdp).addr x.pd) r.second,
  present_there (t (t (t top x.pdp).addr x.pd).addr x.pt) r.third,
  r.last,
)

-- `t'` has the same directories as the address space of `role`.
abbrev pub SameDirs : (ℕ → Role) → Tables → Tables → Type 0
SameDirs role t t' = (h j : ℕ) → 0 < height (role h) → t' h j ≡ t h j

-- A page has no last table, or has one at its place, whatever the last tables hold.
abbrev pub Walked : (ℕ → Role) → ℕ → Tables → Indices → Type 0
Walked role top t y =
    ((t' : Tables) → SameDirs role t t' → leaf t' top y ≡ zero_entry)
    ⊎ ((h : ℕ) × ((t' : Tables) → SameDirs role t t' → Reaches t' top y h) × (role h ≡ place_of y))

module _ (role : ℕ → Role) (top : ℕ) (v : Vmm) (tree : IsTree role top v) where
  abbrev t : Tables
  t = v.tables

  link_or_hole :
      (h j : ℕ) (r : Role)
      → role h ≡ r
      → 0 < height r
      → (is_absent (t h j) ≡ true) ⊎ (((t h j).present ≡ true) × (role (t h j).addr ≡ child r j))
  link_or_hole h j r e d = elim (Bool-cases (t h j).present) [
    | inl p ↦ inr (p, tree.linked h j (rw e d) p ∙ ap (λ r. child r j) e)
    | inr p ↦ inl (ground (arith, p, tree.broken h j (rw e d) p))
  ]

  at_top : (t' : Tables) (y : Indices) → SameDirs role t t' → t' top y.pdp ≡ t top y.pdp
  at_top t' y same = same top y.pdp (rw tree.rooted (omega arith))

  -- Tables on the way that are there stay there.
  Reaches-same :
      (y : Indices) (h : ℕ)
      → Reaches t top y h
      → (t' : Tables) → SameDirs role t t'
      → Reaches t' top y h
  Reaches-same y h r t' same =
      let r1 =
        tree.linked top y.pdp (rw tree.rooted (omega arith)) r.first
        ∙ ap (λ r. child r y.pdp) tree.rooted in
      let r2 =
        tree.linked (t top y.pdp).addr y.pd (rw r1 (omega arith)) r.second
        ∙ ap (λ r. child r y.pd) r1 in
      let s1 = at_top t' y same in
      let s2 = same (t top y.pdp).addr y.pd (rw r1 (omega arith)) in
      let s3 = same (t (t top y.pdp).addr y.pd).addr y.pt (rw r2 (omega arith)) in
      record {
        first = rw s1 r.first;
        second = rw (s1, s2) r.second;
        third = rw (s1, s2, s3) r.third;
        last = rw (s1, s2, s3) r.last;
      }

  -- The last step down, from a table whose role is known.
  walk3 :
      (y : Indices)
      → (t top y.pdp).present ≡ true
      → (t (t top y.pdp).addr y.pd).present ≡ true
      → role (t top y.pdp).addr ≡ pdp y.pdp
      → role (t (t top y.pdp).addr y.pd).addr ≡ pd y.pdp y.pd
      → Walked role top t y
  unfolding observe
  walk3 y p1 p2 r1 r2 =
      elim (link_or_hole (t (t top y.pdp).addr y.pd).addr y.pt _ r2 (omega arith)) [
        | inl gone ↦ inl λ t' same. rw (
          at_top t' y same,
          present_there (t top y.pdp) p1,
          same (t top y.pdp).addr y.pd (rw r1 (omega arith)),
          present_there (t (t top y.pdp).addr y.pd) p2,
          same (t (t top y.pdp).addr y.pd).addr y.pt (rw r2 (omega arith)),
          gone,
        )
        | inr (p3, r3) ↦ inr (
          (t (t (t top y.pdp).addr y.pd).addr y.pt).addr,
          Reaches-same y _ (record { first = p1; second = p2; third = p3; last = refl }),
          r3,
        )
      ]

  pub walked : (y : Indices) → Walked role top t y
  unfolding observe
  walked y = elim (link_or_hole top y.pdp root tree.rooted (omega arith)) [
    | inl gone ↦ inl (λ t' same. rw (at_top t' y same, gone))
    | inr (p1, r1) ↦ elim (link_or_hole (t top y.pdp).addr y.pd _ r1 (omega arith)) [
      | inl gone ↦ inl (λ t' same. rw (
        at_top t' y same,
        present_there (t top y.pdp) p1,
        same (t top y.pdp).addr y.pd (rw r1 (omega arith)),
        gone,
      ))
      | inr (p2, r2) ↦ walk3 y p1 p2 r1 r2
    ]
  ]

-- The indices of one page.
abbrev pub same_page : Indices → Indices → Bool
same_page y x = (y.pdp == x.pdp) && (y.pd == x.pd) && (y.pt == x.pt) && (y.p == x.p)

same_of_place : (x y : Indices) → place_of y ≡ place_of x → y.p ≡ x.p → same_page y x ≡ true
same_of_place x y e p = ground arith

eq_of_same_page : (x y : Indices) → same_page y x ≡ true → y ≡ x
eq_of_same_page x y same = ground arith

module _ (role : ℕ → Role) (top : ℕ) (v : Vmm) (x : Indices) (f : ℕ) (new : Entry)
    (tree : IsTree role top v) (last : role f ≡ place_of x) where
  abbrev t' : Tables
  t' = write v.tables f x.p new

  pub dir-same : SameDirs role v.tables t'
  dir-same h j d = rw not_here
    where
      not_here : ((h == f) && (j == x.p)) ≡ false
      not_here = ground (arith, d, last)

  pub write-IsTree : IsTree role top (record v { tables = t' })
  write-IsTree = record {
    valid = tree.valid;
    fits = tree.fits;
    rooted = tree.rooted;
    linked = λ h j d p.
        let e = dir-same h j d in
        ap (λ a. role a.addr) e ∙ tree.linked h j d (ap (λ a. a.present) (sym e) ∙ p);
    broken = λ h j d p.
        let e = dir-same h j d in
        ap (λ a. a.addr) e ∙ tree.broken h j d (ap (λ a. a.present) (sym e) ∙ p);
    owned = tree.owned;
  }

  other_page :
      (y : Indices)
      → same_page y x ≡ false
      → Walked role top v.tables y
      → leaf t' top y ≡ leaf v.tables top y
  other_page y ne (inl gone) = gone t' dir-same ∙ sym (gone v.tables (λ h j d. refl))
  other_page y ne (inr (h, reach, place)) =
      leaf-Reaches t' top h y (reach t' dir-same)
      ∙ untouched
      ∙ sym (leaf-Reaches v.tables top h y (reach v.tables (λ h j d. refl)))
    where
      not_here : ((h == f) && (y.p == x.p)) ≡ false
      not_here = elim (Bool-cases ((h == f) && (y.p == x.p))) [
        | inl here ↦
            let e = eq_of_tests h f y.p x.p here in
            absurd (not_both _ (same_of_place x y (sym place ∙ ap role e.0 ∙ last) e.1) ne)
        | inr there ↦ there
      ]

      untouched : t' h y.p ≡ v.tables h y.p
      untouched = rw not_here

  at_entry : ((f == f) && (x.p == x.p)) ≡ true
  at_entry = ground arith

  -- A page sees the new entry if its indices are those of `x`, and else what it saw before.
  pub leaf-write :
      (y : Indices)
      → Reaches v.tables top x f
      → leaf t' top y ≡ (if same_page y x then new else leaf v.tables top y)
  leaf-write y r = elim (Bool-cases (same_page y x)) [
    | inl same ↦
        rw (same, eq_of_same_page x y same)
          (leaf-Reaches t' top f x (Reaches-same role top v tree x f r t' dir-same) ∙ rw at_entry)
    | inr ne ↦ rw ne (other_page y ne (walked role top v tree y))
  ]
