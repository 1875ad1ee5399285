-- ===== src/Paging/Tree.antt =====
-- The invariant of an address space: its tables form a tree in frames of their own.
-- `role` says of each frame which place in the tree its table has, so two places never share one.
use garn_os.Prelude.{ℕ, suc, ◌*◌, ◌^◌, ◌≤◌, ◌≡◌, refl, Bool, true, false, arith, ◌<◌}
use garn_os.Pmm.Scan.{page_used}
use garn_os.Pmm.Count.{IsValid}
use garn_os.Paging.{Vmm}

-- A place in the tree, by the indices that lead to it; `other` is a frame of no table.
pub data Role : Type 0 where
  root other : Role
  pdp : ℕ → Role
  pd : ℕ → ℕ → Role
  pt : ℕ → ℕ → ℕ → Role

abbrev pub child : Role → ℕ → Role
child root a = pdp a
child other a = other
child (pdp a) b = pd a b
child (pd a b) c = pt a b c
child (pt a b c) d = other

-- How many levels lie below; a frame of no table has none.
abbrev pub height : Role → ℕ
height root = 3
height other = 0
height (pdp a) = 2
height (pd a b) = 1
height (pt a b c) = 0

abbrev pub is_other : Role → Bool
is_other root = false
is_other other = true
is_other (pdp a) = false
is_other (pd a b) = false
is_other (pt a b c) = false

pub record IsTree (role : ℕ → Role) (top : ℕ) (v : Vmm) : Type 0 where
  pub valid : IsValid v.pmm
  pub fits : v.pmm.bitmap_size * 8 ≤ 2 ^ 51
  pub rooted : role top ≡ root
  pub linked :
      (f i : ℕ)
      → 0 < height (role f)
      → (v.tables f i).present ≡ true
      → role (v.tables f i).addr ≡ child (role f) i
  pub broken :
      (f i : ℕ) → 0 < height (role f) → (v.tables f i).present ≡ false → (v.tables f i).addr ≡ 0
  pub owned : (f : ℕ) → is_other (role f) ≡ false → page_used v.pmm.bitmap f ≡ true

pub dir_not_other : (r : Role) → 0 < height r → is_other r ≡ false
dir_not_other root h = refl
dir_not_other other h = absurd (omega arith)
dir_not_other (pdp a) h = refl
dir_not_other (pd a b) h = refl
dir_not_other (pt a b c) h = refl

pub child_not_other : (r : Role) (i : ℕ) → 0 < height r → is_other (child r i) ≡ false
child_not_other root i h = refl
child_not_other other i h = absurd (omega arith)
child_not_other (pdp a) i h = refl
child_not_other (pd a b) i h = refl
child_not_other (pt a b c) i h = absurd (omega arith)

pub height-child : (r : Role) (i : ℕ) (n : ℕ) → height r ≡ suc n → height (child r i) ≡ n
height-child root i n h = omega arith
height-child other i n h = absurd (omega arith)
height-child (pdp a) i n h = omega arith
height-child (pd a b) i n h = omega arith
height-child (pt a b c) i n h = absurd (omega arith)
