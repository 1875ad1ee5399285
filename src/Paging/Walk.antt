-- ===== src/Paging/Walk.antt =====
-- The page tables seen as one map from pages to entries.
use garn_os.Prelude.{ℕ, ◌*◌, ◌%◌, ◌^◌, ◌≡◌, List, [], ◌∷◌, arith, if◌then◌else◌}
use garn_os.Paging.{
  Entry, zero_entry, Tables, mm_indexer, Indices, is_absent, arch_mm_is_page_free,
  arch_mm_virt_to_phys,
}

-- The entry at the end of a path of indices, a cleared one where the path breaks off.
unfoldable pub observe : Tables → ℕ → ℕ → List ℕ → Entry
observe t f i [] = t f i
observe t f i (j ∷ js) =
    let rest = observe t (t f i).addr j js in if is_absent (t f i) then zero_entry else rest

-- The indices below the top level.
abbrev pub path : Indices → List ℕ
path x = x.pd ∷ x.pt ∷ x.p ∷ []

abbrev pub leaf : Tables → ℕ → Indices → Entry
leaf t pt x = observe t pt x.pdp (path x)

pub is_page_free-leaf :
    (t : Tables) (pt virt : ℕ)
    → arch_mm_is_page_free t pt virt ≡ is_absent (leaf t pt (mm_indexer virt))
unfolding arch_mm_is_page_free observe
is_page_free-leaf t pt virt = ground arith

pub virt_to_phys-leaf :
    (t : Tables) (pt virt : ℕ)
    → arch_mm_virt_to_phys t pt virt
      ≡ (let e = leaf t pt (mm_indexer virt) in if is_absent e then 0 else e.addr * 2 ^ 12 % 2 ^ 51)
unfolding arch_mm_virt_to_phys observe
virt_to_phys-leaf t pt virt = ground arith
