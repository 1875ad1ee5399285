-- ===== src/Vaspace/Range.antt =====
-- `vmm_map_range`: the pages of the range translate in order, and all others as before.
use garn_os.Prelude.{
  ℕ, zero, suc, ◌+◌, ◌-◌, ◌*◌, ◌/◌, ◌%◌, ◌^◌, ◌≤◌, ◌<◌, ◌≡◌, ◌∙◌, refl, ap, arith, if◌then◌else◌,
  ◌==◌, ◌⊎◌, inl, inr,
}
use garn_os.Prelude.Run.{Run, ran, panicked, ◌>>=◌}
use garn_os.Pmm.{page_size}
use garn_os.Pmm.Marks.{within}
use garn_os.Paging.{Vmm, Entry, mm_indexer, vmm_map, arch_mm_virt_to_phys}
use garn_os.Paging.Tree.{Role, IsTree}
use garn_os.Paging.Map.{Mapped, Changed, arch_mm_map-Mapped}
use garn_os.Paging.Pages.{page_of, virt_to_phys-Changed}
use garn_os.Vaspace.{map_pages, vmm_map_range, rounds}

-- The translation of `w` when `k` pages from `virt` on lead to those from `phys` on.
abbrev pub translation : Vmm → ℕ → ℕ → ℕ → ℕ → ℕ → ℕ
translation v pt k phys virt w =
    if within (page_of virt) k (page_of w)
    then (phys / 2 ^ 12 + (page_of w - page_of virt)) * 2 ^ 12
    else arch_mm_virt_to_phys v.tables pt w

pub record RangeMapped (k pt phys virt : ℕ) (v v' : Vmm) : Type 0 where
  pub role : ℕ → Role
  pub tree : IsTree role pt v'
  pub view : (w : ℕ) → arch_mm_virt_to_phys v'.tables pt w ≡ translation v pt k phys virt w

-- At most three tables can be missing for each of `k` pages.
abbrev pub RangeResult : ℕ → ℕ → ℕ → ℕ → Vmm → Run Vmm → Type 0
RangeResult k pt phys virt v (ran v') = RangeMapped k pt phys virt v v'
RangeResult k pt phys virt v panicked = v.pmm.free_pages < 3 * k

-- The step of the induction, in page numbers: `p` and `q` are the pages of `virt` and `w`, `p'` is
-- the page after `p`, and `f` the frame of `phys`.
one_more :
    (p p' q k f f' a0 a1 a2 : ℕ)
    → (k ≡ 0) ⊎ (p' ≡ p + 1)
    → f' ≡ f + 1
    → a1 ≡ (if q == p then f * 2 ^ 12 else a0)
    → a2 ≡ (if within p' k q then (f' + (q - p')) * 2 ^ 12 else a1)
    → a2 ≡ (if within p (suc k) q then (f + (q - p)) * 2 ^ 12 else a0)
one_more p p' q k f f' a0 a1 a2 (inl last) next_frame first rest = ground arith
one_more p p' q k f f' a0 a1 a2 (inr next) next_frame first rest = ground (arith, same_frame)
  where
    same_frame : p < q → f' + (q - p') ≡ f + (q - p)
    same_frame lt = omega arith

next_page :
    (virt k : ℕ)
    → virt / 2 ^ 12 + suc k ≤ 2 ^ 36
    → (k ≡ 0) ⊎ (page_of ((virt + page_size) % 2 ^ 64) ≡ page_of virt + 1)
next_page virt zero fits = inl refl
next_page virt (suc k) fits = inr (omega arith)

abbrev next : ℕ → ℕ
next a = (a + page_size) % 2 ^ 64

-- A first page mapped, and `k` pages behind it.
add_first :
    (k pt phys virt : ℕ) (v v1 : Vmm) (new : Entry) (r : Run Vmm)
    → virt / 2 ^ 12 + suc k ≤ 2 ^ 36
    → phys + suc k * page_size ≤ 2 ^ 51
    → Changed pt v (mm_indexer virt) new v1
    → new.addr ≡ phys / 2 ^ 12 % 2 ^ 51
    → RangeResult k pt (next phys) (next virt) v1 r
    → RangeResult (suc k) pt phys virt v r
add_first k pt phys virt v v1 new panicked fits room c at rest = omega (arith, c.cost)
add_first k pt phys virt v v1 new (ran v2) fits room c at rest = record {
  role = rest.role;
  tree = rest.tree;
  view = λ w.
      one_more (page_of virt) (page_of (next virt)) (page_of w) k (phys / 2 ^ 12)
        (next phys / 2 ^ 12) (arch_mm_virt_to_phys v.tables pt w)
        (arch_mm_virt_to_phys v1.tables pt w) (arch_mm_virt_to_phys v2.tables pt w)
        (next_page virt k fits) (omega arith)
        (virt_to_phys-Changed pt v v1 virt new c w
          ∙ ap (λ a. if page_of w == page_of virt then a else arch_mm_virt_to_phys v.tables pt w)
              (frame at))
        (rest.view w);
}
  where
    frame : new.addr ≡ phys / 2 ^ 12 % 2 ^ 51 → new.addr * 2 ^ 12 % 2 ^ 51 ≡ phys / 2 ^ 12 * 2 ^ 12
    frame at = omega arith

then_rest :
    (k pt phys virt flags : ℕ) (v : Vmm) (r : Run Vmm) (rest : Vmm → Run Vmm)
    → virt / 2 ^ 12 + suc k ≤ 2 ^ 36
    → phys + suc k * page_size ≤ 2 ^ 51
    → Mapped pt v (mm_indexer virt) phys flags r
    → ((v1 : Vmm) (role : ℕ → Role)
        → IsTree role pt v1
        → RangeResult k pt (next phys) (next virt) v1 (rest v1))
    → RangeResult (suc k) pt phys virt v (r >>= rest)
then_rest k pt phys virt flags v (ran v1) rest fits room c more =
    add_first k pt phys virt v v1 _ (rest v1) fits room c refl (more v1 c.role c.tree)
then_rest k pt phys virt flags v panicked rest fits room c more = omega arith

map_pages-RangeResult :
    (k pt phys virt flags : ℕ) (v : Vmm) (role : ℕ → Role)
    → IsTree role pt v
    → virt / 2 ^ 12 + k ≤ 2 ^ 36
    → phys + k * page_size ≤ 2 ^ 51
    → RangeResult k pt phys virt v (map_pages k v pt phys virt flags)
unfolding map_pages vmm_map
map_pages-RangeResult zero pt phys virt flags v role tree fits room = record {
  role = role;
  tree = tree;
  view = λ w. ground arith;
}
map_pages-RangeResult (suc k) pt phys virt flags v role tree fits room =
    then_rest k pt phys virt (flags % 2 ^ 32) v _ _ fits room
      (arch_mm_map-Mapped role pt v phys virt (flags % 2 ^ 32) tree)
      λ v1 role' tree'.
        map_pages-RangeResult k pt (next phys) (next virt) flags v1 role' tree' (omega arith)
          (omega arith)

-- On an address space that is a tree, `vmm_map_range` makes every page of the range translate to the
-- frame at its distance from `phys`, leaves the translation of every other address, and keeps the
-- tree; it panics only with fewer than three free pages for each page of the range. The range,
-- rounded up to pages, lies below 2 ^ 48, and the physical one below 2 ^ 51.
pub vmm_map_range-RangeResult :
    (pt phys virt length flags : ℕ) (v : Vmm) (role : ℕ → Role)
    → IsTree role pt v
    → virt / 2 ^ 12 + rounds length ≤ 2 ^ 36
    → phys + rounds length * page_size ≤ 2 ^ 51
    → RangeResult (rounds length) pt phys virt v (vmm_map_range v pt phys virt length flags)
unfolding vmm_map_range
vmm_map_range-RangeResult pt phys virt length flags v role tree fits room =
    map_pages-RangeResult (rounds length) pt phys virt flags v role tree fits room
