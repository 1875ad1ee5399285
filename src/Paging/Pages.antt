-- ===== src/Paging/Pages.antt =====
-- What mapping and unmapping do to the translation of every virtual address.
use garn_os.Prelude.{
  ℕ, ◌*◌, ◌/◌, ◌%◌, ◌^◌, ◌≡◌, ◌∙◌, sym, ap, subst, Bool, true, false, arith, if◌then◌else◌, ◌==◌,
  Bool-cases, ==_iff, inl, inr,
}
use garn_os.Prelude.Run.{ran}
use garn_os.Paging.{
  Entry, Tables, Vmm, is_absent, mm_indexer, arch_mm_map, arch_mm_unmap, arch_mm_is_page_free,
  arch_mm_virt_to_phys, vmm_map,
}
use garn_os.Paging.Walk.{leaf, is_page_free-leaf, virt_to_phys-leaf}
use garn_os.Paging.Tree.{Role, IsTree}
use garn_os.Paging.Leaf.{same_page}
use garn_os.Paging.Map.{mapped_entry, Changed, Mapped, arch_mm_map-Mapped}
use garn_os.Paging.Unmap.{arch_mm_unmap-Changed}

-- The page of a 48-bit virtual address.
abbrev pub page_of : ℕ → ℕ
page_of virt = virt / 2 ^ 12 % 2 ^ 36

pub same_page-mm_indexer :
    (w v : ℕ) → same_page (mm_indexer w) (mm_indexer v) ≡ (page_of w == page_of v)
unfolding mm_indexer
same_page-mm_indexer w v = ground arith

-- An absent entry has address 0, so the translation is the address in every case.
translated :
    (e : Entry) → (if is_absent e then 0 else e.addr * 2 ^ 12 % 2 ^ 51) ≡ e.addr * 2 ^ 12 % 2 ^ 51
translated e = ground arith

phys_leaf :
    (t : Tables) (top w : ℕ)
    → arch_mm_virt_to_phys t top w ≡ (leaf t top (mm_indexer w)).addr * 2 ^ 12 % 2 ^ 51
phys_leaf t top w = virt_to_phys-leaf t top w ∙ translated (leaf t top (mm_indexer w))

-- A function of what a page sees.
observed {ℓ} :
    {A : Type ℓ} (f : Entry → A) (b : Bool) (e new old : Entry)
    → e ≡ (if b then new else old)
    → f e ≡ (if b then f new else f old)
observed f true e new old h = ap f h
observed f false e new old h = ap f h

module _ (top : ℕ) (v v' : Vmm) (virt : ℕ) (new : Entry)
    (c : Changed top v (mm_indexer virt) new v') where
  changed_leaf :
      (w : ℕ)
      → leaf v'.tables top (mm_indexer w)
        ≡ (if page_of w == page_of virt then new else leaf v.tables top (mm_indexer w))
  changed_leaf w =
      c.view (mm_indexer w)
      ∙ ap (λ b. if b then new else leaf v.tables top (mm_indexer w)) (same_page-mm_indexer w virt)

  pub virt_to_phys-Changed :
      (w : ℕ)
      → arch_mm_virt_to_phys v'.tables top w ≡ (
          if page_of w == page_of virt
          then new.addr * 2 ^ 12 % 2 ^ 51
          else arch_mm_virt_to_phys v.tables top w)
  virt_to_phys-Changed w =
      rw (phys_leaf v'.tables top w, phys_leaf v.tables top w)
        (observed (λ e. e.addr * 2 ^ 12 % 2 ^ 51) (page_of w == page_of virt) _ new _
          (changed_leaf w))

  pub is_page_free-Changed :
      (w : ℕ)
      → arch_mm_is_page_free v'.tables top w
        ≡ (if page_of w == page_of virt then is_absent new else arch_mm_is_page_free v.tables top w)
  is_page_free-Changed w =
      rw (is_page_free-leaf v'.tables top w, is_page_free-leaf v.tables top w)
        (observed is_absent (page_of w == page_of virt) _ new _ (changed_leaf w))

-- After `arch_mm_map` with `VMM_PRESENT` the address translates to the low 51 bits of its frame and
-- its page is no longer free; every address of another page is free, or translates, as before.
pub virt_to_phys-arch_mm_map :
    (role : ℕ → Role) (top : ℕ) (v v' : Vmm) (phys virt flags : ℕ)
    → IsTree role top v
    → flags % 2 ≡ 1
    → arch_mm_map v top phys virt flags ≡ ran v'
    → (w : ℕ)
    → (arch_mm_virt_to_phys v'.tables top w ≡ (
        if page_of w == page_of virt
        then phys / 2 ^ 12 % 2 ^ 51 * 2 ^ 12 % 2 ^ 51
        else arch_mm_virt_to_phys v.tables top w))
      × (arch_mm_is_page_free v'.tables top w
          ≡ (if page_of w == page_of virt then false else arch_mm_is_page_free v.tables top w))
virt_to_phys-arch_mm_map role top v v' phys virt flags tree present e w =
    (virt_to_phys-Changed top v v' virt _ c w, is_page_free-Changed top v v' virt _ c w ∙ busy)
  where
    c :
        Changed top v
          (mm_indexer virt)
          (mapped_entry (leaf v.tables top (mm_indexer virt)) phys flags)
          v'
    c =
        subst (Mapped top v (mm_indexer virt) phys flags) e
          (arch_mm_map-Mapped role top v phys virt flags tree)

    busy :
        (if page_of w == page_of virt
          then is_absent (mapped_entry (leaf v.tables top (mm_indexer virt)) phys flags)
          else arch_mm_is_page_free v.tables top w)
        ≡ (if page_of w == page_of virt then false else arch_mm_is_page_free v.tables top w)
    busy = ground (arith, present)

same_indices : (w v : ℕ) → page_of w ≡ page_of v → mm_indexer w ≡ mm_indexer v
unfolding mm_indexer
same_indices w v e = ground arith

-- Addresses of a page that is free translate to 0.
free_page :
    (t : Tables) (top w virt : ℕ)
    → page_of w ≡ page_of virt
    → arch_mm_is_page_free t top virt ≡ true
    → (arch_mm_virt_to_phys t top w ≡ 0) × (arch_mm_is_page_free t top w ≡ true)
free_page t top w virt same free =
    let absent : is_absent (leaf t top (mm_indexer w)) ≡ true =
      rw (same_indices w virt same, ← is_page_free-leaf t top virt) free in
    (rw (virt_to_phys-leaf t top w, absent), rw (is_page_free-leaf t top w, absent))

-- Mapping a free page with `VMM_PRESENT` and unmapping it again brings back the translation of
-- every address.
pub arch_mm_unmap-arch_mm_map :
    (role : ℕ → Role) (top : ℕ) (v v' : Vmm) (phys virt flags : ℕ)
    → IsTree role top v
    → flags % 2 ≡ 1
    → arch_mm_is_page_free v.tables top virt ≡ true
    → arch_mm_map v top phys virt flags ≡ ran v'
    → (w : ℕ)
    → (arch_mm_virt_to_phys (arch_mm_unmap v' top virt).tables top w
        ≡ arch_mm_virt_to_phys v.tables top w)
      × (arch_mm_is_page_free (arch_mm_unmap v' top virt).tables top w
          ≡ arch_mm_is_page_free v.tables top w)
arch_mm_unmap-arch_mm_map role top v v' phys virt flags tree present free e w =
    elim (Bool-cases (page_of w == page_of virt)) [
      | inl here ↦
          let before = free_page v.tables top w virt ((==_iff _ _).0 here) free in
          (rw (phys_after, here) (sym before.0), rw (free_after, here) (sym before.1))
      | inr there ↦
          (rw (phys_after, there, mapped.0, there), rw (free_after, there, mapped.1, there))
    ]
  where
    m :
        Changed top v
          (mm_indexer virt)
          (mapped_entry (leaf v.tables top (mm_indexer virt)) phys flags)
          v'
    m =
        subst (Mapped top v (mm_indexer virt) phys flags) e
          (arch_mm_map-Mapped role top v phys virt flags tree)

    mapped :
        (arch_mm_virt_to_phys v'.tables top w ≡ (
          if page_of w == page_of virt
          then phys / 2 ^ 12 % 2 ^ 51 * 2 ^ 12 % 2 ^ 51
          else arch_mm_virt_to_phys v.tables top w))
        × (arch_mm_is_page_free v'.tables top w
            ≡ (if page_of w == page_of virt then false else arch_mm_is_page_free v.tables top w))
    mapped = virt_to_phys-arch_mm_map role top v v' phys virt flags tree present e w

    in_use : arch_mm_is_page_free v'.tables top virt ≡ false
    in_use =
        (virt_to_phys-arch_mm_map role top v v' phys virt flags tree present e virt).1
        ∙ ground arith

    c :
        Changed top v'
          (mm_indexer virt)
          (record (leaf v'.tables top (mm_indexer virt)) { present = false; addr = 0 })
          (arch_mm_unmap v' top virt)
    c = arch_mm_unmap-Changed m.role top v' virt m.tree in_use

    phys_after :
        arch_mm_virt_to_phys (arch_mm_unmap v' top virt).tables top w
        ≡ (if page_of w == page_of virt then 0 else arch_mm_virt_to_phys v'.tables top w)
    phys_after = virt_to_phys-Changed top v' (arch_mm_unmap v' top virt) virt _ c w

    free_after :
        arch_mm_is_page_free (arch_mm_unmap v' top virt).tables top w
        ≡ (if page_of w == page_of virt then true else arch_mm_is_page_free v'.tables top w)
    free_after = is_page_free-Changed top v' (arch_mm_unmap v' top virt) virt _ c w

-- Whatever the flags, `vmm_map` leaves the page executable: bit 63 does not fit its parameter.
pub vmm_map_executable :
    (role : ℕ → Role) (top : ℕ) (v v' : Vmm) (phys virt flags : ℕ)
    → IsTree role top v
    → vmm_map v top phys virt flags ≡ ran v'
    → (leaf v'.tables top (mm_indexer virt)).nx ≡ false
unfolding vmm_map
vmm_map_executable role top v v' phys virt flags tree e =
    ap (λ x. x.nx) (changed_leaf top v v' virt _ c virt) ∙ ground arith
  where
    c :
        Changed top v
          (mm_indexer virt)
          (mapped_entry (leaf v.tables top (mm_indexer virt)) phys (flags % 2 ^ 32))
          v'
    c =
        subst (Mapped top v (mm_indexer virt) phys (flags % 2 ^ 32)) e
          (arch_mm_map-Mapped role top v phys virt (flags % 2 ^ 32) tree)
