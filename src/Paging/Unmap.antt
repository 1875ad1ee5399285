-- ===== src/Paging/Unmap.antt =====
-- `arch_mm_unmap` and `arch_mm_set_flags`, on a page that is in use: they test no entry on the way.
use garn_os.Prelude.{ℕ, arith, ◌≡◌, ◌∙◌, refl, sym, ap, false, if◌then◌else◌, inl, inr, not_both}
use garn_os.Paging.{
  Entry, Vmm, Indices, write, with_flags, is_absent, mm_indexer, last_table, arch_mm_unmap,
  arch_mm_set_flags, arch_mm_is_page_free,
}
use garn_os.Paging.Walk.{leaf, is_page_free-leaf}
use garn_os.Paging.Tree.{Role, IsTree}
use garn_os.Paging.Leaf.{
  Reaches, Walked, place_of, same_page, walked, write-IsTree, leaf-write, leaf-Reaches,
}
use garn_os.Paging.Map.{Changed}

module _ (role : ℕ → Role) (top : ℕ) (v : Vmm) (virt : ℕ) (tree : IsTree role top v)
    (in_use : arch_mm_is_page_free v.tables top virt ≡ false) where
  abbrev x : Indices
  x = mm_indexer virt

  -- A page in use has its tables.
  used_Reaches :
      Walked role top v.tables x → (f : ℕ) × Reaches v.tables top x f × (role f ≡ place_of x)
  used_Reaches (inl gone) = absurd (
      not_both _ (ap is_absent (gone v.tables (λ h j d. refl)))
        (sym (is_page_free-leaf v.tables top virt) ∙ in_use))
  used_Reaches (inr (h, reach, place)) = (h, reach v.tables (λ h j d. refl), place)

  rewritten :
      (change : Entry → Entry)
      → Changed top v x (change (leaf v.tables top x)) (record v {
        tables =
            write v.tables
              (last_table v.tables top virt)
              x.p
              (change (v.tables (last_table v.tables top virt) x.p));
      })
  rewritten change =
      let (f, reach, place) = used_Reaches (walked role top v tree x) in
      let at : last_table v.tables top virt ≡ f = unfold last_table in reach.last in
      rw at (record {
        role = role;
        tree = write-IsTree role top v x f _ tree place;
        view = λ y.
            leaf-write role top v x f _ tree place y reach
            ∙ ap (λ e. if same_page y x then change e else leaf v.tables top y)
                (sym (leaf-Reaches v.tables top f x reach));
        cost = omega arith;
      })

  -- `arch_mm_unmap` of a page in use clears `present` and `addr` of its entry, and changes nothing
  -- that another page sees.
  pub arch_mm_unmap-Changed :
      Changed top v x
        (record (leaf v.tables top x) { present = false; addr = 0 })
        (arch_mm_unmap v top virt)
  unfolding arch_mm_unmap
  arch_mm_unmap-Changed = rewritten (λ e. record e { present = false; addr = 0 })

  -- `arch_mm_set_flags` of a page in use sets the flags of its entry and keeps its frame, and
  -- changes nothing that another page sees.
  pub arch_mm_set_flags-Changed :
      (flags : ℕ)
      → Changed top v x
          (with_flags (leaf v.tables top x) flags)
          (arch_mm_set_flags v top virt flags)
  unfolding arch_mm_set_flags
  arch_mm_set_flags-Changed flags = rewritten (λ e. with_flags e flags)
