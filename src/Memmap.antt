-- ===== src/Memmap.antt =====
-- kernel/mem/memmap/memmap.c: the memory map that the boot loader hands over, as the list of its
-- entries.
use garn_os.Prelude.{ℕ, ◌+◌, Bool, Option, none, some, List, [], ◌∷◌, ◌==◌, if◌then◌else◌}
use garn_os.Prelude.Words.{word}

-- `memmap_entry_t`
pub record MemmapEntry : Type 0 where
  pub base : ℕ
  pub length : ℕ
  pub type : ℕ

-- `MEMMAP_USABLE`
abbrev pub is_usable : MemmapEntry → Bool
is_usable e = e.type == 0

abbrev pub entry_end : MemmapEntry → ℕ
entry_end e = word (e.base + e.length)

-- The loop of `memmap_get_highest_usable_address`.
unfoldable pub highest_usable : ℕ → List MemmapEntry → ℕ
highest_usable highest [] = highest
highest_usable highest (e ∷ es) = highest_usable (if is_usable e then entry_end e else highest) es

unfoldable pub memmap_get_highest_usable_address : List MemmapEntry → ℕ
memmap_get_highest_usable_address es = highest_usable 0 es

-- The end of the last entry; `none` where the map is empty and the code reads in front of it.
unfoldable pub memmap_get_highest_address : List MemmapEntry → Option ℕ
memmap_get_highest_address [] = none
memmap_get_highest_address (e ∷ []) = some (entry_end e)
memmap_get_highest_address (e ∷ e' ∷ es) = memmap_get_highest_address (e' ∷ es)
