-- ===== src/Kheap/Extend.antt =====
-- `kheap_extend`, and `kmalloc` where no block is large enough.
use garn_os.Prelude.{eq_self, ℕ, ◌+◌, ◌-◌, ◌*◌, ◌≡◌, refl, true, List, [], ◌∷◌, ◌++◌}
use garn_os.Prelude.Exec.{done}
use garn_os.Prelude.Run.{ran}
use garn_os.Pmm.{Pmm, pmm_allocate}
use garn_os.Prelude.Words.{word}
use garn_os.Kheap.{Memory, Heap, header_size, put_header, extent, init_pages, kheap_init}
use garn_os.Kheap.Blocks.{Block, Apart, ApartFrom, IsBlock, header_of, Linked, IsHeap}

-- The block that `kheap_extend` makes of the pages at `base`.
abbrev pub fresh : ℕ → ℕ → ℕ → Block
fresh hhdm base size = record {
  addr = word (base + hhdm);
  size = extent size - header_size;
  free = true;
}

abbrev pub first_block : ℕ → ℕ → Block
first_block hhdm base = record {
  addr = word (base + hhdm);
  size = init_pages * 4096 - header_size;
  free = true;
}

-- Memory after a block is hung behind the others.
record Hung (m m1 m2 : Memory) (prev : ℕ) (c : Block) (bs : List Block) : Type 0 where
  linked : Linked m2 prev (bs ++ c ∷ [])
  kept : (x : Block) → ApartFrom x bs → Apart x c → m2 x.addr ≡ m x.addr

-- `kheap_init` makes a heap of one block.
pub kheap_init-IsHeap :
    (hhdm base : ℕ) (m : Memory) (pmm pmm' : Pmm)
    → pmm_allocate pmm init_pages ≡ ran (base, pmm')
    → IsBlock (first_block hhdm base)
    → (s : Heap) × (kheap_init hhdm m pmm ≡ done s) × IsHeap s (first_block hhdm base ∷ [])
unfolding kheap_init
kheap_init-IsHeap hhdm base m pmm pmm' pages blk = (
  record {
    header = put_header m (word (base + hhdm)) (header_of (first_block hhdm base) 0 0);
    start = word (base + hhdm);
    end = word (base + hhdm);
    kheap_size = 4096 * init_pages;
    pmm = pmm';
  },
  rw pages refl,
  record {
    linked = (rw (eq_self (word (base + hhdm))) refl, tt);
    blocks = (blk, tt);
    apart = (tt, tt);
    start = refl;
    end = refl;
  },
)
