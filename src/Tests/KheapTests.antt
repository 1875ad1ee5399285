-- ===== src/Tests/KheapTests.antt =====
-- A heap of three blocks, of which the second is free.
use garn_os.Prelude.{ℕ, ◌≡◌, refl, arith, true, false, none, [], ◌∷◌, inl}
use garn_os.Prelude.Exec.{done}
use garn_os.Pmm.{Pmm}
use garn_os.Kheap.{Memory, Heap, put_header, kmalloc, kmfree}
use garn_os.Kheap.Blocks.{Block, IsBlock, IsHeap, header_of}
use garn_os.Kheap.Alloc.{Given, given, kmalloc-IsHeap}
use garn_os.Kheap.Free.{kmfree-IsHeap}
use garn_os.Kheap.Reuse.{kmfree-kmalloc}
use garn_os.Tests.PmmTests.{small}

abbrev one : Block
one = record { addr = 4096; size = 64; free = false }

abbrev two : Block
two = record { addr = 4192; size = 256; free = true }

abbrev three : Block
three = record { addr = 4480; size = 128; free = false }

abbrev headers : Memory
headers =
    put_header
      (put_header (put_header (λ a. none) 4096 (header_of one 4192 0)) 4192
        (header_of two 4480 4096))
      4480 (header_of three 0 4192)

abbrev heap : Heap
heap = record { header = headers; start = 4096; end = 4480; kheap_size = 4096; pmm = small }

one-IsBlock : IsBlock one
one-IsBlock = record {
  nonzero = omega arith;
  fits = omega arith;
  addr_aligned = refl;
  size_aligned = refl;
}

two-IsBlock : IsBlock two
two-IsBlock = record {
  nonzero = omega arith;
  fits = omega arith;
  addr_aligned = refl;
  size_aligned = refl;
}

three-IsBlock : IsBlock three
three-IsBlock = record {
  nonzero = omega arith;
  fits = omega arith;
  addr_aligned = refl;
  size_aligned = refl;
}

heap-IsHeap : IsHeap heap (one ∷ two ∷ three ∷ [])
heap-IsHeap = record {
  linked = (refl, (refl, (refl, tt)));
  blocks = (one-IsBlock, (two-IsBlock, (three-IsBlock, tt)));
  apart = ((inl (omega arith), (inl (omega arith), tt)), ((inl (omega arith), tt), (tt, tt)));
  start = refl;
  end = refl;
}

kmalloc-IsHeap_example :
    (s' : Heap) × (kmalloc 0 8 1 40 heap ≡ done (4224, s'))
    × Given heap (one ∷ given 48 two (three ∷ [])) s'
kmalloc-IsHeap_example =
    kmalloc-IsHeap 0 8 1 40 heap (one ∷ []) two (three ∷ []) heap-IsHeap (omega arith) (refl, tt)
      refl (omega arith) (omega arith)

-- The third block joins the second.
kmfree-IsHeap_example :
    (s' : Heap) × (kmfree 4512 heap ≡ done s')
    × IsHeap s' (one ∷ (record { addr = 4192; size = 416; free = true }) ∷ [])
kmfree-IsHeap_example = kmfree-IsHeap heap (one ∷ two ∷ []) three [] heap-IsHeap

kmfree-kmalloc_example :
    (p : ℕ) × (s1 s2 : Heap) × (kmalloc 0 8 1 40 heap ≡ done (p, s1))
    × (kmfree p s1 ≡ done s2)
    × IsHeap s2 (one ∷ two ∷ three ∷ [])
kmfree-kmalloc_example =
    kmfree-kmalloc 0 8 1 40 heap (one ∷ []) two (three ∷ []) heap-IsHeap (refl, (refl, tt))
      (omega arith) (refl, tt) refl (omega arith) (omega arith)

-- Page 2 is the next free one.
abbrev page_2_used : Pmm
page_2_used = record small { bitmap = 0b1110_1000 ∷ 0 ∷ 7 ∷ []; free_pages = 12; used_pages = 4 }

abbrev direct_map : ℕ
direct_map = 0xffff800000000000
