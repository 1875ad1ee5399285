-- ===== src/Kheap/Alloc.antt =====
-- `kmalloc` where a free block is large enough.
use garn_os.Prelude.{
  eq_self, eq_false, ℕ, zero, suc, ◌+◌, ◌-◌, ◌%◌, ◌^◌, ◌<◌, ◌≤◌, ◌≡◌, inl, inr, refl, ap₂, ◌∙◌,
  arith, Bool, true, false, ◌&&◌, ◌||◌, not, some, List, [], ◌∷◌, ◌++◌, ltb, leb, ◌==◌, length,
  if◌then◌else◌, Bool-cases,
}
use garn_os.Prelude.Exec.{done}
use garn_os.Prelude.Words.{word, align_up}
use garn_os.Kheap.{Heap, header_size, is_free, kmalloc_loop, kmalloc}
use garn_os.Kheap.Blocks.{
  Block, AreBlocks, first, last, header_of, Linked, IsHeap, Change-IsHeap, Kept-with_prev,
  replaced_end, Linked-append_r, AreBlocks-append_r, AllApart-append_r, last-append,
}
use garn_os.Kheap.Cut.{marked, marked-Change, remainder, created, cut, created-done, cut-Change}

-- Whether the block satisfies a request of `size` bytes.
abbrev pub suits : ℕ → Block → Bool
suits size b = b.free && leb size b.size

abbrev pub NoneSuits : ℕ → List Block → Type 0
NoneSuits size [] = Unit
NoneSuits size (b ∷ bs) = (suits size b ≡ false) × NoneSuits size bs

-- The block after it was given out for `size` bytes: what is left over becomes a free block, when
-- there is room for its header and more.
abbrev pub given : ℕ → Block → List Block → List Block
given size b ys =
    if ltb (size + header_size) b.size
    then (record b { size = size; free = false })
      ∷ (record {
        addr = b.addr + header_size + size;
        size = b.size - (size + header_size);
        free = true;
      })
      ∷ ys
    else (record b { free = false }) ∷ ys

-- The loop passes over blocks that do not suit.
pub kmalloc_loop-skip :
    (fuel size : ℕ) (s : Heap) (prev : ℕ) (xs zs : List Block)
    → NoneSuits size xs
    → Linked s.header prev (xs ++ zs)
    → AreBlocks (xs ++ zs)
    → kmalloc_loop (length xs + fuel) size s (first (xs ++ zs) 0)
      ≡ kmalloc_loop fuel size s (first zs 0)
unfolding kmalloc_loop
kmalloc_loop-skip fuel size s prev [] zs unsuited l bl =
    let e : 0 + fuel ≡ fuel = omega arith in rw e refl
kmalloc_loop-skip fuel size s prev (x ∷ xs) zs (unfit, unsuited) (at, l) (blk, bl) =
    let nz = blk.nonzero in
    let stop : (x.addr == 0) ≡ false = ground arith in
    let e : (length (x ∷ xs) + fuel) ≡ suc (length xs + fuel) = omega arith in
    let skip : (not (is_free (header_of x (first (xs ++ zs) 0) prev)) || ltb x.size size) ≡ true =
      ground (arith, unfit) in
    rw e (rw (stop, at) (rw skip (kmalloc_loop-skip fuel size s x.addr xs zs unsuited l bl)))

-- What `kmalloc` leaves after it took the block `b` out of the heap.
abbrev pub Given : Heap → List Block → Heap → Type 0
Given s bs s' = IsHeap s' bs × (s'.pmm ≡ s.pmm)

-- The tests of the loop, on sizes that do not go round.
abbrev tight : ℕ → ℕ → Bool
tight size x = x == size || (ltb size x && leb x (word (size + header_size)))

tight-true :
    (size x : ℕ)
    → ltb x size ≡ false
    → ltb (size + header_size) x ≡ false
    → x + header_size < 2 ^ 64
    → tight size x ≡ true
tight-true size x enough small lt =
    let lo : size ≤ x = ground (arith, enough) in
    let hi : x ≤ size + header_size = ground (arith, small) in
    let e : word (size + header_size) ≡ size + header_size = omega arith in rw e (ground arith)

tight-false : (size x : ℕ) → size + header_size < x → x < 2 ^ 64 → tight size x ≡ false
tight-false size x room lt =
    let e : word (size + header_size) ≡ size + header_size = omega arith in rw e (ground arith)

room-true :
    (size x : ℕ) → size + header_size < x → x < 2 ^ 64 → ltb (word (size + header_size)) x ≡ true
room-true size x room lt =
    let e : word (size + header_size) ≡ size + header_size = omega arith in rw e (ground arith)

whole-hit :
    (fuel size : ℕ) (s : Heap) (xs : List Block) (b : Block) (ys : List Block)
    → IsHeap s (xs ++ b ∷ ys)
    → suits size b ≡ true
    → ltb (size + header_size) b.size ≡ false
    → (s' : Heap) × (kmalloc_loop (suc fuel) size s b.addr ≡ done (some (b.addr + header_size), s'))
      × Given s (xs ++ (record b { free = false }) ∷ ys) s'
unfolding kmalloc_loop
whole-hit fuel size s xs b ys h ok small =
    let l = Linked-append_r s.header 0 xs (b ∷ ys) h.linked in
    let bl = AreBlocks-append_r xs (b ∷ ys) h.blocks in
    let c =
      marked-Change false s.header (last 0 xs) b ys l bl (AllApart-append_r xs (b ∷ ys) h.apart) in
    let s' : Heap = record s { header = marked false s.header (last 0 xs) b ys } in
    let fits = bl.0.fits in
    let nz = bl.0.nonzero in
    let stop : (b.addr == 0) ≡ false = ground arith in
    let free : b.free ≡ true = ground (arith, ok) in
    let enough : ltb b.size size ≡ false = ground (arith, ok) in
    let e1 : word (b.addr + header_size) ≡ b.addr + header_size = omega arith in
    let fit = tight-true size b.size enough small (omega arith) in
    (
      s',
      rw (stop, l.0, free, enough) (rw (fit, e1) refl),
      (
        Change-IsHeap s s' xs (b ∷ ys) ((record b { free = false }) ∷ ys) h c refl
            (h.end ∙ last-append 0 xs (b ∷ ys)),
        refl,
      ),
    )

suits-both :
    (size : ℕ) (b : Block) → suits size b ≡ true → (b.free ≡ true) × (ltb b.size size ≡ false)
suits-both size b ok = (ground (arith, ok), ground (arith, ok))

cut-hit :
    (fuel size : ℕ) (s : Heap) (xs : List Block) (b : Block) (ys : List Block)
    → IsHeap s (xs ++ b ∷ ys)
    → size % 16 ≡ 0
    → suits size b ≡ true
    → size + header_size < b.size
    → (s' : Heap) × (kmalloc_loop (suc fuel) size s b.addr ≡ done (some (b.addr + header_size), s'))
      × Given s (xs ++ (record b { size = size; free = false }) ∷ remainder size b ∷ ys) s'
unfolding kmalloc_loop
cut-hit fuel size s xs b ys h al ok room =
    let l = Linked-append_r s.header 0 xs (b ∷ ys) h.linked in
    let bl = AreBlocks-append_r xs (b ∷ ys) h.blocks in
    let apart = AllApart-append_r xs (b ∷ ys) h.apart in
    let c = cut-Change size s.header (last 0 xs) b ys al room l bl apart in
    let s' : Heap = record s {
      header = cut size s.header (last 0 xs) b ys;
      end = if b.addr == s.end then b.addr + header_size + size else s.end;
    } in
    let fits = bl.0.fits in
    let nz = bl.0.nonzero in
    let stop = eq_false b.addr 0 nz in
    let (free, enough) = suits-both size b ok in
    let e1 : word (b.addr + header_size) ≡ b.addr + header_size = omega arith in
    let loose = tight-false size b.size room (omega arith) in
    let room' = room-true size b.size room (omega arith) in
    let e = created-done size s (last 0 xs) b ys free room l bl apart in
    let here = eq_self b.addr in
    let at_b : created size s.header (last 0 xs) b ys b.addr
        ≡ some (record {
          size = size;
          flags = 1;
          next = b.addr + header_size + size;
          prev = last 0 xs;
        }) =
      Kept-with_prev _ (b.addr + header_size + size) ys b apart.0 ∙ rw here refl in
    (
      s',
      rw (stop, l.0, free, enough) (rw (loose, room', e1) (rw e (rw at_b refl))),
      (
        Change-IsHeap s s' xs (b ∷ ys)
            ((record b { size = size; free = false }) ∷ remainder size b ∷ ys) h c refl
            (replaced_end s.end (b.addr + header_size + size) b ys apart.0
              (h.end ∙ last-append 0 xs (b ∷ ys))),
        refl,
      ),
    )

loop-Given :
    (fuel size : ℕ) (s : Heap) (xs : List Block) (b : Block) (ys : List Block)
    → IsHeap s (xs ++ b ∷ ys)
    → size % 16 ≡ 0
    → NoneSuits size xs
    → suits size b ≡ true
    → length xs < fuel
    → (s' : Heap) × (kmalloc_loop fuel size s s.start ≡ done (some (b.addr + header_size), s'))
      × Given s (xs ++ given size b ys) s'
loop-Given fuel size s xs b ys h al unsuited ok f =
    let k = fuel - suc (length xs) in
    let e : fuel ≡ length xs + suc k = omega arith in
    let skip : kmalloc_loop fuel size s s.start ≡ kmalloc_loop (suc k) size s b.addr =
      ap₂ (λ n p. kmalloc_loop n size s p) e h.start
      ∙ kmalloc_loop-skip (suc k) size s 0 xs (b ∷ ys) unsuited h.linked h.blocks in
    elim (Bool-cases (ltb (size + header_size) b.size)) [
      | inl room ↦
          let (s', run, g) = cut-hit k size s xs b ys h al ok (ground (arith, room)) in
          (s', skip ∙ run, rw room g)
      | inr small ↦
          let (s', run, g) = whole-hit k size s xs b ys h ok small in (s', skip ∙ run, rw small g)
    ]

pub kmalloc-found :
    (hhdm fuel rounds size a : ℕ) (s s' : Heap)
    → kmalloc_loop fuel (align_up size 16) s s.start ≡ done (some a, s')
    → kmalloc hhdm fuel (suc rounds) size s ≡ done (a, s')
unfolding kmalloc
kmalloc-found hhdm fuel rounds size a s s' run = rw run refl

pub align_up-aligned : (x : ℕ) → x + 16 ≤ 2 ^ 64 → align_up x 16 % 16 ≡ 0
align_up-aligned x small = ground arith

-- A free block that is large enough, behind blocks that are not, is the one that `kmalloc` takes:
-- it returns the address behind its header, and the heap then has the block as it was given out,
-- cut to the requested size rounded up to 16 when the rest has room for a header and more. All
-- other blocks stay.
pub kmalloc-IsHeap :
    (hhdm fuel rounds size : ℕ) (s : Heap) (xs : List Block) (b : Block) (ys : List Block)
    → IsHeap s (xs ++ b ∷ ys)
    → size + 16 ≤ 2 ^ 64
    → NoneSuits (align_up size 16) xs
    → suits (align_up size 16) b ≡ true
    → length xs < fuel
    → 0 < rounds
    → (s' : Heap) × (kmalloc hhdm fuel rounds size s ≡ done (b.addr + header_size, s'))
      × Given s (xs ++ given (align_up size 16) b ys) s'
kmalloc-IsHeap hhdm fuel zero size s xs b ys h small unsuited ok f r = absurd (omega arith)
kmalloc-IsHeap hhdm fuel (suc rounds) size s xs b ys h small unsuited ok f r =
    let (s', run, g) =
      loop-Given fuel (align_up size 16) s xs b ys h (align_up-aligned size small) unsuited ok f in
    (s', kmalloc-found hhdm fuel rounds size (b.addr + header_size) s s' run, g)
