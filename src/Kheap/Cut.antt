-- ===== src/Kheap/Cut.antt =====
-- The block that `kmalloc` takes, whole or cut in two.
use garn_os.Prelude.{
  eq_self, ℕ, ◌+◌, ◌-◌, ◌%◌, ◌^◌, ◌<◌, ◌≤◌, ◌≡◌, inl, inr, refl, ◌∙◌, arith, Bool, true, false,
  List, [], ◌∷◌, ◌==◌, if◌then◌else◌,
}
use garn_os.Prelude.Exec.{done}
use garn_os.Prelude.Words.{word}
use garn_os.Kheap.{Memory, Heap, header_size, put_header, kheap_create_block}
use garn_os.Kheap.Blocks.{
  Block, block_end, Apart, ApartFrom, AllApart, AreBlocks, first, header_of, Linked, Change,
  Linked-put_header, with_prev, Linked-with_prev, Kept-with_prev, Apart-sym, Apart-ne,
}

-- A block within another is apart from what the other is apart from.
pub Apart-within :
    (b c d : Block) → b.addr ≤ c.addr → block_end c ≤ block_end b → Apart d b → Apart d c
Apart-within b c d lo hi (inl h) = inl (omega arith)
Apart-within b c d lo hi (inr h) = inr (omega arith)

pub ApartFrom-within :
    (b c : Block) (ys : List Block)
    → b.addr ≤ c.addr
    → block_end c ≤ block_end b
    → ApartFrom b ys
    → ApartFrom c ys
ApartFrom-within b c [] lo hi h = tt
ApartFrom-within b c (y ∷ ys) lo hi (h, t) = (ground (arith, h), ApartFrom-within b c ys lo hi t)

-- The two ways in which `kmalloc` takes the block at the front.
abbrev pub marked : Bool → Memory → ℕ → Block → List Block → Memory
marked free m prev b ys =
    put_header m b.addr (header_of (record b { free = free }) (first ys 0) prev)

pub marked-Change :
    (free : Bool) (m : Memory) (prev : ℕ) (b : Block) (ys : List Block)
    → Linked m prev (b ∷ ys)
    → AreBlocks (b ∷ ys)
    → AllApart (b ∷ ys)
    → Change m (marked free m prev b ys) prev (b ∷ ys) ((record b { free = free }) ∷ ys)
marked-Change free m prev b ys (at, l) (blk, bl) (out, apart) = record {
  linked = let here = eq_self b.addr in (rw here refl, Linked-put_header m b _ b.addr ys out l);
  blocks = (
    record {
      nonzero = blk.nonzero;
      fits = blk.fits;
      addr_aligned = blk.addr_aligned;
      size_aligned = blk.size_aligned;
    },
    bl,
  );
  apart = (ApartFrom-within b (record b { free = free }) ys (omega arith) (omega arith) out, apart);
  first = refl;
  kept = λ c h.
      let other : (c.addr == b.addr) ≡ false = ground (arith, Apart-ne c b h.0) in rw other refl;
  within = λ c h. h;
}

-- The block for what is left over.
abbrev pub remainder : ℕ → Block → Block
remainder size b = record {
  addr = b.addr + header_size + size;
  size = b.size - (size + header_size);
  free = true;
}

abbrev pub created : ℕ → Memory → ℕ → Block → List Block → Memory
created size m prev b ys =
    let r = remainder size b in
    with_prev
      (put_header (put_header m r.addr (header_of r (first ys 0) b.addr)) b.addr
        (record { size = size; flags = 1; next = r.addr; prev = prev }))
      r.addr ys

abbrev pub cut : ℕ → Memory → ℕ → Block → List Block → Memory
cut size m prev b ys =
    put_header (created size m prev b ys) b.addr
      (record { size = size; flags = 0; next = b.addr + header_size + size; prev = prev })

outside : (b y : Block) (a : ℕ) → Apart b y → b.addr ≤ a → a < block_end b → (y.addr == a) ≡ false
outside b y a (inl h) lo hi = ground arith
outside b y a (inr h) lo hi = ground arith

pub created-done :
    (size : ℕ) (s : Heap) (prev : ℕ) (b : Block) (ys : List Block)
    → b.free ≡ true
    → size + header_size < b.size
    → Linked s.header prev (b ∷ ys)
    → AreBlocks (b ∷ ys)
    → AllApart (b ∷ ys)
    → kheap_create_block s b.addr size
      ≡ done (record s {
        header = created size s.header prev b ys;
        end = if b.addr == s.end then b.addr + header_size + size else s.end;
      })
unfolding kheap_create_block
created-done size s prev b [] free room (at, l) (blk, bl) (out, apart) =
    let fits = blk.fits in
    let e1 : word (b.addr + header_size + size) ≡ b.addr + header_size + size = omega arith in
    let e2 : word (b.size + 2 ^ 64 - word (size + header_size)) ≡ b.size - (size + header_size) =
      omega arith in
    rw (at, free) (rw (e1, e2) refl)
created-done size s prev b (y ∷ ys) free room (at, (at_y, l)) (blk, (yblk, bl)) ((ne, out), apart) =
    let fits = blk.fits in
    let nz = yblk.nonzero in
    let e1 : word (b.addr + header_size + size) ≡ b.addr + header_size + size = omega arith in
    let e2 : word (b.size + 2 ^ 64 - word (size + header_size)) ≡ b.size - (size + header_size) =
      omega arith in
    let stop : (y.addr == 0) ≡ false = ground arith in
    let o1 : (y.addr == b.addr) ≡ false = outside b y b.addr ne (omega arith) (omega arith) in
    let o2 : (y.addr == b.addr + header_size + size) ≡ false =
      outside b y (b.addr + header_size + size) ne (omega arith) (omega arith) in
    rw (at, free) (rw (e1, e2, stop) (rw (o1, o2) (rw at_y refl)))

pub cut-Change :
    (size : ℕ) (m : Memory) (prev : ℕ) (b : Block) (ys : List Block)
    → size % 16 ≡ 0
    → size + header_size < b.size
    → Linked m prev (b ∷ ys)
    → AreBlocks (b ∷ ys)
    → AllApart (b ∷ ys)
    → Change m
        (cut size m prev b ys)
        prev
        (b ∷ ys)
        ((record b { size = size; free = false }) ∷ remainder size b ∷ ys)
cut-Change size m prev b ys al room (at, l) (blk, bl) (out, apart) =
    let r = remainder size b in
    let b' : Block = record b { size = size; free = false } in
    let here = eq_self b.addr in
    let here_r = eq_self r.addr in
    let apart_r : (r.addr == b.addr) ≡ false = ground arith in
    let out_r : ApartFrom r ys = ApartFrom-within b r ys (omega arith) (omega arith) out in
    let out_b : ApartFrom b' ys = ApartFrom-within b b' ys (omega arith) (omega arith) out in
    record {
      linked = (
        rw here refl,
        (
          rw apart_r (Kept-with_prev _ r.addr ys r out_r ∙ rw (apart_r, here_r) refl),
          Linked-put_header _ b _ r.addr ys out (
              Linked-with_prev _ b.addr r.addr ys apart (
                Linked-put_header _ b _ b.addr ys out (Linked-put_header m r _ b.addr ys out_r l))),
        ),
      );
      blocks =
          let fits = blk.fits in
          let one = blk.addr_aligned in
          let two = blk.size_aligned in
          (
            record {
              nonzero = blk.nonzero;
              fits = omega arith;
              addr_aligned = blk.addr_aligned;
              size_aligned = al;
            },
            (
              record {
                nonzero = λ e. absurd (omega arith);
                fits = omega arith;
                addr_aligned = omega arith;
                size_aligned = omega arith;
              },
              bl,
            ),
          );
      apart = ((inl (omega arith), out_b), (out_r, apart));
      first = refl;
      kept = λ c h.
          let o1 : (c.addr == b.addr) ≡ false = ground (arith, Apart-ne c b h.0) in
          let o2 : (c.addr == r.addr) ≡ false =
            outside b c r.addr (Apart-sym c b h.0) (omega arith) (omega arith) in
          rw o1 (Kept-with_prev _ r.addr ys c h.1 ∙ rw (o1, o2) refl);
      within = λ c h. (
        Apart-within b b' c (omega arith) (omega arith) h.0,
        (Apart-within b r c (omega arith) (omega arith) h.0, h.1),
      );
    }
