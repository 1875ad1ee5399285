-- ===== src/Kheap/Join.antt =====
-- Two adjacent blocks become one.
use garn_os.Prelude.{
  eq_self, eq_false, ℕ, ◌+◌, ◌≡◌, inl, inr, refl, ◌∙◌, arith, Bool, false, List, [], ◌∷◌, ◌++◌,
  ◌==◌, if◌then◌else◌,
}
use garn_os.Prelude.Exec.{done}
use garn_os.Prelude.Words.{word}
use garn_os.Kheap.{Memory, Heap, header_size, put_header, absorb}
use garn_os.Kheap.Blocks.{
  Block, block_end, Apart, ApartFrom, AllApart, AreBlocks, first, last, header_of, Linked, IsHeap,
  Change, Change-IsHeap, Linked-put_header, with_prev, Linked-with_prev, Kept-with_prev,
  replaced_end, Apart-sym, Apart-ne, Linked-append_r, AreBlocks-append_r, AllApart-append_r,
  last-append,
}

-- Two blocks, of which the second begins where the first ends, as one.
abbrev pub merged : Block → Block → Block
merged a b = record a { size = a.size + b.size + header_size }

abbrev pub adjacent : Block → Block → Bool
adjacent a b = block_end a == b.addr

Apart-merged : (a b c : Block) → block_end a ≡ b.addr → Apart c a → Apart c b → Apart c (merged a b)
Apart-merged a b c e (inl h) k = inl h
Apart-merged a b c e (inr h) (inl k) = absurd (omega arith)
Apart-merged a b c e (inr h) (inr k) = inr (omega arith)

ApartFrom-merged :
    (a b : Block) (ys : List Block)
    → block_end a ≡ b.addr
    → ApartFrom a ys
    → ApartFrom b ys
    → ApartFrom (merged a b) ys
ApartFrom-merged a b [] e h k = tt
ApartFrom-merged a b (y ∷ ys) e (h, hs) (k, ks) = (
  Apart-sym y (merged a b) (Apart-merged a b y e (Apart-sym a y h) (Apart-sym b y k)),
  ApartFrom-merged a b ys e hs ks,
)

-- Memory while `b` becomes a part of `a`.
abbrev grown : Memory → ℕ → Block → Block → List Block → Memory
grown m prev a b ys = with_prev (put_header m a.addr (header_of (merged a b) b.addr prev)) a.addr ys

abbrev absorbed : Memory → ℕ → Block → Block → List Block → Memory
absorbed m prev a b ys =
    put_header (grown m prev a b ys) a.addr (header_of (merged a b) (first ys 0) prev)

absorb-done :
    (s : Heap) (prev : ℕ) (a b : Block) (ys : List Block)
    → Linked s.header prev (a ∷ b ∷ ys)
    → AreBlocks (a ∷ b ∷ ys)
    → AllApart (a ∷ b ∷ ys)
    → block_end a ≡ b.addr
    → absorb s a.addr b.addr (header_of b (first ys 0) a.addr)
      ≡ done (record s {
        header = absorbed s.header prev a b ys;
        end = if b.addr == s.end then a.addr else s.end;
      })
unfolding absorb
absorb-done s prev a b [] (at, l) (blk, (bblk, bl)) (out, apart) e =
    let fits = bblk.fits in
    let sum : word (a.size + b.size + header_size) ≡ a.size + b.size + header_size = omega arith in
    rw (at, sum) (rw (eq_self a.addr) refl)
absorb-done s prev a b (y ∷ ys) (at, (at_b, (at_y, l))) (blk, (bblk, (yblk, bl)))
      ((ab, (ne, out)), ((bne, b_out), apart)) e =
    let fits = bblk.fits in
    let sum : word (a.size + b.size + header_size) ≡ a.size + b.size + header_size = omega arith in
    let stop = eq_false y.addr 0 yblk.nonzero in
    let o1 : (y.addr == a.addr) ≡ false = ground (arith, Apart-ne a y ne) in
    let o2 : (a.addr == y.addr) ≡ false = ground (arith, Apart-ne a y ne) in
    rw (at, sum, stop) (rw o1 (rw at_y (rw o2 (rw (eq_self a.addr) refl))))

absorbed-Change :
    (m : Memory) (prev : ℕ) (a b : Block) (ys : List Block)
    → Linked m prev (a ∷ b ∷ ys)
    → AreBlocks (a ∷ b ∷ ys)
    → AllApart (a ∷ b ∷ ys)
    → block_end a ≡ b.addr
    → Change m (absorbed m prev a b ys) prev (a ∷ b ∷ ys) (merged a b ∷ ys)
absorbed-Change m prev a b ys (at, (at_b, l)) (blk, (bblk, bl)) ((ab, out), (b_out, apart)) e =
    let fits = bblk.fits in
    let one = blk.size_aligned in
    let two = bblk.size_aligned in
    record {
      linked = (
        rw (eq_self a.addr) refl,
        Linked-put_header _ a _ a.addr ys out
            (Linked-with_prev _ b.addr a.addr ys apart (Linked-put_header m a _ b.addr ys out l)),
      );
      blocks = (
        record {
          nonzero = blk.nonzero;
          fits = omega arith;
          addr_aligned = blk.addr_aligned;
          size_aligned = omega arith;
        },
        bl,
      );
      apart = (ApartFrom-merged a b ys e out b_out, apart);
      first = refl;
      kept = λ c h.
          let other : (c.addr == a.addr) ≡ false = ground (arith, Apart-ne c a h.0) in
          rw other (Kept-with_prev _ a.addr ys c h.1.1 ∙ rw other refl);
      within = λ c h. (Apart-merged a b c e h.0 h.1.0, h.1.1);
    }

pub absorb-IsHeap :
    (s : Heap) (xs : List Block) (a b : Block) (ys : List Block)
    → IsHeap s (xs ++ a ∷ b ∷ ys)
    → block_end a ≡ b.addr
    → (s' : Heap) × (absorb s a.addr b.addr (header_of b (first ys 0) a.addr) ≡ done s')
      × IsHeap s' (xs ++ merged a b ∷ ys)
absorb-IsHeap s xs a b ys h e =
    let l = Linked-append_r s.header 0 xs (a ∷ b ∷ ys) h.linked in
    let bl = AreBlocks-append_r xs (a ∷ b ∷ ys) h.blocks in
    let apart = AllApart-append_r xs (a ∷ b ∷ ys) h.apart in
    let s' : Heap = record s {
      header = absorbed s.header (last 0 xs) a b ys;
      end = if b.addr == s.end then a.addr else s.end;
    } in
    (
      s',
      absorb-done s (last 0 xs) a b ys l bl apart e,
      Change-IsHeap s s' xs (a ∷ b ∷ ys) (merged a b ∷ ys) h
          (absorbed-Change s.header (last 0 xs) a b ys l bl apart e) refl
          (replaced_end s.end a.addr b ys apart.1.0 (h.end ∙ last-append 0 xs (a ∷ b ∷ ys))),
    )
