-- ===== src/Kheap/Free.antt =====
-- `kmfree`: the block is free again, and joins the free blocks next to it.
use garn_os.Prelude.{
  eq_false, ℕ, ◌+◌, ◌-◌, ◌*◌, ◌/◌, ◌^◌, ◌≡◌, ◌⊎◌, inl, inr, refl, sym, ap, subst, ◌∙◌, arith, Bool,
  true, false, ◌&&◌, List, [], ◌∷◌, ◌++◌, append_assoc, ◌==◌, if◌then◌else◌, Bool-cases,
}
use garn_os.Prelude.Exec.{done, ◌>>=◌}
use garn_os.Prelude.Words.{word}
use garn_os.Kheap.{Heap, header_size, join_next, join_prev, kmfree, is_free}
use garn_os.Kheap.Blocks.{
  Block, block_end, IsBlock, first, last, header_of, IsHeap, Change-IsHeap, Linked-append_r,
  AreBlocks-append_r, AllApart-append_r, last-append,
}
use garn_os.Kheap.Cut.{marked, marked-Change}
use garn_os.Kheap.Join.{merged, adjacent, absorb-IsHeap}

-- The block with a free block right after it.
abbrev pub join_right : Block → List Block → List Block
join_right b [] = b ∷ []
join_right b (y ∷ ys) = if y.free && adjacent b y then merged b y ∷ ys else b ∷ y ∷ ys

-- A free block with the first of the blocks right after it.
abbrev pub join_left : Block → List Block → List Block
join_left v [] = v ∷ []
join_left v (b ∷ ys) = if v.free && adjacent v b then merged v b ∷ ys else v ∷ b ∷ ys

-- The test for adjacent blocks does not go round.
end-word : (b : Block) → IsBlock b → word (b.addr + b.size + header_size) ≡ block_end b
end-word b blk = let fits = blk.fits in omega arith

free-header : (b : Block) (q p : ℕ) → is_free (header_of b q p) ≡ b.free
free-header b q p = elim (Bool-cases b.free) [ inl t ↦ rw t refl | inr t ↦ rw t refl ]

both-ends : (free : Bool) (x y : ℕ) → (free && (x == y)) ≡ true → x ≡ y
both-ends free x y h = ground (arith, h)

join_next-IsHeap :
    (s : Heap) (xs : List Block) (b : Block) (ys : List Block)
    → IsHeap s (xs ++ b ∷ ys)
    → (s' : Heap) × (join_next s b.addr ≡ done s') × IsHeap s' (xs ++ join_right b ys)
unfolding join_next
join_next-IsHeap s xs b [] h =
    let at = (Linked-append_r s.header 0 xs (b ∷ []) h.linked).0 in (s, rw at refl, h)
join_next-IsHeap s xs b (y ∷ ys) h =
    let (at, (at_y, l)) = Linked-append_r s.header 0 xs (b ∷ y ∷ ys) h.linked in
    let (blk, (yblk, bl)) = AreBlocks-append_r xs (b ∷ y ∷ ys) h.blocks in
    let stop = eq_false y.addr 0 yblk.nonzero in
    let e = end-word b blk in
    let f = free-header y (first ys 0) b.addr in
    elim (Bool-cases (y.free && adjacent b y)) [
      | inl joins ↦
          let (s', run, h') = absorb-IsHeap s xs b y ys h (both-ends y.free _ _ joins) in
          (s', rw (at, stop) (rw at_y (rw (f, e) (rw joins run))), rw joins h')
      | inr stays ↦ (s, rw (at, stop) (rw at_y (rw (f, e) (rw stays refl))), rw stays h)
    ]

-- With no block in front.
join_prev-first :
    (s : Heap) (b : Block) (ys : List Block) → IsHeap s (b ∷ ys) → join_prev s b.addr ≡ done s
unfolding join_prev
join_prev-first s b ys h = rw h.linked.0 refl

join_prev-IsHeap :
    (s : Heap) (xs : List Block) (v b : Block) (ys : List Block)
    → IsHeap s (xs ++ v ∷ b ∷ ys)
    → (s' : Heap) × (join_prev s b.addr ≡ done s') × IsHeap s' (xs ++ join_left v (b ∷ ys))
unfolding join_prev
join_prev-IsHeap s xs v b ys h =
    let (at, (at_b, l)) = Linked-append_r s.header 0 xs (v ∷ b ∷ ys) h.linked in
    let (blk, (bblk, bl)) = AreBlocks-append_r xs (v ∷ b ∷ ys) h.blocks in
    let stop = eq_false v.addr 0 blk.nonzero in
    let e = end-word v blk in
    let f = free-header v b.addr (last 0 xs) in
    elim (Bool-cases (v.free && adjacent v b)) [
      | inl joins ↦
          let (s', run, h') = absorb-IsHeap s xs v b ys h (both-ends v.free _ _ joins) in
          (s', rw (at_b, stop) (rw at (rw (f, e) (rw joins run))), rw joins h')
      | inr stays ↦ (s, rw (at_b, stop) (rw at (rw (f, e) (rw stays refl))), rw stays h)
    ]

-- The first steps of `kmfree`.
freed-IsHeap :
    (s : Heap) (xs : List Block) (b : Block) (ys : List Block)
    → IsHeap s (xs ++ b ∷ ys)
    → (s1 : Heap) × (kmfree (b.addr + header_size) s
        ≡ (join_next s1 b.addr >>= λ s'. join_prev s' b.addr))
      × IsHeap s1 (xs ++ (record b { free = true }) ∷ ys)
unfolding kmfree
freed-IsHeap s xs b ys h =
    let l = Linked-append_r s.header 0 xs (b ∷ ys) h.linked in
    let bl = AreBlocks-append_r xs (b ∷ ys) h.blocks in
    let apart = AllApart-append_r xs (b ∷ ys) h.apart in
    let fits = bl.0.fits in
    let p : word (b.addr + header_size + 2 ^ 64 - header_size) ≡ b.addr = omega arith in
    let some_ptr : (b.addr + header_size == 0) ≡ false = ground arith in
    let flags : (if b.free then 1 else 0) / 2 * 2 + 1 ≡ 1 = ground arith in
    let s1 : Heap = record s { header = marked true s.header (last 0 xs) b ys } in
    (
      s1,
      rw (some_ptr, p) (rw l.0 (rw flags refl)),
      Change-IsHeap s s1 xs (b ∷ ys) ((record b { free = true }) ∷ ys) h
          (marked-Change true s.header (last 0 xs) b ys l bl apart) refl
          (h.end ∙ last-append 0 xs (b ∷ ys)),
    )

-- The blocks after `b`, behind `xs`, is freed: first the next block joins it, then it joins the one
-- before.
abbrev pub freed : List Block → Block → List Block → List Block
freed [] b ys = join_right (record b { free = true }) ys
freed (x ∷ []) b ys = join_left x (join_right (record b { free = true }) ys)
freed (x ∷ x' ∷ xs) b ys = x ∷ freed (x' ∷ xs) b ys

-- `join_right` keeps a block at the front, with the eq_self address.
front :
    (b : Block) (ys : List Block)
    → (c : Block) × (zs : List Block) × (join_right b ys ≡ c ∷ zs) × (c.addr ≡ b.addr)
front b [] = (b, [], refl, refl)
front b (y ∷ ys) = elim (Bool-cases (y.free && adjacent b y)) [
  | inl joins ↦ (merged b y, ys, rw joins refl, refl)
  | inr stays ↦ (b, y ∷ ys, rw stays refl, refl)
]

freed-snoc :
    (xs : List Block) (v b : Block) (ys : List Block)
    → freed (xs ++ v ∷ []) b ys ≡ xs ++ join_left v (join_right (record b { free = true }) ys)
freed-snoc [] v b ys = refl
freed-snoc (x ∷ []) v b ys = refl
freed-snoc (x ∷ x' ∷ xs) v b ys = ap (λ l. x ∷ l) (freed-snoc (x' ∷ xs) v b ys)

-- A list is empty or has a last block.
snoc-cases : (xs : List Block) → (xs ≡ []) ⊎ ((us : List Block) × (v : Block) × (xs ≡ us ++ v ∷ []))
snoc-cases [] = inl refl
snoc-cases (x ∷ xs) = elim (snoc-cases xs) [
  | inl e ↦ inr ([], x, ap (λ l. x ∷ l) e)
  | inr (us, v, e) ↦ inr (x ∷ us, v, ap (λ l. x ∷ l) e)
]

Freed : Heap → ℕ → List Block → Type 0
Freed s ptr bs = (s' : Heap) × (kmfree ptr s ≡ done s') × IsHeap s' bs

kmfree-first :
    (s : Heap) (b : Block) (ys : List Block)
    → IsHeap s (b ∷ ys)
    → Freed s (b.addr + header_size) (freed [] b ys)
unfolding Freed
kmfree-first s b ys h =
    let (s1, begin, h1) = freed-IsHeap s [] b ys h in
    let (s2, next, h2) = join_next-IsHeap s1 [] (record b { free = true }) ys h1 in
    let (c, zs, e, a) = front (record b { free = true }) ys in
    let prev : join_prev s2 b.addr ≡ done s2 =
      subst (λ x. join_prev s2 x ≡ done s2) a (join_prev-first s2 c zs (subst (IsHeap s2) e h2)) in
    (s2, begin ∙ ap (λ r. r >>= λ s'. join_prev s' b.addr) next ∙ prev, h2)

kmfree-behind :
    (s : Heap) (us : List Block) (v b : Block) (ys : List Block)
    → IsHeap s (us ++ v ∷ b ∷ ys)
    → Freed s (b.addr + header_size) (us ++ join_left v (join_right (record b { free = true }) ys))
unfolding Freed
kmfree-behind s us v b ys h =
    let move = λ (zs : List Block). append_assoc us (v ∷ []) zs in
    let (s1, begin, h1) =
      freed-IsHeap s (us ++ v ∷ []) b ys (subst (IsHeap s) (sym (move (b ∷ ys))) h) in
    let (s2, next, h2) = join_next-IsHeap s1 (us ++ v ∷ []) (record b { free = true }) ys h1 in
    let (c, zs, e, a) = front (record b { free = true }) ys in
    let (s3, prev, h3) =
      join_prev-IsHeap s2 us v c zs
        (subst (IsHeap s2) (move (c ∷ zs)) (subst (λ l. IsHeap s2 ((us ++ v ∷ []) ++ l)) e h2)) in
    (
      s3,
      begin
          ∙ ap (λ r. r >>= λ s'. join_prev s' b.addr) next
          ∙ subst (λ x. join_prev s2 x ≡ done s3) a prev,
      subst (λ l. IsHeap s3 (us ++ join_left v l)) (sym e) h3,
    )

-- `kmfree` on the address of a block, behind its header, returns, and the heap then has the block
-- as a free one, joined with the block after it and then with the block before it where these are
-- free and adjacent. All other blocks stay.
pub kmfree-IsHeap :
    (s : Heap) (xs : List Block) (b : Block) (ys : List Block)
    → IsHeap s (xs ++ b ∷ ys)
    → (s' : Heap) × (kmfree (b.addr + header_size) s ≡ done s') × IsHeap s' (freed xs b ys)
unfolding Freed
kmfree-IsHeap s xs b ys h = elim (snoc-cases xs) [
  | inl e ↦
      let (s', run, g) = kmfree-first s b ys (subst (λ l. IsHeap s (l ++ b ∷ ys)) e h) in
      (s', run, subst (λ l. IsHeap s' (freed l b ys)) (sym e) g)
  | inr (us, v, e) ↦
      let h' =
        subst (IsHeap s) (append_assoc us (v ∷ []) (b ∷ ys))
          (subst (λ l. IsHeap s (l ++ b ∷ ys)) e h) in
      let (s', run, g) = kmfree-behind s us v b ys h' in
      (
        s',
        run,
        subst (λ l. IsHeap s' (freed l b ys)) (sym e)
            (subst (IsHeap s') (sym (freed-snoc us v b ys)) g),
      )
]
