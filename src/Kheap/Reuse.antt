-- ===== src/Kheap/Reuse.antt =====
-- `kmfree` of what `kmalloc` returned gives the blocks from before.
use garn_os.Prelude.{
  eq_self, ℕ, ◌+◌, ◌-◌, ◌^◌, ◌<◌, ◌≤◌, ◌≡◌, inl, inr, refl, sym, ap, ap₂, subst, ◌∙◌, arith, Bool,
  true, false, ◌&&◌, List, [], ◌∷◌, ◌++◌, length, ltb, Bool-cases,
}
use garn_os.Prelude.Exec.{done}
use garn_os.Prelude.Words.{align_up}
use garn_os.Kheap.{Heap, header_size, kmalloc, kmfree}
use garn_os.Kheap.Blocks.{Block, IsHeap}
use garn_os.Kheap.Alloc.{suits, NoneSuits, given, kmalloc-IsHeap}
use garn_os.Kheap.Join.{adjacent}
use garn_os.Kheap.Free.{join_right, join_left, freed, kmfree-IsHeap}

-- No free block is followed by a free block that is adjacent.
abbrev pub AreJoined : List Block → Type 0
AreJoined [] = Unit
AreJoined (b ∷ []) = Unit
AreJoined (b ∷ c ∷ bs) = ((b.free && (c.free && adjacent b c)) ≡ false) × AreJoined (c ∷ bs)

join_left-stays :
    (v b : Block) (ys : List Block)
    → b.free ≡ true
    → (v.free && (b.free && adjacent v b)) ≡ false
    → join_left v (b ∷ ys) ≡ v ∷ b ∷ ys
join_left-stays v b ys free h =
    let e : (v.free && adjacent v b) ≡ false =
      subst (λ f. (v.free && (f && adjacent v b)) ≡ false) free h in
    rw e refl

freed-joined :
    (xs : List Block) (c b : Block) (zs ys : List Block)
    → join_right (record c { free = true }) zs ≡ b ∷ ys
    → b.free ≡ true
    → AreJoined (xs ++ b ∷ ys)
    → freed xs c zs ≡ xs ++ b ∷ ys
freed-joined [] c b zs ys e free j = e
freed-joined (x ∷ []) c b zs ys e free j = ap (join_left x) e ∙ join_left-stays x b ys free j.0
freed-joined (x ∷ x' ∷ xs) c b zs ys e free j =
    ap (λ l. x ∷ l) (freed-joined (x' ∷ xs) c b zs ys e free j.1)

block-eq :
    (b : Block) (n : ℕ) (f : Bool) → n ≡ b.size → f ≡ b.free → record b { size = n; free = f } ≡ b
block-eq b n f e e' = ap₂ (λ n f. record b { size = n; free = f }) e e'

AreJoined-append_r : (xs ys : List Block) → AreJoined (xs ++ ys) → AreJoined ys
AreJoined-append_r [] ys j = j
AreJoined-append_r (x ∷ []) [] j = tt
AreJoined-append_r (x ∷ []) (y ∷ ys) j = j.1
AreJoined-append_r (x ∷ x' ∷ xs) ys j = AreJoined-append_r (x' ∷ xs) ys j.1

whole-back :
    (b : Block) (ys : List Block)
    → b.free ≡ true
    → AreJoined (b ∷ ys)
    → join_right (record b { free = true }) ys ≡ b ∷ ys
whole-back b [] free j = ap (λ x. x ∷ []) (block-eq b b.size true refl (sym free))
whole-back b (y ∷ ys) free j =
    let e : (y.free && adjacent b y) ≡ false =
      subst (λ f. (f && (y.free && adjacent b y)) ≡ false) free j.0 in
    rw e (ap (λ x. x ∷ y ∷ ys) (block-eq b b.size true refl (sym free)))

cut-back :
    (size : ℕ) (b : Block) (ys : List Block)
    → b.free ≡ true
    → size + header_size < b.size
    → join_right
        (record b { size = size; free = true })
        ((record {
          addr = b.addr + header_size + size;
          size = b.size - (size + header_size);
          free = true;
        })
          ∷ ys)
      ≡ b ∷ ys
cut-back size b ys free room = rw (eq_self (b.addr + header_size + size)) (
    ap (λ x. x ∷ ys)
      (block-eq b (size + (b.size - (size + header_size)) + header_size) true (omega arith)
        (sym free)))

-- In a heap where no two adjacent blocks are free, `kmfree` of the address that `kmalloc` returned
-- for a block that is large enough gives the blocks from before, whether the block was cut or not.
pub kmfree-kmalloc :
    (hhdm fuel rounds size : ℕ) (s : Heap) (xs : List Block) (b : Block) (ys : List Block)
    → IsHeap s (xs ++ b ∷ ys)
    → AreJoined (xs ++ b ∷ ys)
    → size + 16 ≤ 2 ^ 64
    → NoneSuits (align_up size 16) xs
    → suits (align_up size 16) b ≡ true
    → length xs < fuel
    → 0 < rounds
    → (p : ℕ) × (s1 s2 : Heap) × (kmalloc hhdm fuel rounds size s ≡ done (p, s1))
      × (kmfree p s1 ≡ done s2)
      × IsHeap s2 (xs ++ b ∷ ys)
kmfree-kmalloc hhdm fuel rounds size s xs b ys h j small unsuited ok f r =
    let n = align_up size 16 in
    let free : b.free ≡ true = ground (arith, ok) in
    let (s1, run, (h1, _)) =
      kmalloc-IsHeap hhdm fuel rounds size s xs b ys h small unsuited ok f r in
    let back = freed-back n xs b ys s1 free j h1 in
    (b.addr + header_size, s1, back.0, run, back.1, back.2)
  where
    freed-back :
        (n : ℕ) (xs : List Block) (b : Block) (ys : List Block) (s1 : Heap)
        → b.free ≡ true
        → AreJoined (xs ++ b ∷ ys)
        → IsHeap s1 (xs ++ given n b ys)
        → (s2 : Heap) × (kmfree (b.addr + header_size) s1 ≡ done s2) × IsHeap s2 (xs ++ b ∷ ys)
    freed-back n xs b ys s1 free j h1 = elim (Bool-cases (ltb (n + header_size) b.size)) [
      | inl room ↦
          let room' : n + header_size < b.size = ground (arith, room) in
          let cut = record b { size = n; free = false } in
          let rest =
            (record {
              addr = b.addr + header_size + n;
              size = b.size - (n + header_size);
              free = true;
            })
            ∷ ys in
          let (s2, run, h2) = kmfree-IsHeap s1 xs cut rest (rw room at h1) in
          (
            s2,
            run,
            subst (IsHeap s2) (freed-joined xs cut b rest ys (cut-back n b ys free room') free j)
                h2,
          )
      | inr whole ↦
          let used = record b { free = false } in
          let (s2, run, h2) = kmfree-IsHeap s1 xs used ys (rw whole at h1) in
          (
            s2,
            run,
            subst (IsHeap s2)
                (freed-joined xs used b ys ys
                  (whole-back b ys free (AreJoined-append_r xs (b ∷ ys) j)) free j)
                h2,
          )
    ]
