-- ===== src/Kheap/Blocks.antt =====
-- The blocks of the heap: what the headers in memory mean.
use garn_os.Prelude.{
  eq_self, ℕ, ◌+◌, ◌%◌, ◌^◌, ◌<◌, ◌≤◌, ◌≡◌, ◌≢◌, ◌⊎◌, inl, inr, refl, sym, ap, ◌∙◌, arith, Bool,
  false, some, List, [], ◌∷◌, ◌++◌, ◌==◌, if◌then◌else◌,
}
use garn_os.Kheap.{Header, Memory, Heap, header_size, put_header}

-- `size` bytes behind the header at `addr`.
pub record Block : Type 0 where
  pub addr : ℕ
  pub size : ℕ
  pub free : Bool

abbrev pub block_end : Block → ℕ
block_end b = b.addr + header_size + b.size

abbrev pub Apart : Block → Block → Type 0
Apart b c = (block_end b ≤ c.addr) ⊎ (block_end c ≤ b.addr)

abbrev pub ApartFrom : Block → List Block → Type 0
ApartFrom b [] = Unit
ApartFrom b (c ∷ cs) = Apart b c × ApartFrom b cs

abbrev pub AllApart : List Block → Type 0
AllApart [] = Unit
AllApart (b ∷ bs) = ApartFrom b bs × AllApart bs

-- Blocks and sizes are multiples of 16, and a block ends within the address space.
pub record IsBlock (b : Block) : Type 0 where
  pub nonzero : b.addr ≢ 0
  pub fits : block_end b < 2 ^ 64
  pub addr_aligned : b.addr % 16 ≡ 0
  pub size_aligned : b.size % 16 ≡ 0

abbrev pub AreBlocks : List Block → Type 0
AreBlocks [] = Unit
AreBlocks (b ∷ bs) = IsBlock b × AreBlocks bs

-- The address of the first block, and `p` behind all blocks.
abbrev pub first : List Block → ℕ → ℕ
first [] p = p
first (b ∷ bs) p = b.addr

abbrev pub last : ℕ → List Block → ℕ
last p [] = p
last p (b ∷ bs) = last b.addr bs

abbrev pub flags_of : Bool → ℕ
flags_of free = if free then 1 else 0

abbrev pub header_of : Block → ℕ → ℕ → Header
header_of b next prev = record { size = b.size; flags = flags_of b.free; next = next; prev = prev }

-- Memory links the blocks in both directions, with `prev` before them.
abbrev pub Linked : Memory → ℕ → List Block → Type 0
Linked m prev [] = Unit
Linked m prev (b ∷ bs) = (m b.addr ≡ some (header_of b (first bs 0) prev)) × Linked m b.addr bs

-- The heap consists of the blocks.
pub record IsHeap (s : Heap) (bs : List Block) : Type 0 where
  pub linked : Linked s.header 0 bs
  pub blocks : AreBlocks bs
  pub apart : AllApart bs
  pub start : s.start ≡ first bs 0
  pub end : s.end ≡ last 0 bs

-- Memory that changed outside of some blocks still links them.
abbrev pub Kept : Memory → Memory → List Block → Type 0
Kept m m' bs = (b : Block) → ApartFrom b bs → m' b.addr ≡ m b.addr

pub Apart-sym : (b c : Block) → Apart b c → Apart c b
Apart-sym b c (inl h) = inr h
Apart-sym b c (inr h) = inl h

pub Apart-ne : (b c : Block) → Apart b c → b.addr ≢ c.addr
Apart-ne b c h = ground (arith, h)

pub ApartFrom-append_l : (b : Block) (xs ys : List Block) → ApartFrom b (xs ++ ys) → ApartFrom b xs
ApartFrom-append_l b [] ys h = tt
ApartFrom-append_l b (x ∷ xs) ys (h, t) = (h, ApartFrom-append_l b xs ys t)

pub ApartFrom-append_r : (b : Block) (xs ys : List Block) → ApartFrom b (xs ++ ys) → ApartFrom b ys
ApartFrom-append_r b [] ys h = h
ApartFrom-append_r b (x ∷ xs) ys (h, t) = ApartFrom-append_r b xs ys t

ApartFrom-append :
    (b : Block) (xs ys : List Block) → ApartFrom b xs → ApartFrom b ys → ApartFrom b (xs ++ ys)
ApartFrom-append b [] ys h k = k
ApartFrom-append b (x ∷ xs) ys (h, t) k = (h, ApartFrom-append b xs ys t k)

pub AreBlocks-append_r : (xs ys : List Block) → AreBlocks (xs ++ ys) → AreBlocks ys
AreBlocks-append_r [] ys h = h
AreBlocks-append_r (x ∷ xs) ys (h, t) = AreBlocks-append_r xs ys t

pub AllApart-append_r : (xs ys : List Block) → AllApart (xs ++ ys) → AllApart ys
AllApart-append_r [] ys h = h
AllApart-append_r (x ∷ xs) ys (h, t) = AllApart-append_r xs ys t

pub last-append : (p : ℕ) (xs ys : List Block) → last p (xs ++ ys) ≡ last (last p xs) ys
last-append p [] ys = refl
last-append p (x ∷ xs) ys = last-append x.addr xs ys

pub Linked-append_r :
    (m : Memory) (p : ℕ) (xs ys : List Block) → Linked m p (xs ++ ys) → Linked m (last p xs) ys
Linked-append_r m p [] ys h = h
Linked-append_r m p (x ∷ xs) ys (h, t) = Linked-append_r m x.addr xs ys t

-- A step that turns the blocks `zs` at the end of the list into `zs'`, with the block before them
-- at `prev`.
pub record Change (m m' : Memory) (prev : ℕ) (zs zs' : List Block) : Type 0 where
  pub linked : Linked m' prev zs'
  pub blocks : AreBlocks zs'
  pub apart : AllApart zs'
  pub first : first zs' 0 ≡ first zs 0
  pub kept : Kept m m' zs
  pub within : (b : Block) → ApartFrom b zs → ApartFrom b zs'

first-append :
    (xs zs zs' : List Block) → first zs' 0 ≡ first zs 0 → first (xs ++ zs') 0 ≡ first (xs ++ zs) 0
first-append [] zs zs' h = h
first-append (x ∷ xs) zs zs' h = refl

Change-cons :
    (m m' : Memory) (prev : ℕ) (x : Block) (zs zs' : List Block)
    → m x.addr ≡ some (header_of x (first zs 0) prev)
    → IsBlock x
    → ApartFrom x zs
    → Change m m' x.addr zs zs'
    → Change m m' prev (x ∷ zs) (x ∷ zs')
Change-cons m m' prev x zs zs' at blk out c = record {
  linked = (rw c.first (c.kept x out ∙ at), c.linked);
  blocks = (blk, c.blocks);
  apart = (c.within x out, c.apart);
  first = refl;
  kept = λ b h. c.kept b h.1;
  within = λ b h. (h.0, c.within b h.1);
}

-- The blocks in front do not matter.
pub Change-append :
    (m m' : Memory) (prev : ℕ) (xs zs zs' : List Block)
    → Linked m prev (xs ++ zs)
    → AreBlocks (xs ++ zs)
    → AllApart (xs ++ zs)
    → Change m m' (last prev xs) zs zs'
    → Change m m' prev (xs ++ zs) (xs ++ zs')
Change-append m m' prev [] zs zs' l bl ap c = c
Change-append m m' prev (x ∷ xs) zs zs' (at, l) (blk, bl) (out, ap) c =
    Change-cons m m' prev x (xs ++ zs) (xs ++ zs') at blk out
      (Change-append m m' x.addr xs zs zs' l bl ap c)

-- A change of the last blocks gives a heap again.
pub Change-IsHeap :
    (s s' : Heap) (xs zs zs' : List Block)
    → IsHeap s (xs ++ zs)
    → Change s.header s'.header (last 0 xs) zs zs'
    → s'.start ≡ s.start
    → s'.end ≡ last (last 0 xs) zs'
    → IsHeap s' (xs ++ zs')
Change-IsHeap s s' xs zs zs' h c st en =
    let d = Change-append s.header s'.header 0 xs zs zs' h.linked h.blocks h.apart c in
    record {
      linked = d.linked;
      blocks = d.blocks;
      apart = d.apart;
      start = st ∙ h.start ∙ sym d.first;
      end = en ∙ sym (last-append 0 xs zs');
    }

-- A write outside of the blocks.
pub Linked-put_header :
    (m : Memory) (a : Block) (h : Header) (prev : ℕ) (bs : List Block)
    → ApartFrom a bs
    → Linked m prev bs
    → Linked (put_header m a.addr h) prev bs
Linked-put_header m a h prev [] out l = tt
Linked-put_header m a h prev (b ∷ bs) (ne, out) (at, l) =
    let other : (b.addr == a.addr) ≡ false = ground (arith, Apart-ne a b ne) in
    (rw other at, Linked-put_header m a h b.addr bs out l)

-- The first of the blocks gets another block before it.
abbrev pub with_prev : Memory → ℕ → List Block → Memory
with_prev m q [] = m
with_prev m q (b ∷ bs) = put_header m b.addr (header_of b (first bs 0) q)

pub Linked-with_prev :
    (m : Memory) (p q : ℕ) (bs : List Block)
    → AllApart bs
    → Linked m p bs
    → Linked (with_prev m q bs) q bs
Linked-with_prev m p q [] out l = tt
Linked-with_prev m p q (b ∷ bs) (out, ap) (at, l) =
    let here = eq_self b.addr in (rw here refl, Linked-put_header m b _ b.addr bs out l)

pub Kept-with_prev : (m : Memory) (q : ℕ) (bs : List Block) → Kept m (with_prev m q bs) bs
Kept-with_prev m q [] b out = refl
Kept-with_prev m q (c ∷ bs) b (ne, out) =
    let other : (b.addr == c.addr) ≡ false = ground (arith, Apart-ne b c ne) in rw other refl

last-ne : (b y : Block) (ys : List Block) → Apart b y → ApartFrom b ys → b.addr ≢ last y.addr ys
last-ne b y [] ne out = Apart-ne b y ne
last-ne b y (z ∷ ys) ne (ne', out) = last-ne b z ys ne' out

-- The end of the blocks, when `q` takes the place of the block `b` in front of `ys`.
pub replaced_end :
    (e q : ℕ) (b : Block) (ys : List Block)
    → ApartFrom b ys
    → e ≡ last b.addr ys
    → (if b.addr == e then q else e) ≡ last q ys
replaced_end e q b [] out h = ground arith
replaced_end e q b (y ∷ ys) (ne, out) h =
    let other = last-ne b y ys ne out in let no : (b.addr == e) ≡ false = ground arith in rw no h
