-- ===== src/Kheap.antt =====
-- kernel/mem/kheap/kheap.c: the kernel heap, a doubly linked list of block headers.
-- `header` is the memory as the headers that were written to it, by address; the null pointer is
-- 0. The pages come from `Pmm`, whose panic stops the kernel as a `fault` does. The offset of the
-- direct map, which the boot loader gives, is the argument `hhdm`. The lock is held over the work
-- of each function. `kmalloc` takes fuel for the blocks of a search and for its calls of itself.
pub mod Blocks
pub mod Cut
pub mod Alloc
pub mod Extend
pub mod Join
pub mod Free
pub mod Reuse
use garn_os.Prelude.{
  ℕ, zero, suc, ◌+◌, ◌-◌, ◌*◌, ◌/◌, ◌%◌, ◌^◌, Bool, true, false, not, ◌&&◌, ◌||◌, Option, none,
  some, ltb, leb, ◌==◌, if◌then◌else◌,
}
use garn_os.Prelude.Exec.{Exec, done, fault, spent, ◌>>=◌}
use garn_os.Prelude.Words.{word, align_up}
use garn_os.Prelude.Run.{Run, ran, panicked}
use garn_os.Pmm.{Pmm, pmm_allocate}

-- `kheap_block_header_t`
pub record Header : Type 0 where
  pub size : ℕ
  pub flags : ℕ
  pub next : ℕ
  pub prev : ℕ

abbrev pub Memory : Type 0
Memory = ℕ → Option Header

pub record Heap : Type 0 where
  pub header : Memory
  pub start : ℕ
  pub end : ℕ
  pub kheap_size : ℕ
  pub pmm : Pmm

-- `sizeof(kheap_block_header_t)`
abbrev pub header_size : ℕ
header_size = 32

abbrev pub init_pages : ℕ
init_pages = 25000

abbrev pub put_header : Memory → ℕ → Header → Memory
put_header m a h b = if b == a then some h else m b

abbrev found : Option Header → Exec Header
found none = fault
found (some h) = done h

abbrev pub load : Memory → ℕ → Exec Header
load m a = found (m a)

-- `a->next = q` and `a->prev = q`
abbrev pub link_next : Memory → ℕ → ℕ → Exec Memory
link_next m a q = load m a >>= λ h. done (put_header m a (record h { next = q }))

abbrev pub link_prev : Memory → ℕ → ℕ → Exec Memory
link_prev m a q = load m a >>= λ h. done (put_header m a (record h { prev = q }))

abbrev pub is_free : Header → Bool
is_free h = h.flags % 2 == 1

-- A count of pages as the `int` that `pmm_allocate` takes, where a negative one is as good as 0.
abbrev pub as_int : ℕ → ℕ
as_int n = if ltb (n % 2 ^ 32) (2 ^ 31) then n % 2 ^ 32 else 0

abbrev or_fault : Run (ℕ × Pmm) → Exec (ℕ × Pmm)
or_fault (ran r) = done r
or_fault panicked = fault

-- `size` after the first two lines of `kheap_extend`
abbrev pub extent : ℕ → ℕ
extent size = align_up (word (size + header_size)) 4096

unfoldable pub kheap_extend : ℕ → ℕ → Heap → Exec Heap
kheap_extend hhdm size s =
    let n = extent size in
    or_fault (pmm_allocate s.pmm (as_int (n / 4096))) >>= λ r.
    let newh = word (r.0 + hhdm) in
    let h : Header = record {
      size = word (n + 2 ^ 64 - header_size);
      flags = 1;
      next = 0;
      prev = s.end;
    } in
    link_next (put_header s.header newh h) s.end newh >>= λ m.
    done (record s { header = m; end = newh; kheap_size = word (s.kheap_size + n); pmm = r.1 })

unfoldable pub kheap_create_block : Heap → ℕ → ℕ → Exec Heap
kheap_create_block s p size = load s.header p >>= λ h.
    let newh = word (p + header_size + size) in
    let n : Header = record {
      size = word (h.size + 2 ^ 64 - word (size + header_size));
      flags = 1;
      next = h.next;
      prev = p;
    } in
    let m = put_header (put_header s.header newh n) p (record h { size = size; next = newh }) in
    (if h.next == 0 then done m else link_prev m h.next newh) >>= λ m'.
    done (record s { header = m'; end = if p == s.end then newh else s.end })

-- From an empty memory: the first block has all pages but its header.
unfoldable pub kheap_init : ℕ → Memory → Pmm → Exec Heap
kheap_init hhdm m pmm = or_fault (pmm_allocate pmm init_pages) >>= λ r.
    let start = word (r.0 + hhdm) in
    done (record {
      header =
          put_header m start
            (record { size = init_pages * 4096 - header_size; flags = 1; next = 0; prev = 0 });
      start = start;
      end = start;
      kheap_size = 4096 * init_pages;
      pmm = r.1;
    })

-- `h->flags &= ~(KHEAP_FLAGS_FREE)`
abbrev pub use_block : Heap → ℕ → Exec Heap
use_block s p = load s.header p >>= λ h.
    done (record s { header = put_header s.header p (record h { flags = h.flags / 2 * 2 }) })

-- What `kmalloc` returns for a block, and the heap.
abbrev pub taken : ℕ → Heap → Option ℕ × Heap
taken p s = (some (word (p + header_size)), s)

-- The loop of `kmalloc` from block `p`; `none` is the end of the blocks.
unfoldable pub kmalloc_loop : ℕ → ℕ → Heap → ℕ → Exec (Option ℕ × Heap)
kmalloc_loop zero size s p = spent
kmalloc_loop (suc fuel) size s p =
    let rest = load s.header p >>= λ h.
    let on = kmalloc_loop fuel size s h.next in
    if not (is_free h) || ltb h.size size
    then on
    else if h.size == size || (ltb size h.size && leb h.size (word (size + header_size)))
    then (use_block s p >>= λ s'. done (taken p s'))
    else if ltb (word (size + header_size)) h.size
    then (kheap_create_block s p size >>= λ s'. use_block s' p >>= λ s''. done (taken p s''))
    else on in
    if p == 0 then done (none, s) else rest

unfoldable pub kmalloc : ℕ → ℕ → ℕ → ℕ → Heap → Exec (ℕ × Heap)
kmalloc hhdm fuel zero size s = spent
kmalloc hhdm fuel (suc rounds) size s =
    let size' = align_up size 16 in
    kmalloc_loop fuel size' s s.start >>= λ r. elim r.0 [
      | some a ↦ done (a, r.1)
      | none ↦ kheap_extend hhdm size' r.1 >>= λ s'. kmalloc hhdm fuel rounds size' s'
    ]

-- The block at `b`, with header `h`, becomes a part of the block at `a` in front of it.
unfoldable pub absorb : Heap → ℕ → ℕ → Header → Exec Heap
absorb s a b h = load s.header a >>= λ f.
    let m = put_header s.header a (record f { size = word (f.size + h.size + header_size) }) in
    (if h.next == 0 then done m else link_prev m h.next a) >>= λ m'.
    link_next m' a h.next >>= λ m''.
    done (record s { header = m''; end = if b == s.end then a else s.end })

-- The block after `p` joins it, when it is free and adjacent.
unfoldable pub join_next : Heap → ℕ → Exec Heap
join_next s p = load s.header p >>= λ h.
    let joined = load s.header h.next >>= λ n.
    if is_free n && (word (p + h.size + header_size) == h.next)
    then absorb s p h.next n
    else done s in
    if h.next == 0 then done s else joined

-- The block at `p` joins the one before, when that is free and adjacent.
unfoldable pub join_prev : Heap → ℕ → Exec Heap
join_prev s p = load s.header p >>= λ h.
    let joined = load s.header h.prev >>= λ v.
    if is_free v && (word (h.prev + v.size + header_size) == p)
    then absorb s h.prev p h
    else done s in
    if h.prev == 0 then done s else joined

unfoldable pub kmfree : ℕ → Heap → Exec Heap
kmfree ptr s =
    let p = word (ptr + 2 ^ 64 - header_size) in
    let freed = load s.header p >>= λ h.
    join_next
      (record s { header = put_header s.header p (record h { flags = h.flags / 2 * 2 + 1 }) }) p
    >>= λ s'. join_prev s' p in
    if ptr == 0 then done s else freed
