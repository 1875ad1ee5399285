-- ===== src/Bcache.antt =====
-- kernel/sys/dal/stor/bcache.c: the buffers that hold blocks of the drives.
-- A buffer is named by its index; a pointer that may be null is an `Option`. The locks are held over
-- each function. The operations of a drive belong to its driver, and are the record `Drives` over a
-- state `W` of the hardware. A panic stops the kernel, and is the outcome `fault`. The loops over the
-- buffers take fuel.
pub mod Chain
pub mod Bypass
pub mod Get
pub mod Release
use garn_os.Prelude.{
  ℕ, zero, suc, ◌+◌, ◌-◌, ◌%◌, ◌^◌, Bool, true, false, not, ◌&&◌, Option, none, some, List, ◌==◌,
  if◌then◌else◌, replicate,
}
use garn_os.Prelude.Exec.{Exec, done, fault, spent, ◌>>=◌}

abbrev pub buf_count : ℕ
buf_count = 30

abbrev pub block_size : ℕ
block_size = 512

abbrev pub enosys : ℕ
enosys = 88

-- `bcache_buf_t`
pub record Buf : Type 0 where
  pub valid : Bool
  pub dirty : Bool
  pub ref_count : ℕ
  pub contents : List ℕ
  pub block : ℕ
  pub drive : ℕ
  pub next : Option ℕ
  pub prev : Option ℕ

-- The `read` and `write` of each drive, for one block; `none` is a null pointer.
pub record Drives (W : Type 0) : Type 0 where
  pub read : ℕ → Option (ℕ → W → List ℕ × W)
  pub write : ℕ → Option (ℕ → List ℕ → W → W)

-- `bcache_t`, with `kerrno` and the hardware.
pub record Bcache (W : Type 0) : Type 0 where
  pub head : Option ℕ
  pub tail : ℕ
  pub buf : ℕ → Buf
  pub kerrno : ℕ
  pub hw : W

abbrev pub put : (ℕ → Buf) → ℕ → Buf → ℕ → Buf
put b i r j = if j == i then r else b j

-- `p == i`
abbrev pub points_at : Option ℕ → ℕ → Bool
points_at none i = false
points_at (some j) i = j == i

-- `if(p) p->prev = q` and `if(p) p->next = q`
abbrev pub set_prev : (ℕ → Buf) → Option ℕ → Option ℕ → ℕ → Buf
set_prev b none q = b
set_prev b (some j) q = put b j (record (b j) { prev = q })

abbrev pub set_next : (ℕ → Buf) → Option ℕ → Option ℕ → ℕ → Buf
set_next b none q = b
set_next b (some j) q = put b j (record (b j) { next = q })

-- The loops of `bcache_init`, with `k` rounds left.
unfoldable pub link_next : ℕ → ℕ → (ℕ → Buf) → ℕ → Buf
link_next zero i b = b
link_next (suc k) i b = link_next k (i + 1) (put b i (record (b i) { next = some (i + 1) }))

unfoldable pub link_prev : ℕ → (ℕ → Buf) → ℕ → Buf
link_prev zero b = b
link_prev (suc i) b = link_prev i (put b (suc i) (record (b (suc i)) { prev = some i }))

-- A loop of `bcache_get` from the buffer `p`: the first that meets the test.
unfoldable pub find_buf : ℕ → (Buf → Bool) → (ℕ → Buf) → Option ℕ → Exec (Option ℕ)
find_buf zero test b p = spent
find_buf (suc fuel) test b none = done none
find_buf (suc fuel) test b (some i) =
    let rest = find_buf fuel test b (b i).next in if test (b i) then done (some i) else rest

abbrev pub holds_block : ℕ → ℕ → Buf → Bool
holds_block drive block r = r.drive == drive && (r.block == block && r.valid)

abbrev pub is_unused : Buf → Bool
is_unused r = r.ref_count == 0

module _ {W : Type 0} where
  abbrev pub set_buf : Bcache W → ℕ → Buf → Bcache W
  set_buf c i r = record c { buf = put c.buf i r }

  unfoldable pub bcache_init : Bcache W → Bcache W
  bcache_init c =
      let b1 = link_next (buf_count - 1) 0 c.buf in
      let b2 = put b1 (buf_count - 1) (record (b1 (buf_count - 1)) { next = none }) in
      let b3 = link_prev (buf_count - 1) b2 in
      record c {
        head = some 0;
        tail = buf_count - 1;
        buf = put b3 0 (record (b3 0) { prev = none });
      }

  unfoldable pub bcache_release : Bcache W → ℕ → Bcache W
  bcache_release c i =
      let count = (c.buf i).ref_count - 1 in
      let b0 = put c.buf i (record (c.buf i) { ref_count = count }) in
      let b1 = put b0 c.tail (record (b0 c.tail) { next = some i }) in
      let next = (b1 i).next in
      let b2 = set_prev b1 next (b1 i).prev in
      let b3 = set_next b2 (b2 i).prev next in
      if (c.buf i).ref_count == 0
      then c
      else if count == 0
      then record c {
        head = if points_at c.head i then next else c.head;
        tail = i;
        buf = put b3 i (record (b3 i) { prev = some c.tail; next = none; valid = false });
      }
      else record c { buf = b0 }

  module _ (drives : Drives W) where
    -- Whether 0 is returned.
    unfoldable pub bcache_read : Bcache W → ℕ → Bool × Bcache W
    bcache_read c i = elim (drives.read (c.buf i).drive) [
      | none ↦ (false, record c { kerrno = enosys })
      | some read ↦
          let r = read (c.buf i).block c.hw in
          (true, record c { buf = put c.buf i (record (c.buf i) { contents = r.0 }); hw = r.1 })
    ]

    -- `write` is called once before it is tested; a call of the null pointer is a fault.
    unfoldable pub bcache_write : Bcache W → ℕ → Exec (Bool × Bcache W)
    bcache_write c i =
        if (c.buf i).dirty
        then (elim (drives.write (c.buf i).drive) [
          | none ↦ fault
          | some write ↦
              let once = write (c.buf i).block (c.buf i).contents c.hw in
              done (
                true,
                record c {
                  buf = put c.buf i (record (c.buf i) { dirty = false });
                  hw = write (c.buf i).block (c.buf i).contents once;
                },
              )
        ])
        else done (true, c)

    -- The unused buffer `i` is loaded with the block.
    unfoldable pub load_buf : Bcache W → ℕ → ℕ → ℕ → Option ℕ × Bcache W
    load_buf c i drive block =
        let c1 = set_buf c i (record (c.buf i) {
          ref_count = ((c.buf i).ref_count + 1) % 2 ^ 32;
          block = block;
          drive = drive;
          valid = true;
          dirty = false;
        }) in
        let r = bcache_read c1 i in
        let c2 = r.1 in
        if r.0
        then (some i, c2)
        else (none, set_buf c2 i (record (c2.buf i) { ref_count = 0; valid = false }))

    unfoldable pub bcache_get : ℕ → Bcache W → ℕ → ℕ → Exec (Option ℕ × Bcache W)
    bcache_get fuel c drive block = find_buf fuel (holds_block drive block) c.buf c.head >>= λ hit.
        elim hit [
          | some i ↦ done (
            some i,
            set_buf c i (record (c.buf i) { ref_count = ((c.buf i).ref_count + 1) % 2 ^ 32 }),
          )
          | none ↦ find_buf fuel is_unused c.buf c.head >>= λ free. elim free [
            | some i ↦ done (load_buf c i drive block)
            | none ↦ fault
          ]
        ]

    -- The loop of `sys_sync` from the buffer `p`.
    unfoldable pub sync_from : ℕ → Bcache W → Option ℕ → Exec (Bcache W)
    sync_from zero c p = spent
    sync_from (suc fuel) c none = done c
    sync_from (suc fuel) c (some i) =
        (if (c.buf i).dirty then (bcache_write c i >>= λ r. done r.1) else done c) >>= λ c'.
        sync_from fuel c' (c'.buf i).next

    unfoldable pub sys_sync : ℕ → Bcache W → Exec (Bcache W)
    sys_sync fuel c = sync_from fuel c c.head
