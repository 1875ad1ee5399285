-- ===== src/Partitions/Bytes.antt =====
-- What stands behind the 512 bytes of a block does not matter to entries of at least 56 bytes.
use garn_os.Prelude.{
  ℕ, zero, suc, get_or-append, ◌+◌, ◌*◌, ◌/◌, ◌≤◌, ◌≡◌, refl, ap₂, arith, List, ◌++◌, length,
}
use garn_os.Prelude.Words.{little_endian}
use garn_os.Partitions.{Drive, entry_of, scan_block}

little_endian-append :
    (width : ℕ) (bytes more : List ℕ) (i : ℕ)
    → i + width ≤ length bytes
    → little_endian width (bytes ++ more) i ≡ little_endian width bytes i
unfolding little_endian
little_endian-append zero bytes more i h = refl
little_endian-append (suc width) bytes more i h =
    ap₂ (λ x y. x + 256 * y) (get_or-append bytes more i 0 (omega arith))
      (little_endian-append width bytes more (i + 1) (omega arith))

entry_of-append :
    (bytes more : List ℕ) (at : ℕ)
    → at + 56 ≤ length bytes
    → entry_of (bytes ++ more) at ≡ entry_of bytes at
unfolding entry_of
entry_of-append bytes more at h =
    let word_at = λ (i : ℕ) (l : i + 8 ≤ length bytes). little_endian-append 8 bytes more i l in
    rw
      (
        word_at at (omega arith),
        word_at (at + 8) (omega arith),
        word_at (at + 16) (omega arith),
        word_at (at + 32) (omega arith),
        word_at (at + 40) (omega arith),
        word_at (at + 48) (omega arith),
      )
      refl

entry_inside : (size j k n : ℕ) → 56 ≤ size → (j + suc k) * size ≤ n → j * size + 56 ≤ n
entry_inside size j k n whole h = grind arith

pub scan_block-append :
    (boot size : ℕ) (bytes more : List ℕ)
    → 56 ≤ size
    → (k j : ℕ) (d : Drive) → (j + k) * size ≤ length bytes
    → scan_block boot size k j (bytes ++ more) d ≡ scan_block boot size k j bytes d
unfolding scan_block
scan_block-append boot size bytes more whole zero j d h = refl
scan_block-append boot size bytes more whole (suc k) j d h =
    let e = entry_of-append bytes more (j * size) (entry_inside size j k _ whole h) in
    let room : (j + 1 + k) * size ≤ length bytes = grind arith in
    rw e (scan_block-append boot size bytes more whole k (j + 1) _ room)

pub blocks_fit : (size : ℕ) → 56 ≤ size → (0 + 512 / size) * size ≤ 512
blocks_fit size whole = grind arith
