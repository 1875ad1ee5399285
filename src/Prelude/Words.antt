-- ===== src/Prelude/Words.antt =====
-- `size_t` and `uint64_t` arithmetic that goes round at 2 ^ 64, the macro ALIGN_UP of mm.h, and
-- numbers that stand in memory.
use Prim.Native.Nat.{ℕ, zero, suc, ◌+◌, ◌-◌, ◌*◌, ◌%◌, ◌^◌}
use mathlib.Core.List.{List}
use garn_os.Prelude.Tests.{◌==◌, if◌then◌else◌}
use garn_os.Prelude.Lists.{get_or}

abbrev pub word : ℕ → ℕ
word x = x % 2 ^ 64

abbrev pub align_up : ℕ → ℕ → ℕ
align_up x alignment = if x % alignment == 0 then x else word (x + (alignment - x % alignment))

-- The number of `width` bytes from byte `i` on, the lowest byte first.
unfoldable pub little_endian : ℕ → List ℕ → ℕ → ℕ
little_endian zero bytes i = 0
little_endian (suc width) bytes i = get_or bytes i 0 + 256 * little_endian width bytes (i + 1)
