-- ===== src/Tests/MemutilTests.antt =====
-- Blocks of a memory whose byte at address `a` is `a + 1`, up to a zero byte at address 200.
use garn_os.Prelude.{suc, ◌≡◌, refl, ltb, if◌then◌else◌}
use garn_os.Memutil.{Memory, memcpy, memmove, copy_up, copy_down}
use garn_os.Memutil.Copy.{copied, memmove-copied}

abbrev counting : Memory
counting a = if ltb a 200 then suc a else 0

memmove-copied_example : memmove counting 12 10 5 14 ≡ copied counting 12 10 5 14
memmove-copied_example = memmove-copied counting 12 10 5 14

-- `memcpy` of the same overlapping blocks repeats the first two bytes.
overlap : (memmove counting 12 10 5 14 ≡ 13) × (memcpy counting 12 10 5 14 ≡ 11)
unfolding memmove memcpy copy_up copy_down
overlap = (refl, refl)
