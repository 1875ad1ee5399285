-- ===== src/Memutil.antt =====
-- kernel/mem/memutil/memutil.c: the routines on blocks of bytes.
-- Memory gives the byte at each address. The ranges of a call do not wrap round at 2 ^ 64.
pub mod Copy
pub mod Compare
pub mod Strings
use garn_os.Prelude.{
  ℕ, zero, suc, ◌+◌, ◌-◌, ◌%◌, ◌^◌, Option, none, some, Bool, true, false, not, ◌&&◌, ltb, ◌==◌,
  if◌then◌else◌,
}

abbrev pub Memory : Type 0
Memory = ℕ → ℕ

abbrev pub store : Memory → ℕ → ℕ → Memory
store m a v b = if b == a then v else m b

-- A loop that copies upwards from byte `i`, with `k` bytes left.
unfoldable pub copy_up : ℕ → ℕ → Memory → ℕ → ℕ → Memory
copy_up zero i m dest src = m
copy_up (suc k) i m dest src = copy_up k (i + 1) (store m (dest + i) (m (src + i))) dest src

-- The loop of `memmove` that copies downwards, with `k` bytes left.
unfoldable pub copy_down : ℕ → Memory → ℕ → ℕ → Memory
copy_down zero m dest src = m
copy_down (suc k) m dest src = copy_down k (store m (dest + k) (m (src + k))) dest src

unfoldable pub memcpy : Memory → ℕ → ℕ → ℕ → Memory
memcpy m dest src n = copy_up n 0 m dest src

unfoldable pub memmove : Memory → ℕ → ℕ → ℕ → Memory
memmove m dest src n =
    if ltb dest src
    then copy_up n 0 m dest src
    else if ltb src dest
    then copy_down n m dest src
    else m

-- The loop of `memset` from byte `i`, with `k` bytes left.
unfoldable pub fill_up : ℕ → ℕ → Memory → ℕ → ℕ → Memory
fill_up zero i m s c = m
fill_up (suc k) i m s c = fill_up k (i + 1) (store m (s + i) (c % 256)) s c

unfoldable pub memset : Memory → ℕ → ℕ → ℕ → Memory
memset m s c n = fill_up n 0 m s c

-- The results -1, 0 and 1.
pub data Order : Type 0 where
  less : Order
  equal : Order
  greater : Order

-- The loop of `memcmp` from byte `i`, with `k` bytes left.
unfoldable pub compare_up : ℕ → ℕ → Memory → ℕ → ℕ → Order
compare_up zero i m s1 s2 = equal
compare_up (suc k) i m s1 s2 =
    let rest = compare_up k (i + 1) m s1 s2 in
    if not (m (s1 + i) == m (s2 + i))
    then (if ltb (m (s1 + i)) (m (s2 + i)) then less else greater)
    else rest

unfoldable pub memcmp : Memory → ℕ → ℕ → ℕ → Order
memcmp m s1 s2 n = compare_up n 0 m s1 s2

-- The loop of `strlen`, given a bound on the length: `none` says that the bound was too small.
-- The result is a `uint32_t`.
unfoldable pub count_up : ℕ → ℕ → Memory → ℕ → Option ℕ
count_up zero count m s = none
count_up (suc fuel) count m s =
    let rest = count_up fuel ((count + 1) % 2 ^ 32) m (s + 1) in
    if m s == 0 then some count else rest

unfoldable pub strlen : ℕ → Memory → ℕ → Option ℕ
strlen fuel m s = count_up fuel 0 m s

-- `*s1 - *s2`, an `int` of 32 bits: a `char` has a sign.
abbrev pub sign_extend : ℕ → ℕ
sign_extend c = if ltb c 128 then c else c + (2 ^ 32 - 256)

abbrev pub char_difference : ℕ → ℕ → ℕ
char_difference a b = (sign_extend a + 2 ^ 32 - sign_extend b) % 2 ^ 32

-- `strcmp` and `strncmp`, given a bound on the length as `strlen`.
unfoldable pub strcmp : ℕ → Memory → ℕ → ℕ → Option ℕ
strcmp zero m s1 s2 = none
strcmp (suc fuel) m s1 s2 =
    let rest = strcmp fuel m (s1 + 1) (s2 + 1) in
    if not (m s1 == 0) && (not (m s2 == 0) && (m s1 == m s2))
    then rest
    else some (char_difference (m s1) (m s2))

unfoldable pub strncmp : Memory → ℕ → ℕ → ℕ → ℕ
strncmp m s1 s2 zero = 0
strncmp m s1 s2 (suc n) =
    let rest = strncmp m (s1 + 1) (s2 + 1) n in
    if not (m s1 == 0) && (not (m s2 == 0) && (m s1 == m s2))
    then rest
    else char_difference (m s1) (m s2)

-- The first loop of `strncat`: where the string ends.
unfoldable pub string_end : ℕ → Memory → ℕ → Option ℕ
string_end zero m s = none
string_end (suc fuel) m s =
    let rest = string_end fuel m (s + 1) in if m s == 0 then some s else rest

-- The second loop of `strncat`, with `n` bytes left, and the zero byte behind it.
unfoldable pub append_up : ℕ → Memory → ℕ → ℕ → Memory
append_up zero m s1 s2 = store m s1 0
append_up (suc n) m s1 s2 =
    let m' = store m s1 (m s2) in
    let rest = append_up n m' (s1 + 1) (s2 + 1) in if m s2 == 0 then m' else rest

unfoldable pub strncat : ℕ → Memory → ℕ → ℕ → ℕ → Option Memory
strncat fuel m s1 s2 n = elim (string_end fuel m s1) [
  | none ↦ none
  | some e ↦ some (append_up n m e s2)
]
