-- ===== src/Prelude/Bits.antt =====
-- The bits of a byte, numbered from the most significant one, as the physical bitmap has them.
-- The native operations have no laws at variables: each fact is checked at every byte and bit.
use Prim.Native.Nat.{ℕ, zero, suc, ◌+◌, ◌-◌, ◌/◌, ◌^◌, ◌<◌, bit_and, bit_or}
use mathlib.Core.Path.{◌≡◌, refl, sym, ◌∙◌}
use mathlib.Core.Bool.{Bool, true, false, not, ◌&&◌, ◌||◌}
use native.Mathlib.Omega.{arith}
use garn_os.Prelude.Tests.{◌==◌, ltb, ==_iff, if◌then◌else◌}

-- `0b10000000 >> j`
abbrev pub mask : ℕ → ℕ
mask j = 128 / 2 ^ j

-- `byte & (0b10000000 >> j)` as a truth value
unfoldable pub test_bit : ℕ → ℕ → Bool
test_bit b j = not (bit_and b (mask j) == 0)

-- `byte |= 0b10000000 >> j`
unfoldable pub set_bit : ℕ → ℕ → ℕ
set_bit b j = bit_or b (mask j)

-- `byte &= ~(0b10000000 >> j)`: the complement is taken in a byte, where the result is stored.
unfoldable pub clear_bit : ℕ → ℕ → ℕ
clear_bit b j = bit_and b (255 - mask j)

upto : ℕ → (ℕ → Bool) → Bool
upto zero p = true
upto (suc n) p = p n && upto n p

upto_lem : (n : ℕ) (p : ℕ → Bool) (x : ℕ) → upto n p ≡ true → x < n → p x ≡ true
unfolding upto
upto_lem zero p x h lt = absurd (omega arith)
upto_lem (suc n) p x h lt = ground (arith, upto_lem n p x)

same : Bool → Bool → Bool
same true b = b
same false b = not b

same_eq : (a b : Bool) → same a b ≡ true → a ≡ b
unfolding same
same_eq true b h = ground arith
same_eq false b h = ground arith

-- Over every byte and every two bits.
table : (ℕ → ℕ → ℕ → Bool) → Bool
table p = upto 256 (λ b. upto 8 (λ j. upto 8 (λ k. p b j k)))

table_lem :
    (p : ℕ → ℕ → ℕ → Bool) (b j k : ℕ) → table p ≡ true → b < 256 → j < 8 → k < 8 → p b j k ≡ true
unfolding table
table_lem p b j k h hb hj hk =
    upto_lem 8 (λ k. p b j k) k
      (upto_lem 8 (λ j. upto 8 (λ k. p b j k)) j
        (upto_lem 256 (λ b. upto 8 (λ j. upto 8 (λ k. p b j k))) b h hb) hj)
      hk

abbrev set_entry : ℕ → ℕ → ℕ → Bool
set_entry b j k = same (test_bit (set_bit b j) k) ((j == k) || test_bit b k)

set_table : table set_entry ≡ true
unfolding table upto test_bit set_bit same
set_table = refl

abbrev clear_entry : ℕ → ℕ → ℕ → Bool
clear_entry b j k = same (test_bit (clear_bit b j) k) (not (j == k) && test_bit b k)

clear_table : table clear_entry ≡ true
unfolding table upto test_bit clear_bit same
clear_table = refl

abbrev range_entry : ℕ → ℕ → ℕ → Bool
range_entry b j k = ltb (set_bit b j) 256 && ltb (clear_bit b j) 256

range_table : table range_entry ≡ true
unfolding table upto set_bit clear_bit
range_table = refl

abbrev undo_entry : ℕ → ℕ → ℕ → Bool
undo_entry b j k = test_bit b j || (clear_bit (set_bit b j) j == b)

undo_table : table undo_entry ≡ true
unfolding table upto test_bit set_bit clear_bit
undo_table = refl

weight : Bool → ℕ → ℕ
weight b j = if b then mask j else 0

-- A byte is the sum of its bits.
from_bits : (ℕ → Bool) → ℕ
unfolding weight
from_bits f =
    weight (f 0) 0
    + weight (f 1) 1
    + weight (f 2) 2
    + weight (f 3) 3
    + weight (f 4) 4
    + weight (f 5) 5
    + weight (f 6) 6
    + weight (f 7) 7

sum_table : upto 256 (λ b. from_bits (test_bit b) == b) ≡ true
unfolding upto from_bits test_bit
sum_table = refl

from_bits-test_bit : (b : ℕ) → b < 256 → from_bits (test_bit b) ≡ b
from_bits-test_bit b h = (==_iff _ b).0 (upto_lem 256 _ b sum_table h)

-- A byte is known by its bits.
pub byte_ext :
    (a b : ℕ) → a < 256 → b < 256 → ((j : ℕ) → j < 8 → test_bit a j ≡ test_bit b j) → a ≡ b
byte_ext a b ha hb h = sym (from_bits-test_bit a ha) ∙ agree ∙ from_bits-test_bit b hb
  where
    agree : from_bits (test_bit a) ≡ from_bits (test_bit b)
    agree =
        unfold from_bits in
        rw (
          h 0 (omega arith),
          h 1 (omega arith),
          h 2 (omega arith),
          h 3 (omega arith),
          h 4 (omega arith),
          h 5 (omega arith),
          h 6 (omega arith),
          h 7 (omega arith),
        )

module _ (b j k : ℕ) (hb : b < 256) (hj : j < 8) (hk : k < 8) where
  pub test_bit-set_bit : test_bit (set_bit b j) k ≡ ((j == k) || test_bit b k)
  test_bit-set_bit = same_eq _ _ (table_lem set_entry b j k set_table hb hj hk)

  pub test_bit-clear_bit : test_bit (clear_bit b j) k ≡ (not (j == k) && test_bit b k)
  test_bit-clear_bit = same_eq _ _ (table_lem clear_entry b j k clear_table hb hj hk)

module _ (b j : ℕ) (hb : b < 256) (hj : j < 8) where
  pub set_bit-lt : set_bit b j < 256
  set_bit-lt = ground (arith, table_lem range_entry b j j range_table hb hj hj)

  pub clear_bit-lt : clear_bit b j < 256
  clear_bit-lt = ground (arith, table_lem range_entry b j j range_table hb hj hj)

  pub clear_bit-set_bit : test_bit b j ≡ false → clear_bit (set_bit b j) j ≡ b
  clear_bit-set_bit h = ground (arith, table_lem undo_entry b j j undo_table hb hj hj)
