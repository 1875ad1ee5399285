-- ===== src/Kvprintf/Signed.antt =====
-- `%d` against `%u`.
use garn_os.Prelude.{
  ℕ, zero, suc, ◌+◌, ◌-◌, ◌/◌, ◌%◌, ◌^◌, ◌<◌, ◌≡◌, ◌≢◌, refl, ap, ◌∙◌, arith, true, false, leb,
  ◌==◌, inl, inr, Bool-cases, eq_false,
}
use garn_os.Kvprintf.{
  Buffer, put, decimal_size, write_decimal, print_unsigned, write_signed, print_signed,
  signed_digit, int_min,
}

-- The characters of the second buffer from `start` on are those of the first.
Shifted : ℕ → Buffer → Buffer → Type 0
Shifted start b c = (i : ℕ) → c (start + i) ≡ b i

write_signed-Shifted :
    (num start k n : ℕ) (b c : Buffer)
    → num ≢ int_min
    → Shifted start b c
    → Shifted start (write_decimal k n b) (write_signed (signed_digit num) start k n c)
unfolding Shifted write_signed write_decimal
write_signed-Shifted num start zero n b c small h = h
write_signed-Shifted num start (suc k) n b c small h =
    let plain = eq_false num int_min small in
    write_signed-Shifted num start k (n / 10) (put b k (n % 10 + 48))
      (put c (start + k) (signed_digit num (n % 10))) small
      (λ i. elim (Bool-cases (i == k)) [
        | inl here ↦
            let there : (start + i == start + k) ≡ true = ground (arith, here) in
            rw (here, there, plain) refl
        | inr other ↦
            let there : (start + i == start + k) ≡ false = ground (arith, other) in
            rw (other, there) (h i)
      ])

-- What is before `start` stays.
write_signed-before :
    (digit : ℕ → ℕ) (start k n : ℕ) (c : Buffer) (i : ℕ)
    → i < start
    → write_signed digit start k n c i ≡ c i
unfolding write_signed
write_signed-before digit start zero n c i h = refl
write_signed-before digit start (suc k) n c i h =
    let other : (i == start + k) ≡ false = ground (arith, h) in
    write_signed-before digit start k (n / 10) (put c (start + k) (digit (n % 10))) i h
    ∙ rw other refl

-- The zero character behind the text.
end-Shifted :
    (start size : ℕ) (b c : Buffer)
    → Shifted start b c
    → Shifted start (put b size 0) (put c (start + size) 0)
unfolding Shifted
end-Shifted start size b c h i = elim (Bool-cases (i == size)) [
  | inl here ↦
      let there : (start + i == start + size) ≡ true = ground (arith, here) in rw (here, there) refl
  | inr other ↦
      let there : (start + i == start + size) ≡ false = ground (arith, other) in
      rw (other, there) (h i)
]

-- `%d` of a number from 0 on, that an `int` holds, writes what `%u` writes.
pub print_signed-print_unsigned :
    (num : ℕ) (b : Buffer) (i : ℕ) → num < 2 ^ 31 → print_signed num b i ≡ print_unsigned num b i
unfolding print_signed print_unsigned Shifted
print_signed-print_unsigned num b i small =
    let low : num % 2 ^ 32 ≡ num = omega arith in
    let above : leb int_min num ≡ false = ground (arith, small) in
    let size = decimal_size 20 num in
    let w = write_signed (signed_digit num) 0 size num b in
    let here : i ≡ 0 + i = omega arith in
    let same : Shifted 0 b b = λ j. ap b (omega arith) in
    let text = write_signed-Shifted num 0 size num b b (omega arith) same in
    rw (low, above)
      (ap (put w (0 + size) 0) here ∙ end-Shifted 0 size (write_decimal size num b) w text i)

-- `%d` of a negative number, that an `int` holds and that is not the lowest one, writes a minus
-- sign, and behind it what `%u` writes of its absolute value.
pub print_signed-negative :
    (m : ℕ) (b : Buffer) (i : ℕ)
    → 0 < m
    → m < 2 ^ 31
    → (print_signed (2 ^ 64 - m) b 0 ≡ 45)
      × (print_signed (2 ^ 64 - m) b (1 + i) ≡ print_unsigned m (λ j. b (1 + j)) i)
unfolding print_signed print_unsigned Shifted
print_signed-negative m b i positive small =
    let low : (2 ^ 64 - m) % 2 ^ 32 ≡ 2 ^ 32 - m = omega arith in
    let below : leb int_min (2 ^ 32 - m) ≡ true = ground (arith, small) in
    let back : 2 ^ 32 - (2 ^ 32 - m) ≡ m = omega arith in
    let size = decimal_size 20 m in
    let minus = put b 0 45 in
    let same : Shifted 1 (λ j. b (1 + j)) minus =
      λ j. let other : (1 + j == 0) ≡ false = ground arith in rw other refl in
    let n = 2 ^ 32 - m in
    let text = write_signed-Shifted n 1 size m (λ j. b (1 + j)) minus (omega arith) same in
    let behind : (0 == 1 + size) ≡ false = ground arith in
    (
      rw (low, below, back, behind)
          (write_signed-before (signed_digit n) 1 size m minus 0 (omega arith)),
      rw (low, below, back)
          (end-Shifted 1 size (write_decimal size m (λ j. b (1 + j)))
            (write_signed (signed_digit n) 1 size m minus) text i),
    )
