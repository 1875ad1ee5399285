-- ===== src/Kvprintf/Numbers.antt =====
-- The printed numbers, read back.
use garn_os.Prelude.{
  ℕ, zero, suc, ◌+◌, ◌-◌, ◌*◌, ◌/◌, ◌%◌, ◌^◌, ◌≤◌, ◌<◌, ◌≡◌, ◌≢◌, ◌⊎◌, subst, refl, ap, ap₂, ◌∙◌,
  arith, true, false, ltb, ◌==◌, if◌then◌else◌, inl, inr, Bool-cases,
}
use garn_os.Kvprintf.{
  Buffer, put, decimal_size, write_decimal, print_unsigned, hex_size, hex_digit, write_hex,
  print_hex,
}

abbrev digit_value : ℕ → ℕ
digit_value c = if ltb c 58 then c - 48 else c - 55

-- The digits of a base: `0` to `9`, and from `A` on those that stand for ten and more.
abbrev pub IsDigit : ℕ → ℕ → Type 0
IsDigit base c = ((48 ≤ c) × (c < 58)) ⊎ ((65 ≤ c) × (c < 55 + base))

-- The value of the first `k` digits of a buffer.
abbrev pub read_digits : ℕ → ℕ → Buffer → ℕ
read_digits base zero b = 0
read_digits base (suc k) b = read_digits base k b * base + digit_value (b k)

abbrev pub power : ℕ → ℕ → ℕ
power base zero = 1
power base (suc k) = base * power base k

-- A buffer holds the text of `num` in a base, in `size` digits, at least one, and nothing behind it is
-- changed.
pub record IsText (base size num : ℕ) (old new : Buffer) : Type 0 where
  pub value : read_digits base size new ≡ num
  pub some_digit : 0 < size
  pub digits : (i : ℕ) → i < size → IsDigit base (new i)
  pub end : new size ≡ 0
  pub behind : (i : ℕ) → size < i → new i ≡ old i

read_digits-same :
    (base k : ℕ) (b c : Buffer)
    → ((i : ℕ) → i < k → b i ≡ c i)
    → read_digits base k b ≡ read_digits base k c
read_digits-same base zero b c h = refl
read_digits-same base (suc k) b c h =
    ap₂ (λ x y. x * base + digit_value y) (read_digits-same base k b c (λ i l. h i (omega arith)))
      (h k (omega arith))

write_decimal-behind : (k num : ℕ) (b : Buffer) (i : ℕ) → k ≤ i → write_decimal k num b i ≡ b i
unfolding write_decimal
write_decimal-behind zero num b i h = refl
write_decimal-behind (suc k) num b i h =
    write_decimal-behind k (num / 10) (put b k (num % 10 + 48)) i (omega arith)
    ∙ (let other : (i == k) ≡ false = ground arith in rw other refl)

write_decimal-read :
    (k num : ℕ) (b : Buffer) → num < power 10 k → read_digits 10 k (write_decimal k num b) ≡ num
unfolding write_decimal
write_decimal-read zero num b h = omega arith
write_decimal-read (suc k) num b h =
    let b' = put b k (num % 10 + 48) in
    let ih = write_decimal-read k (num / 10) b' (omega arith) in
    let same : (k == k) ≡ true = ground arith in
    let last : write_decimal k (num / 10) b' k ≡ num % 10 + 48 =
      write_decimal-behind k (num / 10) b' k (omega arith) ∙ rw same refl in
    rw (ih, last) (ground arith)

decimal_size-bounds :
    (fuel num : ℕ)
    → num < power 10 fuel
    → 0 < fuel
    → (num < power 10 (decimal_size fuel num)) × (decimal_size fuel num ≤ fuel)
unfolding decimal_size
decimal_size-bounds zero num h pos = absurd (omega arith)
decimal_size-bounds (suc fuel) num h pos = elim (Bool-cases (num / 10 == 0)) [
  | inl last ↦ let e : num / 10 ≡ 0 = ground arith in rw last (omega arith, omega arith)
  | inr more ↦
      let n : num / 10 ≢ 0 = ground arith in
      let one : 0 < fuel = positive fuel (num / 10) (omega arith) n in
      let ih = decimal_size-bounds fuel (num / 10) (omega arith) one in
      rw more (step num fuel _ ih.0 ih.1)
]
  where
    positive : (fuel q : ℕ) → q < power 10 fuel → q ≢ 0 → 0 < fuel
    positive zero q h n = absurd (n (omega arith))
    positive (suc f) q h n = omega arith

    step :
        (num fuel d : ℕ)
        → num / 10 < power 10 d
        → d ≤ fuel
        → (num < power 10 (d + 1)) × (d + 1 ≤ suc fuel)
    step num fuel d h l =
        let d1 : d + 1 ≡ suc d = omega arith in
        let e : power 10 (d + 1) ≡ 10 * power 10 d = ap (power 10) d1 in (omega arith, omega arith)

-- The number of digits is the least that holds the number.
decimal_size-least :
    (fuel num : ℕ)
    → num < power 10 fuel
    → 0 < fuel
    → (k : ℕ) × (decimal_size fuel num ≡ suc k) × ((k ≡ 0) ⊎ (power 10 k ≤ num))
unfolding decimal_size
decimal_size-least zero num h pos = absurd (omega arith)
decimal_size-least (suc fuel) num h pos = elim (Bool-cases (num / 10 == 0)) [
  | inl last ↦ rw last (0, refl, inl refl)
  | inr more ↦
      let n : num / 10 ≢ 0 = ground arith in
      let one : 0 < fuel = elim_fuel fuel (omega arith) n in
      let (k, e, least) = decimal_size-least fuel (num / 10) (omega arith) one in
      rw more (suc k, ap (λ d. d + 1) e ∙ omega arith, inr (grown k n least))
]
  where
    elim_fuel : (f : ℕ) → num / 10 < power 10 f → num / 10 ≢ 0 → 0 < f
    elim_fuel zero q n = absurd (n (omega arith))
    elim_fuel (suc f) q n = omega arith

    grown : (k : ℕ) → num / 10 ≢ 0 → (k ≡ 0) ⊎ (power 10 k ≤ num / 10) → power 10 (suc k) ≤ num
    grown k n (inl z) = let e : power 10 k ≡ 1 = ap (power 10) z in omega arith
    grown k n (inr l) = omega arith

-- The first digit is not zero, where the number needs all of its digits.
write_decimal-first :
    (k num : ℕ) (b : Buffer)
    → power 10 k ≤ num
    → num < power 10 (suc k)
    → write_decimal (suc k) num b 0 ≢ 48
unfolding write_decimal
write_decimal-first zero num b least h = ground arith
write_decimal-first (suc k) num b least h =
    write_decimal-first k (num / 10) (put b (suc k) (num % 10 + 48)) (omega arith) (omega arith)

write_decimal-digits :
    (k num : ℕ) (b : Buffer) (i : ℕ) → i < k → IsDigit 10 (write_decimal k num b i)
unfolding write_decimal
write_decimal-digits zero num b i h = absurd (omega arith)
write_decimal-digits (suc k) num b i h = elim (Bool-cases (i == k)) [
  | inl last ↦
      let e : i ≡ k = ground arith in
      let at_k = write_decimal-behind k (num / 10) (put b k (num % 10 + 48)) k (omega arith) in
      let same : (k == k) ≡ true = ground arith in
      rw (e, at_k, same) (inl (omega arith, omega arith))
  | inr other ↦ write_decimal-digits k (num / 10) (put b k (num % 10 + 48)) i (ground arith)
]

-- The zero character behind the digits.
terminated :
    (base size num : ℕ) (b w : Buffer)
    → read_digits base size w ≡ num
    → 0 < size
    → ((i : ℕ) → i < size → IsDigit base (w i))
    → ((i : ℕ) → size ≤ i → w i ≡ b i)
    → IsText base size num b (put w size 0)
terminated base size num b w v pos d behind = record {
  value = read_digits-same base size (put w size 0) w (λ i h. apart i h) ∙ v;
  some_digit = pos;
  digits = λ i h. rw (apart i h) (d i h);
  end = let same : (size == size) ≡ true = ground arith in rw same refl;
  behind =
      λ i h. let other : (i == size) ≡ false = ground arith in rw other (behind i (omega arith));
}
  where
    apart : (i : ℕ) → i < size → put w size 0 i ≡ w i
    apart i h = let other : (i == size) ≡ false = ground arith in rw other refl

-- `%u` of a `uint64_t` writes at least one and at most 20 characters, each from `0` to `9`, which read
-- back as the decimal number, the first of several not `0`, and a zero character behind them, and
-- changes nothing behind that.
pub print_unsigned-IsText :
    (num : ℕ) (b : Buffer)
    → num < 2 ^ 64
    → IsText 10 (decimal_size 20 num) num b (print_unsigned num b)
      × (decimal_size 20 num ≤ 20)
      × ((decimal_size 20 num ≡ 1) ⊎ (print_unsigned num b 0 ≢ 48))
unfolding print_unsigned
print_unsigned-IsText num b h =
    let (enough, most) = decimal_size-bounds 20 num (omega arith) (omega arith) in
    let (k, e, least) = decimal_size-least 20 num (omega arith) (omega arith) in
    (
      terminated 10 (decimal_size 20 num) num b (write_decimal (decimal_size 20 num) num b)
          (write_decimal-read (decimal_size 20 num) num b enough) (omega arith)
          (write_decimal-digits (decimal_size 20 num) num b)
          (write_decimal-behind (decimal_size 20 num) num b),
      most,
      first k e least enough,
    )
  where
    first :
        (k : ℕ)
        → decimal_size 20 num ≡ suc k
        → (k ≡ 0) ⊎ (power 10 k ≤ num)
        → num < power 10 (decimal_size 20 num)
        → (decimal_size 20 num ≡ 1)
          ⊎ (put (write_decimal (decimal_size 20 num) num b) (decimal_size 20 num) 0 0 ≢ 48)
    first k e (inl z) enough = inl (omega arith)
    first k e (inr least) enough =
        let other : (0 == suc k) ≡ false = ground arith in
        inr (
          rw (e, other)
            (write_decimal-first k num b least (subst (λ n. num < power 10 n) e enough)))

write_hex-behind : (k num : ℕ) (b : Buffer) (i : ℕ) → k ≤ i → write_hex k num b i ≡ b i
unfolding write_hex
write_hex-behind zero num b i h = refl
write_hex-behind (suc k) num b i h =
    write_hex-behind k (num / 16) (put b k (hex_digit (num % 16))) i (omega arith)
    ∙ (let other : (i == k) ≡ false = ground arith in rw other refl)

hex_digit-IsDigit : (r : ℕ) → r < 16 → IsDigit 16 (hex_digit r)
hex_digit-IsDigit r h = elim (Bool-cases (ltb r 10)) [
  | inl low ↦ let l : r < 10 = ground arith in rw low (inl (omega arith, omega arith))
  | inr high ↦ let l : 10 ≤ r = ground arith in rw high (inr (omega arith, omega arith))
]

write_hex-digits : (k num : ℕ) (b : Buffer) (i : ℕ) → i < k → IsDigit 16 (write_hex k num b i)
unfolding write_hex
write_hex-digits zero num b i h = absurd (omega arith)
write_hex-digits (suc k) num b i h = elim (Bool-cases (i == k)) [
  | inl last ↦
      let e : i ≡ k = ground arith in
      let at_k = write_hex-behind k (num / 16) (put b k (hex_digit (num % 16))) k (omega arith) in
      let same : (k == k) ≡ true = ground arith in
      rw (e, at_k, same) (hex_digit-IsDigit (num % 16) (omega arith))
  | inr other ↦ write_hex-digits k (num / 16) (put b k (hex_digit (num % 16))) i (ground arith)
]

write_hex-read :
    (k num : ℕ) (b : Buffer) → num < power 16 k → read_digits 16 k (write_hex k num b) ≡ num
unfolding write_hex
write_hex-read zero num b h = omega arith
write_hex-read (suc k) num b h =
    let b' = put b k (hex_digit (num % 16)) in
    let ih = write_hex-read k (num / 16) b' (omega arith) in
    let same : (k == k) ≡ true = ground arith in
    let last : write_hex k (num / 16) b' k ≡ hex_digit (num % 16) =
      write_hex-behind k (num / 16) b' k (omega arith) ∙ rw same refl in
    rw (ih, last) (ground arith)

hex_size-bounds : (num : ℕ) → num < 2 ^ 64 → (num < power 16 (hex_size num)) × (hex_size num ≤ 16)
unfolding hex_size
hex_size-bounds num h = ground arith

hex_size-positive : (num : ℕ) → 0 < hex_size num
unfolding hex_size
hex_size-positive num = ground arith

-- `%x` and `%p` of a `uint64_t` write at most 16 hexadecimal digits, which read back as the hexadecimal
-- number, and a zero character behind them, and change nothing behind that.
pub print_hex-IsText :
    (num : ℕ) (b : Buffer)
    → num < 2 ^ 64
    → IsText 16 (hex_size num) num b (print_hex num b) × (hex_size num ≤ 16)
unfolding print_hex
print_hex-IsText num b h =
    let (enough, most) = hex_size-bounds num h in
    (
      terminated 16 (hex_size num) num b (write_hex (hex_size num) num b)
          (write_hex-read (hex_size num) num b enough) (hex_size-positive num)
          (write_hex-digits (hex_size num) num b) (write_hex-behind (hex_size num) num b),
      most,
    )
