-- ===== src/Kvprintf.antt =====
-- kernel/klibc/kstdio/kvprintf.c: the numbers written into `workBuffer`, and the walk over the format.
-- The buffer gives the character at each index; the text ends at the zero character. What is printed
-- is the list of characters that go to the terminal; an argument of the wrong kind, or none, is a
-- fault.
pub mod Numbers
pub mod Signed
use garn_os.Prelude.{
  ℕ, zero, suc, ◌+◌, ◌-◌, ◌*◌, ◌/◌, ◌%◌, ◌^◌, Bool, true, false, ◌||◌, ltb, leb, ◌==◌,
  if◌then◌else◌, List, [], ◌∷◌, ◌++◌, length,
}
use garn_os.Prelude.Exec.{Exec, done, fault, ◌>>=◌}

abbrev pub Buffer : Type 0
Buffer = ℕ → ℕ

abbrev pub put : Buffer → ℕ → ℕ → Buffer
put b i c j = if j == i then c else b j

-- The `do` loop that counts decimal digits, for at most `fuel` rounds; 20 are enough for a
-- `uint64_t`.
unfoldable pub decimal_size : ℕ → ℕ → ℕ
decimal_size zero num = 0
decimal_size (suc fuel) num =
    let rest = decimal_size fuel (num / 10) in if num / 10 == 0 then 1 else rest + 1

-- The loop of `%u`, with `k` digits left: it writes the last digit first.
unfoldable pub write_decimal : ℕ → ℕ → Buffer → Buffer
write_decimal zero num b = b
write_decimal (suc k) num b = write_decimal k (num / 10) (put b k (num % 10 + 48))

unfoldable pub print_unsigned : ℕ → Buffer → Buffer
print_unsigned num b = let size = decimal_size 20 num in put (write_decimal size num b) size 0

-- `xsize + 1`, by the number of bytes of the value.
unfoldable pub hex_size : ℕ → ℕ
hex_size num =
    if ltb 0xff_ffff_ffff_ffff num
    then 16
    else if ltb 0xffff_ffff_ffff num
    then 14
    else if ltb 0xff_ffff_ffff num
    then 12
    else if ltb 0xffff_ffff num
    then 10
    else if ltb 0xff_ffff num
    then 8
    else if ltb 0xffff num
    then 6
    else if ltb 0xff num
    then 4
    else 2

abbrev pub hex_digit : ℕ → ℕ
hex_digit r = if ltb r 10 then 48 + r else 65 + (r - 10)

-- The loop of `%x`, with `k` digits left.
unfoldable pub write_hex : ℕ → ℕ → Buffer → Buffer
write_hex zero num b = b
write_hex (suc k) num b = write_hex k (num / 16) (put b k (hex_digit (num % 16)))

unfoldable pub print_hex : ℕ → Buffer → Buffer
print_hex num b = let size = hex_size num in put (write_hex size num b) size 0

-- The loop of `%d` behind `start`, with `k` digits left; the lowest `int` stays negative, and so do
-- its digits.
unfoldable pub write_signed : (ℕ → ℕ) → ℕ → ℕ → ℕ → Buffer → Buffer
write_signed digit start zero num b = b
write_signed digit start (suc k) num b =
    write_signed digit start k (num / 10) (put b (start + k) (digit (num % 10)))

abbrev pub int_min : ℕ
int_min = 2 ^ 31

abbrev pub signed_digit : ℕ → ℕ → ℕ
signed_digit num d = if num == int_min then 48 - d else d + 48

-- `num` is the argument as 64 bits, of which the `int` takes the low ones.
unfoldable pub print_signed : ℕ → Buffer → Buffer
print_signed num b =
    let n = num % 2 ^ 32 in
    let is_negative = leb int_min n in
    let m = if is_negative then 2 ^ 32 - n else n in
    let start = if is_negative then 1 else 0 in
    let b' = if is_negative then put b 0 45 else b in
    let size = decimal_size 20 m in
    put (write_signed (signed_digit n) start size m b') (start + size) 0

-- An argument behind the format.
pub data Arg : Type 0 where
  number : ℕ → Arg
  text : List ℕ → Arg

-- What `term_print` prints of the buffer from `i` on, at most `k` characters.
unfoldable pub printed : ℕ → ℕ → Buffer → List ℕ
printed zero i b = []
printed (suc k) i b = let rest = printed k (i + 1) b in if b i == 0 then [] else b i ∷ rest

abbrev pub print_buffer : Buffer → List Arg → Exec (List ℕ × List Arg × Buffer)
print_buffer b args = done (printed 256 0 b, args, b)

-- A conversion: the characters, the arguments that are left, and `workBuffer`.
unfoldable pub convert_number :
    (ℕ → Exec (List ℕ × List Arg × Buffer)) → List Arg → Exec (List ℕ × List Arg × Buffer)
convert_number f [] = fault
convert_number f (number n ∷ args) = f n >>= λ r. done (r.0, args, r.2)
convert_number f (text s ∷ args) = fault

unfoldable pub convert_text : Buffer → List Arg → Exec (List ℕ × List Arg × Buffer)
convert_text b [] = fault
convert_text b (number n ∷ args) = fault
convert_text b (text s ∷ args) = done (s, args, b)

-- The `switch`.
unfoldable pub convert : ℕ → List Arg → Buffer → Exec (List ℕ × List Arg × Buffer)
convert c args b =
    if c == 37
    then done (37 ∷ [], args, b)
    else if c == 100
    then convert_number (λ n. print_buffer (print_signed n b) []) args
    else if c == 117
    then convert_number (λ n. print_buffer (print_unsigned n b) []) args
    else if c == 99
    then convert_number (λ n. done (n % 256 ∷ [], [], b)) args
    else if c == 115
    then convert_text b args
    else if c == 120 || c == 112
    then convert_number (λ n. print_buffer (print_hex n b) []) args
    else done ([], args, b)

-- The loop over the format; `percent` says that a percent sign stands before. What was printed, and
-- `workBuffer`.
unfoldable pub format_from : Bool → List ℕ → List Arg → Buffer → Exec (List ℕ × Buffer)
format_from percent [] args b = done ([], b)
format_from true (c ∷ fmt) args b =
    convert c args b >>= λ r. format_from false fmt r.1 r.2 >>= λ q. done (r.0 ++ q.0, q.1)
format_from false (c ∷ fmt) args b =
    let rest = format_from false fmt args b >>= λ q. done (c ∷ q.0, q.1) in
    let conversion = format_from true fmt args b in if c == 37 then conversion else rest

-- What was printed, its length as an `int`, and `workBuffer`.
unfoldable pub kvprintf : List ℕ → List Arg → Buffer → Exec (List ℕ × ℕ × Buffer)
kvprintf fmt args b = format_from false fmt args b >>= λ q. done (q.0, length q.0 % 2 ^ 32, q.1)
