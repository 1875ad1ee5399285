-- ===== src/Tests/KvprintfTests.antt =====
-- Numbers printed into a buffer of `?` characters.
use garn_os.Prelude.Exec.{Exec, done, fault, spent}
use garn_os.Prelude.{ℕ, List, [], ◌∷◌, ◌-◌, ◌^◌, ◌≡◌, ◌≤◌, ◌≢◌, ◌⊎◌, refl, arith}
use garn_os.Kvprintf.{
  number, kvprintf, format_from, convert, convert_number, printed, print_signed, write_signed,
  Buffer, decimal_size, write_decimal, print_unsigned, hex_size, write_hex, print_hex,
}
use garn_os.Kvprintf.Numbers.{IsText, print_unsigned-IsText}

abbrev old : Buffer
old i = 63

print_unsigned-IsText_example :
    IsText 10 (decimal_size 20 2024) 2024 old (print_unsigned 2024 old)
    × (decimal_size 20 2024 ≤ 20)
    × ((decimal_size 20 2024 ≡ 1) ⊎ (print_unsigned 2024 old 0 ≢ 48))
print_unsigned-IsText_example = print_unsigned-IsText 2024 old (omega arith)

-- "2024" and "CAFE"
texts :
    (print_unsigned 2024 old 0 ≡ 50)
    × (print_unsigned 2024 old 3 ≡ 52)
    × (print_hex 0xcafe old 0 ≡ 67)
    × (print_hex 0xcafe old 3 ≡ 69)
unfolding print_unsigned write_decimal decimal_size print_hex write_hex hex_size
texts = (refl, refl, refl, refl)

-- What a call prints, and its result.
abbrev output : Exec (List ℕ × ℕ × Buffer) → List ℕ × ℕ
output (done r) = (r.0, r.1)
output fault = ([], 99)
output spent = ([], 98)

-- The format "%d%%".
minus_42 :
    output (kvprintf (37 ∷ 100 ∷ 37 ∷ 37 ∷ []) (number (2 ^ 64 - 42) ∷ []) old)
    ≡ (45 ∷ 52 ∷ 50 ∷ 37 ∷ [], 4)
unfolding kvprintf format_from convert convert_number printed print_signed write_signed decimal_size
minus_42 = refl

-- The lowest `int` is printed as "-./,),(-*,(".
lowest :
    output (kvprintf (37 ∷ 100 ∷ []) (number (2 ^ 31) ∷ []) old)
    ≡ (45 ∷ 46 ∷ 47 ∷ 44 ∷ 41 ∷ 44 ∷ 40 ∷ 45 ∷ 42 ∷ 44 ∷ 40 ∷ [], 11)
unfolding kvprintf format_from convert convert_number printed print_signed write_signed decimal_size
lowest = refl
