-- ===== src/Initrd/Octal.antt =====
-- `initrd_tar_conv_number` against the digits that a tar archive writes.
use garn_os.Prelude.{
  ℕ, zero, suc, ◌+◌, ◌*◌, ◌/◌, ◌%◌, ◌^◌, ◌≤◌, ◌<◌, ◌≡◌, sym, subst, arith, List, [], ◌∷◌,
}
use garn_os.Prelude.Words.{word}
use garn_os.Memutil.{Memory}
use garn_os.Initrd.{conv_up, digit_of, initrd_tar_conv_number}

-- The bytes stand at the address.
abbrev pub BytesAt : Memory → ℕ → List ℕ → Type 0
BytesAt m s [] = Unit
BytesAt m s (b ∷ bytes) = (m s ≡ b) × BytesAt m (s + 1) bytes

-- The number without its last `k` octal digits.
abbrev pub shift : ℕ → ℕ → ℕ
shift zero n = n
shift (suc k) n = shift k n / 8

-- The last `k` octal digits of the number, as characters.
abbrev pub octal : ℕ → ℕ → List ℕ
octal zero n = []
octal (suc k) n = (48 + shift k n % 8) ∷ octal k n

shift-le : (k n : ℕ) → shift k n ≤ n
shift-le zero n = omega arith
shift-le (suc k) n = omega (arith, shift-le k n)

digit_step :
    (acc q c : ℕ)
    → q < 2 ^ 64
    → acc ≡ q / 8
    → c ≡ 48 + q % 8
    → word (word (acc * 8) + digit_of c) ≡ q
digit_step acc q c small e d = ground arith

conv_up-octal :
    (k i acc n : ℕ) (m : Memory) (s : ℕ)
    → n < 2 ^ 64
    → acc ≡ shift k n
    → BytesAt m (s + i) (octal k n)
    → conv_up k i acc m s ≡ n
unfolding conv_up
conv_up-octal zero i acc n m s small e at = e
conv_up-octal (suc k) i acc n m s small e at =
    let here = digit_step acc (shift k n) (m (s + i)) (omega (arith, shift-le k n)) e at.0 in
    conv_up-octal k (i + 1) (word (word (acc * 8) + digit_of (m (s + i)))) n m s small here
      (subst (λ a. BytesAt m a (octal k n)) (omega arith) at.1)

-- A number of at most `k` octal digits, below 2 ^ 64, comes back from the characters that a tar
-- archive writes for it.
pub initrd_tar_conv_number-octal :
    (k n : ℕ) (m : Memory) (s : ℕ)
    → n < 2 ^ 64
    → shift k n ≡ 0
    → BytesAt m s (octal k n)
    → initrd_tar_conv_number m s k ≡ n
unfolding initrd_tar_conv_number
initrd_tar_conv_number-octal k n m s small short at =
    conv_up-octal k 0 0 n m s small (sym short)
      (subst (λ a. BytesAt m a (octal k n)) (omega arith) at)
