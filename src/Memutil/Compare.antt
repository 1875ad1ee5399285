-- ===== src/Memutil/Compare.antt =====
-- `memcmp` and `strlen` against what they look for.
use garn_os.Prelude.{
  ℕ, zero, suc, ◌+◌, ◌%◌, ◌^◌, ◌<◌, ◌≡◌, ◌≢◌, ap, ◌∙◌, arith, true, false, ltb, ◌==◌, inl, inr,
  Bool-cases, some,
}
use garn_os.Memutil.{Memory, Order, less, equal, greater, compare_up, memcmp, count_up, strlen}

-- The first difference between two blocks, at byte `j`.
pub record FirstDifference (m : Memory) (s1 s2 n : ℕ) (j : ℕ) : Type 0 where
  pub before : (i : ℕ) → i < j → m (s1 + i) ≡ m (s2 + i)
  pub inside : j < n
  pub differs : m (s1 + j) ≢ m (s2 + j)

-- What a result of `memcmp` says of the blocks.
abbrev pub Says : Memory → ℕ → ℕ → ℕ → Order → Type 0
Says m s1 s2 n equal = (i : ℕ) → i < n → m (s1 + i) ≡ m (s2 + i)
Says m s1 s2 n less = (j : ℕ) × FirstDifference m s1 s2 n j × (m (s1 + j) < m (s2 + j))
Says m s1 s2 n greater = (j : ℕ) × FirstDifference m s1 s2 n j × (m (s2 + j) < m (s1 + j))

compare_up-Says :
    (k i : ℕ) (m : Memory) (s1 s2 n : ℕ)
    → i + k ≡ n
    → ((j : ℕ) → j < i → m (s1 + j) ≡ m (s2 + j))
    → Says m s1 s2 n (compare_up k i m s1 s2)
unfolding compare_up
compare_up-Says zero i m s1 s2 n end same = λ j h. same j (omega arith)
compare_up-Says (suc k) i m s1 s2 n end same = elim (Bool-cases (m (s1 + i) == m (s2 + i))) [
  | inl eq ↦ rw eq (compare_up-Says k (i + 1) m s1 s2 n (omega arith) (λ j h. extend j h eq))
  | inr ne ↦
      let first : FirstDifference m s1 s2 n i = record {
        before = same;
        inside = omega arith;
        differs = ground arith;
      } in
      elim (Bool-cases (ltb (m (s1 + i)) (m (s2 + i)))) [
        | inl lt ↦ rw (ne, lt) (i, first, ground arith)
        | inr ge ↦ rw (ne, ge) (i, first, ground arith)
      ]
]
  where
    extend : (j : ℕ) → j < i + 1 → (m (s1 + i) == m (s2 + i)) ≡ true → m (s1 + j) ≡ m (s2 + j)
    extend j h eq = elim (Bool-cases (j == i)) [
      | inl here ↦ let e : j ≡ i = ground arith in rw e (ground arith)
      | inr other ↦ same j (ground arith)
    ]

-- `memcmp` returns 0 only if all of the bytes agree, and otherwise the order of the first two that
-- differ.
pub memcmp-Says : (m : Memory) (s1 s2 n : ℕ) → Says m s1 s2 n (memcmp m s1 s2 n)
unfolding memcmp
memcmp-Says m s1 s2 n = compare_up-Says n 0 m s1 s2 n (omega arith) (λ j h. absurd (omega arith))

count_up_lem :
    (fuel count : ℕ) (m : Memory) (s n : ℕ)
    → ((i : ℕ) → i < n → m (s + i) ≢ 0)
    → m (s + n) ≡ 0
    → n < fuel
    → count + n < 2 ^ 32
    → count_up fuel count m s ≡ some (count + n)
unfolding count_up
count_up_lem zero count m s n chars end enough fits = absurd (omega arith)
count_up_lem (suc fuel) count m s zero chars end enough fits =
    let e : m s ≡ 0 = ap m (omega arith) ∙ end in
    let stop : (m s == 0) ≡ true = ground arith in rw stop (ap some (omega arith))
count_up_lem (suc fuel) count m s (suc n) chars end enough fits =
    let here : m s ≢ 0 = λ z. chars 0 (omega arith) (ap m (omega arith) ∙ z) in
    let more : (m s == 0) ≡ false = ground arith in
    let small : (count + 1) % 2 ^ 32 ≡ count + 1 = omega arith in
    rw (more, small)
      (count_up_lem fuel (count + 1) m (s + 1) n
          (λ i h z. chars (suc i) (omega arith) (ap m (omega arith) ∙ z)) (ap m (omega arith) ∙ end)
          (omega arith) (omega arith)
        ∙ ap some (omega arith))

-- `strlen` returns the number of bytes before the first zero byte, below 2 ^ 32, with any bound
-- above that number.
pub strlen-some :
    (fuel : ℕ) (m : Memory) (s n : ℕ)
    → ((i : ℕ) → i < n → m (s + i) ≢ 0)
    → m (s + n) ≡ 0
    → n < fuel
    → n < 2 ^ 32
    → strlen fuel m s ≡ some n
unfolding strlen
strlen-some fuel m s n chars end enough fits =
    count_up_lem fuel 0 m s n chars end enough (omega arith) ∙ ap some (omega arith)
