-- ===== src/Memutil/Strings.antt =====
-- `strcmp` and `strncat` on strings, the lists of bytes before a zero byte.
use garn_os.Prelude.{
  ℕ, zero, suc, ◌+◌, ◌≤◌, ◌<◌, ◌≡◌, ◌≢◌, refl, sym, ap, ◌∙◌, subst, arith, true, false, ◌==◌, inl,
  inr, Bool-cases, some, List, [], ◌∷◌, ◌++◌, take, ◌⊎◌, length,
}
use garn_os.Files.Vnodes.{same_string}
use garn_os.Memutil.{Memory, store, strcmp, char_difference, string_end, append_up, strncat}

-- The string stands at the address.
abbrev pub StringAt : Memory → ℕ → List ℕ → Type 0
StringAt m s [] = m s ≡ 0
StringAt m s (x ∷ xs) = (m s ≡ x) × ((x ≢ 0) × (x < 256)) × StringAt m (s + 1) xs

char_difference-zero : (a b : ℕ) → a < 256 → b < 256 → char_difference a b ≡ 0 → a ≡ b
char_difference-zero a b ha hb e = ground arith

-- The `int` tells whether the two strings are equal.
abbrev pub Decides : List ℕ → List ℕ → ℕ → Type 0
Decides xs ys d = (d ≡ 0 → xs ≡ ys) × (xs ≡ ys → d ≡ 0)

-- `strcmp` of two strings, with a bound above the length of the first, returns 0 if they are equal,
-- and only then.
pub strcmp-Decides :
    (fuel : ℕ) (m : Memory) (s1 s2 : ℕ) (xs ys : List ℕ)
    → StringAt m s1 xs
    → StringAt m s2 ys
    → length xs < fuel
    → (d : ℕ) × (strcmp fuel m s1 s2 ≡ some d) × Decides xs ys d
unfolding strcmp
strcmp-Decides zero m s1 s2 xs ys h1 h2 enough = absurd (omega arith)
strcmp-Decides (suc fuel) m s1 s2 [] [] h1 h2 enough =
    (char_difference 0 0, rw (h1, h2) refl, (λ e. refl, λ e. refl))
strcmp-Decides (suc fuel) m s1 s2 [] (y ∷ ys) h1 h2 enough = (
  char_difference 0 y,
  rw (h1, h2.0) refl,
  (λ e. absurd (h2.1.0 (sym (char_difference-zero 0 y (omega arith) h2.1.1 e))), λ e. absurd cc),
)
strcmp-Decides (suc fuel) m s1 s2 (x ∷ xs) [] h1 h2 enough =
    let nonzero : (x == 0) ≡ false = ground (arith, h1.1.0) in
    (
      char_difference x 0,
      rw (h1.0, h2, nonzero) refl,
      (λ e. absurd (h1.1.0 (char_difference-zero x 0 h1.1.1 (omega arith) e)), λ e. absurd cc),
    )
strcmp-Decides (suc fuel) m s1 s2 (x ∷ xs) (y ∷ ys) h1 h2 enough =
    let nx : (x == 0) ≡ false = ground (arith, h1.1.0) in
    let ny : (y == 0) ≡ false = ground (arith, h2.1.0) in
    elim (Bool-cases (x == y)) [
      | inl same ↦
          let e : x ≡ y = ground (arith, same) in
          let r = strcmp-Decides fuel m (s1 + 1) (s2 + 1) xs ys h1.2 h2.2 (omega arith) in
          (
            r.0,
            rw (h1.0, h2.0, nx, ny, same) r.1,
            (λ z. ap (λ l. x ∷ l) (r.2.0 z) ∙ ap (λ a. a ∷ ys) e, λ l. r.2.1 cc),
          )
      | inr other ↦
          let ne : x ≢ y = ground (arith, other) in
          (
            char_difference x y,
            rw (h1.0, h2.0, nx, ny, other) refl,
            (λ z. absurd (ne (char_difference-zero x y h1.1.1 h2.1.1 z)), λ l. absurd (ne cc)),
          )
    ]

same_string_self : (xs : List ℕ) → same_string xs xs ≡ true
same_string_self [] = refl
same_string_self (x ∷ xs) =
    let same : (x == x) ≡ true = ground arith in rw same (same_string_self xs)

same_string-true : (xs ys : List ℕ) → same_string xs ys ≡ true → xs ≡ ys
same_string-true [] [] e = refl
same_string-true [] (y ∷ ys) e = absurd cc
same_string-true (x ∷ xs) [] e = absurd cc
same_string-true (x ∷ xs) (y ∷ ys) e = elim (Bool-cases (x == y)) [
  | inl same ↦
      let h : x ≡ y = ground (arith, same) in
      let rest : same_string xs ys ≡ true = ground (arith, e, same) in
      ap (λ l. x ∷ l) (same_string-true xs ys rest) ∙ ap (λ a. a ∷ ys) h
  | inr other ↦ absurd (ground (arith, other, e))
]

-- `strcmp` of two strings, with a bound above the length of the first, returns 0 exactly when
-- `same_string`, the comparison of the models of paths, says that they are the same.
pub strcmp-same_string :
    (fuel : ℕ) (m : Memory) (s1 s2 : ℕ) (xs ys : List ℕ)
    → StringAt m s1 xs
    → StringAt m s2 ys
    → length xs < fuel
    → (d : ℕ) × (strcmp fuel m s1 s2 ≡ some d) × ((d == 0) ≡ same_string xs ys)
strcmp-same_string fuel m s1 s2 xs ys h1 h2 enough =
    let r = strcmp-Decides fuel m s1 s2 xs ys h1 h2 enough in
    (
      r.0,
      r.1,
      elim (Bool-cases (same_string xs ys)) [
        | inl same ↦
            let zero_d = r.2.1 (same_string-true xs ys same) in ground (arith, zero_d, same)
        | inr other ↦ elim (Bool-cases (r.0 == 0)) [
          | inl z ↦
              let e = r.2.0 (ground (arith, z)) in
              let t : same_string xs ys ≡ true =
                ap (same_string xs) (sym e) ∙ same_string_self xs in
              absurd (ground (arith, t, other))
          | inr nz ↦ nz ∙ sym other
        ]
      ],
    )

string_end-some :
    (fuel : ℕ) (m : Memory) (s : ℕ) (xs : List ℕ)
    → StringAt m s xs
    → length xs < fuel
    → string_end fuel m s ≡ some (s + length xs)
unfolding string_end
string_end-some zero m s xs h enough = absurd (omega arith)
string_end-some (suc fuel) m s [] h enough = rw h (ap some (omega arith))
string_end-some (suc fuel) m s (x ∷ xs) h enough =
    let nx : (x == 0) ≡ false = ground (arith, h.1.0) in
    rw (h.0, nx) (string_end-some fuel m (s + 1) xs h.2 (omega arith) ∙ ap some (omega arith))

-- Bytes outside the string do not matter.
StringAt-same :
    (m m' : Memory) (s : ℕ) (xs : List ℕ)
    → ((a : ℕ) → s ≤ a → a ≤ s + length xs → m' a ≡ m a)
    → StringAt m s xs
    → StringAt m' s xs
StringAt-same m m' s [] same h = same s (omega arith) (omega arith) ∙ h
StringAt-same m m' s (x ∷ xs) same h = (
  same s (omega arith) (omega arith) ∙ h.0,
  h.1,
  StringAt-same m m' (s + 1) xs (λ a l g. same a (omega arith) (omega arith)) h.2,
)

-- `m'` has the string at `s`, and before it what `m` has.
abbrev Written : Memory → ℕ → List ℕ → Memory → Type 0
Written m s zs m' = StringAt m' s zs × ((a : ℕ) → a < s → m' a ≡ m a)

append_up-StringAt :
    (n : ℕ) (m : Memory) (s1 s2 : ℕ) (ys : List ℕ)
    → StringAt m s2 ys
    → (s1 + length ys < s2) ⊎ (s2 + length ys < s1)
    → Written m s1 (take n ys) (append_up n m s1 s2)
unfolding append_up
append_up-StringAt zero m s1 s2 ys h apart = (ground arith, λ a l. ground arith)
append_up-StringAt (suc n) m s1 s2 [] h apart =
    let stop : (m s2 == 0) ≡ true = ground (arith, h) in
    rw stop (ground (arith, h), λ a l. ground arith)
append_up-StringAt (suc n) m s1 s2 (y ∷ ys) h apart =
    let on : (m s2 == 0) ≡ false = ground (arith, h.0, h.1.0) in
    let left : StringAt (store m s1 (m s2)) (s2 + 1) ys =
      StringAt-same m (store m s1 (m s2)) (s2 + 1) ys (λ a l g. ground arith) h.2 in
    let r =
      append_up-StringAt n (store m s1 (m s2)) (s1 + 1) (s2 + 1) ys left
        (elim apart [ inl l ↦ inl (omega arith) | inr l ↦ inr (omega arith) ]) in
    let kept : append_up n (store m s1 (m s2)) (s1 + 1) (s2 + 1) s1 ≡ y =
      r.1 s1 (omega arith) ∙ ground (arith, h.0) in
    let step : append_up (suc n) m s1 s2 ≡ append_up n (store m s1 (m s2)) (s1 + 1) (s2 + 1) =
      rw on refl in
    subst (Written m s1 (y ∷ take n ys)) (sym step)
      ((kept, h.1, r.0), λ a l. r.1 a (omega arith) ∙ ground arith)

-- A string followed by another one.
StringAt-join :
    (m m' : Memory) (s : ℕ) (xs zs : List ℕ)
    → StringAt m s xs
    → ((a : ℕ) → a < s + length xs → m' a ≡ m a)
    → StringAt m' (s + length xs) zs
    → StringAt m' s (xs ++ zs)
StringAt-join m m' s [] zs h same next = subst (λ a. StringAt m' a zs) (omega arith) next
StringAt-join m m' s (x ∷ xs) zs h same next = (
  same s (omega arith) ∙ h.0,
  h.1,
  StringAt-join m m' (s + 1) xs zs h.2 (λ a l. same a (omega arith))
      (subst (λ a. StringAt m' a zs) (omega arith) next),
)

-- `strncat` of two strings that do not overlap, where the first one leaves the room, appends the
-- first `n` characters of the second one, or all of it if it is shorter, and ends with a zero byte;
-- the bound is above the length of the first.
pub strncat-StringAt :
    (fuel : ℕ) (m : Memory) (s1 s2 n : ℕ) (xs ys : List ℕ)
    → StringAt m s1 xs
    → StringAt m s2 ys
    → (s1 + length xs + length ys < s2) ⊎ (s2 + length ys < s1)
    → length xs < fuel
    → (m' : Memory) × (strncat fuel m s1 s2 n ≡ some m') × StringAt m' s1 (xs ++ take n ys)
unfolding strncat
strncat-StringAt fuel m s1 s2 n xs ys h1 h2 apart enough =
    let e = s1 + length xs in
    let r =
      append_up-StringAt n m e s2 ys h2
        (elim apart [ inl l ↦ inl (omega arith) | inr l ↦ inr (omega arith) ]) in
    (
      append_up n m e s2,
      rw (strncat, string_end-some fuel m s1 xs h1 enough) refl,
      StringAt-join m (append_up n m e s2) s1 xs (take n ys) h1 r.1 r.0,
    )
