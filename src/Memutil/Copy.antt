-- ===== src/Memutil/Copy.antt =====
-- `memmove`, `memcpy` and `memset` against a copy of all bytes at once.
use garn_os.Prelude.{
  ℕ, zero, suc, ◌+◌, ◌-◌, ◌%◌, ◌≤◌, ◌≡◌, ◌⊎◌, refl, sym, ap, ◌∙◌, arith, Bool, true, false, leb,
  ltb, ◌==◌, ◌&&◌, if◌then◌else◌, inl, inr, Bool-cases,
}
use garn_os.Memutil.{Memory, store, copy_up, copy_down, memcpy, memmove, fill_up, memset}

-- Address `a` is one of `n` bytes from `s` on.
abbrev pub inside : ℕ → ℕ → ℕ → Bool
inside s n a = leb s a && ltb a (s + n)

-- All bytes are read before any is written.
abbrev pub copied : Memory → ℕ → ℕ → ℕ → Memory
copied m dest src n a = if inside dest n a then m (src + (a - dest)) else m a

-- Upwards, a byte is read before it is overwritten if the source is not below the destination, or
-- ends below it.
copy_up_lem :
    (k i dest src : ℕ) (m : Memory) (a : ℕ)
    → (dest ≤ src) ⊎ (src + (i + k) ≤ dest)
    → copy_up k i m dest src a ≡ (if inside (dest + i) k a then m (src + (a - dest)) else m a)
unfolding copy_up
copy_up_lem zero i dest src m a h =
    let none_left : inside (dest + i) 0 a ≡ false = ground arith in rw none_left refl
copy_up_lem (suc k) i dest src m a h =
    copy_up_lem k (i + 1) dest src (store m (dest + i) (m (src + i))) a (ground arith)
    ∙ elim (Bool-cases (a == dest + i)) [
      | inl here ↦
          let e : src + (a - dest) ≡ src + i = ground arith in
          let past : inside (dest + (i + 1)) k a ≡ false = ground arith in
          let within : inside (dest + i) (suc k) a ≡ true = ground arith in
          rw (past, within, here) (ap m (sym e))
      | inr other ↦ elim (Bool-cases (inside (dest + (i + 1)) k a)) [
        | inl later ↦
            let within : inside (dest + i) (suc k) a ≡ true = ground arith in
            let apart : (src + (a - dest) == dest + i) ≡ false = ground arith in
            rw (later, within, apart) refl
        | inr out ↦
            let without : inside (dest + i) (suc k) a ≡ false = ground arith in
            rw (out, without, other) refl
      ]
    ]

-- Downwards, the same if the destination is not below the source.
copy_down_lem :
    (k dest src : ℕ) (m : Memory) (a : ℕ)
    → src ≤ dest
    → copy_down k m dest src a ≡ copied m dest src k a
unfolding copy_down
copy_down_lem zero dest src m a h =
    let none_left : inside dest 0 a ≡ false = ground arith in rw none_left refl
copy_down_lem (suc k) dest src m a h =
    copy_down_lem k dest src (store m (dest + k) (m (src + k))) a h
    ∙ elim (Bool-cases (a == dest + k)) [
      | inl here ↦
          let e : src + (a - dest) ≡ src + k = ground arith in
          let past : inside dest k a ≡ false = ground arith in
          let within : inside dest (suc k) a ≡ true = ground arith in
          rw (past, within, here) (ap m (sym e))
      | inr other ↦ elim (Bool-cases (inside dest k a)) [
        | inl later ↦
            let within : inside dest (suc k) a ≡ true = ground arith in
            let apart : (src + (a - dest) == dest + k) ≡ false = ground arith in
            rw (later, within, apart) refl
        | inr out ↦
            let without : inside dest (suc k) a ≡ false = ground arith in
            rw (out, without, other) refl
      ]
    ]

zero_up :
    (n dest src : ℕ) (m : Memory) (a : ℕ)
    → (dest ≤ src) ⊎ (src + n ≤ dest)
    → copy_up n 0 m dest src a ≡ copied m dest src n a
zero_up n dest src m a h =
    copy_up_lem n 0 dest src m a (ground arith)
    ∙ ap (λ d. if inside d n a then m (src + (a - dest)) else m a) (omega arith)

-- `memmove` writes at each address of the destination the byte that stood at its distance in the
-- source before the call, however the two overlap, and changes no other byte.
pub memmove-copied :
    (m : Memory) (dest src n a : ℕ) → memmove m dest src n a ≡ copied m dest src n a
unfolding memmove
memmove-copied m dest src n a = elim (Bool-cases (ltb dest src)) [
  | inl up ↦ rw up (zero_up n dest src m a (inl (ground arith)))
  | inr not_up ↦ elim (Bool-cases (ltb src dest)) [
    | inl down ↦ rw (not_up, down) (copy_down_lem n dest src m a (ground arith))
    | inr same ↦
        let e : src ≡ dest = ground arith in rw (not_up, same) (sym (in_place m dest src n a e))
  ]
]
  where
    in_place : (m : Memory) (dest src n a : ℕ) → src ≡ dest → copied m dest src n a ≡ m a
    in_place m dest src n a e = elim (Bool-cases (inside dest n a)) [
      | inl within ↦ let same : src + (a - dest) ≡ a = ground arith in rw within (ap m same)
      | inr without ↦ rw without refl
    ]

-- `memcpy` does what `memmove` does unless the destination begins inside the source and behind its
-- first byte.
pub memcpy-memmove :
    (m : Memory) (dest src n : ℕ)
    → (dest ≤ src) ⊎ (src + n ≤ dest)
    → (a : ℕ) → memcpy m dest src n a ≡ memmove m dest src n a
unfolding memcpy
memcpy-memmove m dest src n h a = zero_up n dest src m a h ∙ sym (memmove-copied m dest src n a)

-- Upwards from byte `i`, `memset` writes the value's low byte.
fill_up_lem :
    (k i s c : ℕ) (m : Memory) (a : ℕ)
    → fill_up k i m s c a ≡ (if inside (s + i) k a then c % 256 else m a)
unfolding fill_up
fill_up_lem zero i s c m a = ground arith
fill_up_lem (suc k) i s c m a =
    fill_up_lem k (i + 1) s c (store m (s + i) (c % 256)) a ∙ ground arith

-- `memset` writes the low byte of its value to each of `n` bytes and changes no other byte.
pub memset_lem :
    (m : Memory) (s c n a : ℕ) → memset m s c n a ≡ (if inside s n a then c % 256 else m a)
unfolding memset
memset_lem m s c n a =
    fill_up_lem n 0 s c m a ∙ ap (λ d. if inside d n a then c % 256 else m a) (omega arith)
