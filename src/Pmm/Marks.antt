-- ===== src/Pmm/Marks.antt =====
-- `pmm_bitmap_set` and `pmm_bitmap_clear` over a run of pages: the marks and the counters.
use garn_os.Prelude.{
  ℕ, ◌+◌, ◌/◌, ◌%◌, ◌<◌, ◌≡◌, refl, ◌∙◌, ap, Bool, false, not, ◌&&◌, ◌||◌, List, arith, ◌==◌, ltb,
  leb, if◌then◌else◌, length, get_or, set, get_or-set_self, get_or-set_ne, inl, inr, Bool-cases,
  ==_iff, not_==→ne, sym,
}
use garn_os.Prelude.Bits.{
  test_bit, set_bit, clear_bit, test_bit-set_bit, test_bit-clear_bit, set_bit-lt, clear_bit-lt,
}
use garn_os.Pmm.Scan.{page_used}

abbrev pub IsBytes : List ℕ → Type 0
IsBytes bitmap = (i : ℕ) → get_or bitmap i 0 < 256

-- `page` is one of the `k` pages from `i` on.
abbrev pub within : ℕ → ℕ → ℕ → Bool
within i k page = leb i page && ltb page (i + k)

module _ (bitmap : List ℕ) (page : ℕ) (bytes : IsBytes bitmap)
    (room : page / 8 < length bitmap) where
  abbrev put : (ℕ → ℕ → ℕ) → List ℕ
  put op = set bitmap (page / 8) (op (get_or bitmap (page / 8) 0) (page % 8))

  -- Byte `i`, after a write at the byte of `page`.
  byte-put :
      (op : ℕ → ℕ → ℕ) (i : ℕ)
      → get_or (put op) i 0
        ≡ (if page / 8 == i then op (get_or bitmap (page / 8) 0) (page % 8) else get_or bitmap i 0)
  byte-put op i = elim (Bool-cases (page / 8 == i)) [
    | inl here ↦
        rw (here, ← (==_iff (page / 8) i).0 here) (get_or-set_self bitmap (page / 8) _ 0 room)
    | inr there ↦ rw there (get_or-set_ne bitmap (page / 8) i _ 0 (not_==→ne _ _ there))
  ]

  -- What a write that changes one bit to `f` of it does to the marks.
  page_used-put :
      (op : ℕ → ℕ → ℕ) (f : Bool → Bool → Bool) (q : ℕ)
      → ((b j k : ℕ) → b < 256 → j < 8 → k < 8 → test_bit (op b j) k ≡ f (j == k) (test_bit b k))
      → ((b : Bool) → f false b ≡ b)
      → page_used (put op) q ≡ f (page == q) (page_used bitmap q)
  page_used-put op f q law keep = elim (Bool-cases (page / 8 == q / 8)) [
    | inl here ↦
        let e : page / 8 ≡ q / 8 = (==_iff _ _).0 here in
        rw (byte-put op (q / 8), here)
          (law (get_or bitmap (page / 8) 0) (page % 8) (q % 8) (bytes _) (omega arith) (omega arith)
            ∙ rw e (ap (λ b. f b (page_used bitmap q)) (same_bit e)))
    | inr there ↦ rw (byte-put op (q / 8), there, differ (not_==→ne _ _ there)) (sym (keep _))
  ]
    where
      same_bit : page / 8 ≡ q / 8 → (page % 8 == q % 8) ≡ (page == q)
      same_bit e = ground arith

      differ : ¬ (page / 8 ≡ q / 8) → (page == q) ≡ false
      differ ne = ground arith

  pub page_used-set : (q : ℕ) → page_used (put set_bit) q ≡ ((page == q) || page_used bitmap q)
  page_used-set q = page_used-put set_bit (λ a b. a || b) q test_bit-set_bit (λ b. refl)

  pub page_used-clear :
      (q : ℕ) → page_used (put clear_bit) q ≡ (not (page == q) && page_used bitmap q)
  page_used-clear q = page_used-put clear_bit (λ a b. not a && b) q test_bit-clear_bit (λ b. refl)

  IsBytes-put : (op : ℕ → ℕ → ℕ) → ((b j : ℕ) → b < 256 → j < 8 → op b j < 256) → IsBytes (put op)
  IsBytes-put op law i = elim (Bool-cases (page / 8 == i)) [
    | inl here ↦ rw (byte-put op i, here) (law _ (page % 8) (bytes _) (omega arith))
    | inr there ↦ rw (byte-put op i, there) (bytes i)
  ]

  pub IsBytes-set : IsBytes (put set_bit)
  IsBytes-set = IsBytes-put set_bit set_bit-lt

  pub IsBytes-clear : IsBytes (put clear_bit)
  IsBytes-clear = IsBytes-put clear_bit clear_bit-lt
