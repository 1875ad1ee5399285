-- ===== src/Fat/Copy.antt =====
-- The bytes that `fat_read` copies out of the sectors.
use garn_os.Prelude.{
  ℕ, zero, suc, ◌+◌, ◌≤◌, ◌<◌, ◌≡◌, refl, sym, ap, ◌∙◌, subst, arith, ◌||◌, List, [], ◌∷◌, ◌++◌,
  append_assoc, append-nil, ltb, leb, get_or, take, drop, length, length-append, length-drop,
  drop-append, drop_all, take-append, get_or-drop, ◌⊎◌, inl, inr, Bool-cases,
}
use garn_os.Fat.{Reading, copy_sector}

-- The bytes `seen` were passed, and those from `offset` on were copied.
pub record Along (offset : ℕ) (seen : List ℕ) (s : Reading) : Type 0 where
  pub position : s.position ≡ length seen
  pub moved : s.offset ≡ offset + length s.out
  pub counted : s.bytes_read ≡ length s.out
  pub copied : s.out ≡ drop offset seen

-- The `wanted` bytes of `all` from `offset` on stand in the buffer.
pub record Full (offset wanted : ℕ) (all : List ℕ) (s : Reading) : Type 0 where
  pub enough : wanted ≤ length s.out
  pub counted : s.bytes_read ≡ length s.out
  pub right : take wanted s.out ≡ take wanted (drop offset all)

abbrev pub Progress : ℕ → ℕ → List ℕ → List ℕ → Reading → Type 0
Progress offset wanted all seen s = Along offset seen s ⊎ Full offset wanted all s

-- Once enough was copied, the buffer has what is wanted.
pub Along-Full :
    (offset wanted : ℕ) (seen tail : List ℕ) (s : Reading)
    → Along offset seen s
    → wanted ≤ length s.out
    → Full offset wanted (seen ++ tail) s
Along-Full offset wanted seen tail s a enough = record {
  enough = enough;
  counted = a.counted;
  right = elim (Bool-cases (leb offset (length seen))) [
    | inl inside ↦
        ap (take wanted) a.copied
        ∙ sym (take-append wanted (drop offset seen) tail (omega (arith, ap length a.copied)))
        ∙ ap (take wanted) (sym (drop-append offset seen tail (ground (arith, inside))))
    | inr before ↦
        let none_yet : drop offset seen ≡ [] = drop_all offset seen (ground (arith, before)) in
        let zero_wanted : wanted ≡ 0 = omega (arith, ap length a.copied, ap length none_yet) in
        rw zero_wanted refl
  ];
}

abbrev pub copied_byte : Reading → ℕ → Reading
copied_byte s b = record {
  out = s.out ++ b ∷ [];
  position = s.position + 1;
  offset = s.offset + 1;
  bytes_read = s.bytes_read + 1;
}

skip-Along :
    (offset b : ℕ) (seen : List ℕ) (s : Reading)
    → Along offset seen s
    → s.position < s.offset
    → Along offset (seen ++ b ∷ []) (record s { position = s.position + 1 })
skip-Along offset b seen s a lt =
    let n = length-append seen (b ∷ []) in
    let before : length seen < offset =
      omega (arith, a.position, a.moved, ap length a.copied, length-drop offset seen) in
    record {
      position = omega (arith, a.position);
      moved = a.moved;
      counted = a.counted;
      copied =
          a.copied
          ∙ drop_all offset seen (omega arith)
          ∙ sym (drop_all offset (seen ++ b ∷ []) (omega arith));
    }

copy-Along :
    (offset b : ℕ) (seen : List ℕ) (s : Reading)
    → Along offset seen s
    → s.offset ≤ s.position
    → Along offset (seen ++ b ∷ []) (copied_byte s b)
copy-Along offset b seen s a le =
    let n = length-append seen (b ∷ []) in
    let m = length-append s.out (b ∷ []) in
    record {
      position = omega (arith, a.position);
      moved = omega (arith, a.moved);
      counted = omega (arith, a.counted);
      copied =
          ap (λ l. l ++ b ∷ []) a.copied
          ∙ sym (drop-append offset seen (b ∷ []) (omega (arith, a.position, a.moved)));
    }

copy-Full :
    (offset wanted b : ℕ) (all : List ℕ) (s : Reading)
    → Full offset wanted all s
    → Full offset wanted all (copied_byte s b)
copy-Full offset wanted b all s f =
    let m = length-append s.out (b ∷ []) in
    record {
      enough = omega (arith, f.enough);
      counted = omega (arith, f.counted);
      right = take-append wanted s.out (b ∷ []) f.enough ∙ f.right;
    }

skip-Full :
    (offset wanted p : ℕ) (all : List ℕ) (s : Reading)
    → Full offset wanted all s
    → Full offset wanted all (record s { position = p })
skip-Full offset wanted p all s f = record {
  enough = f.enough;
  counted = f.counted;
  right = f.right;
}

-- One round of the loop, and the rest of it by `keep`.
module _ (file_size size offset wanted : ℕ) (small : wanted ≤ file_size)
    (asked : wanted ≤ size) where
  pub copy_sector-Full :
      (rounds k : ℕ) (sector all : List ℕ) (s : Reading)
      → Full offset wanted all s
      → Full offset wanted all (copy_sector file_size size rounds k sector s)
  unfolding copy_sector
  copy_sector-Full zero k sector all s f = f
  copy_sector-Full (suc rounds) k sector all s f =
      let b = get_or sector k 0 in
      elim (Bool-cases (ltb s.position s.offset)) [
        | inl skip ↦ rw skip (
            copy_sector-Full rounds (k + 1) sector all (record s { position = s.position + 1 })
              (skip-Full offset wanted (s.position + 1) all s f))
        | inr copy ↦
            let f' = copy-Full offset wanted b all s f in
            elim (Bool-cases (leb file_size (s.bytes_read + 1) || ltb size (s.bytes_read + 1))) [
              | inl stop ↦ rw copy (rw stop f')
              | inr on ↦
                  rw copy (rw on (copy_sector-Full rounds (k + 1) sector all (copied_byte s b) f'))
            ]
      ]

  pub copy_sector-Progress :
      (rounds k : ℕ) (sector bytes seen rest : List ℕ) (s : Reading)
      → drop k sector ≡ bytes
      → length bytes ≡ rounds
      → Along offset seen s
      → Progress offset wanted
          ((seen ++ bytes) ++ rest)
          (seen ++ bytes)
          (copy_sector file_size size rounds k sector s)
  unfolding copy_sector
  copy_sector-Progress zero k sector [] seen rest s e n a =
      inl (subst (λ l. Along offset l s) (sym (append-nil seen)) a)
  copy_sector-Progress zero k sector (b ∷ bytes) seen rest s e n a = absurd (omega arith)
  copy_sector-Progress (suc rounds) k sector [] seen rest s e n a = absurd (omega arith)
  copy_sector-Progress (suc rounds) k sector (b ∷ bytes) seen rest s e n a =
      let byte = (get_or-drop k sector 0 b bytes e).0 in
      let step : k + 1 ≡ suc k = omega arith in
      let left = ap (λ i. drop i sector) step ∙ (get_or-drop k sector 0 b bytes e).1 in
      let r = append_assoc seen (b ∷ []) bytes in
      elim (Bool-cases (ltb s.position s.offset)) [
        | inl skip ↦ rw skip (
            subst
              (λ all. Progress offset wanted (all ++ rest) all (
                copy_sector file_size size rounds (k + 1) sector
                  (record s { position = s.position + 1 })))
              r
              (copy_sector-Progress rounds (k + 1) sector bytes (seen ++ b ∷ []) rest
                (record s { position = s.position + 1 }) left (omega arith)
                (skip-Along offset b seen s a (ground (arith, skip)))))
        | inr copy ↦
            let a' = copy-Along offset b seen s a (ground (arith, copy)) in
            elim (Bool-cases (leb file_size (s.bytes_read + 1) || ltb size (s.bytes_read + 1))) [
              | inl stop ↦ rw copy (
                  rw stop (
                    rw byte (
                      inr (
                        subst (λ all. Full offset wanted (all ++ rest) (copied_byte s b)) r
                          (subst (λ all. Full offset wanted all (copied_byte s b))
                            (sym (append_assoc (seen ++ b ∷ []) bytes rest))
                            (Along-Full offset wanted (seen ++ b ∷ []) (bytes ++ rest)
                              (copied_byte s b) a' (ground (arith, stop, a'.counted))))))))
              | inr on ↦ rw copy (
                  rw on (
                    rw byte (
                      subst
                        (λ all.
                          Progress offset wanted (all ++ rest) all
                            (copy_sector file_size size rounds (k + 1) sector (copied_byte s b)))
                        r
                        (copy_sector-Progress rounds (k + 1) sector bytes (seen ++ b ∷ []) rest
                          (copied_byte s b) left (omega arith) a'))))
            ]
      ]
