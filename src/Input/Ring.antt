-- ===== src/Input/Ring.antt =====
-- The ring of typed characters as a queue: what the entries from `readRBPos` to `writeRBPos` hold.
use garn_os.Prelude.{
  ℕ, zero, suc, ◌+◌, ◌%◌, ◌<◌, ◌≡◌, refl, sym, ap, ap₂, ◌∙◌, arith, true, false, List, [], ◌∷◌,
  ◌++◌, length, get_or, get_or-append, take, drop, length-append, ◌==◌, if◌then◌else◌, inl, inr,
  Bool-cases,
}
use garn_os.Input.{Input, KbInput, update, link, input_init, input_rb_read, input_send_key}

-- The ring of `s` holds the characters `q`, the oldest first.
pub record Holds (q : List ℕ) (s : Input) : Type 0 where
  pub linked : (i : ℕ) → i < 32 → s.next i ≡ (i + 1) % 32
  pub room : length q < 32
  pub start : s.read_pos < 32
  pub end : s.write_pos ≡ (s.read_pos + length q) % 32
  pub chars : (j : ℕ) → j < length q → s.chr ((s.read_pos + j) % 32) ≡ get_or q j 0

link_lem : (k : ℕ) (next : ℕ → ℕ) (i : ℕ) → i < k → link k next i ≡ i + 1
unfolding link
link_lem zero next i h = absurd (omega arith)
link_lem (suc k) next i h = ground (arith, link_lem k next i)

-- `input_init` makes the ring empty, whatever was there.
pub input_init-Holds : (s : Input) → Holds [] (input_init s)
unfolding input_init
input_init-Holds s = record {
  linked = λ i h. elim (Bool-cases (i == 31)) [
    | inl last ↦ let e : i ≡ 31 = ground arith in rw last (omega arith)
    | inr other ↦ let lt : i < 31 = ground arith in rw other (link_lem 31 s.next i lt ∙ omega arith)
  ];
  room = omega arith;
  start = omega arith;
  end = omega arith;
  chars = λ j h. absurd (omega arith);
}

module _ (c : ℕ) where
  pub get_or-append_lt :
      (q : List ℕ) (j : ℕ) → j < length q → get_or (q ++ c ∷ []) j 0 ≡ get_or q j 0
  get_or-append_lt q j h = get_or-append q (c ∷ []) j 0 h

  pub get_or-append_end : (q : List ℕ) → get_or (q ++ c ∷ []) (length q) 0 ≡ c
  get_or-append_end [] = refl
  get_or-append_end (x ∷ q) = get_or-append_end q

-- The queue after a key. The ring keeps 31 characters, and one more makes it look empty.
abbrev pub queue_after : List ℕ → KbInput → List ℕ
queue_after q input =
    if input.special
    then q
    else if input.pressed
    then (if length q == 31 then [] else q ++ input.key ∷ [])
    else q

-- What `input_send_key` does with a character.
stored : Input → ℕ → Input
stored s c = record s {
  key_buffer = c;
  chr = update s.chr s.write_pos c;
  write_pos = s.next s.write_pos;
}

stored-overrun :
    (q : List ℕ) (s : Input) (c : ℕ) → Holds q s → length q ≡ 31 → Holds [] (stored s c)
unfolding stored
stored-overrun q s c h full = record {
  linked = h.linked;
  room = omega arith;
  start = h.start;
  end =
      h.linked s.write_pos (let e = h.end in omega arith)
      ∙ (let e = h.end in let r = h.start in omega arith);
  chars = λ j k. absurd (omega arith);
}

stored-append :
    (q : List ℕ) (s : Input) (c : ℕ) → Holds q s → length q < 31 → Holds (q ++ c ∷ []) (stored s c)
unfolding stored
stored-append q s c h room =
    let n = length-append q (c ∷ []) in
    let e = h.end in
    let r = h.start in
    record {
      linked = h.linked;
      room = omega arith;
      start = h.start;
      end = h.linked s.write_pos (omega arith) ∙ omega arith;
      chars = λ j k. elim (Bool-cases (j == length q)) [
        | inl last ↦
            let here : j ≡ length q = ground arith in
            let at_write : ((s.read_pos + j) % 32 == s.write_pos) ≡ true = ground arith in
            rw at_write
              (sym (get_or-append_end c q) ∙ ap (λ i. get_or (q ++ c ∷ []) i 0) (sym here))
        | inr other ↦
            let before : j < length q = ground arith in
            let apart : ((s.read_pos + j) % 32 == s.write_pos) ≡ false = ground arith in
            rw apart (h.chars j before ∙ sym (get_or-append_lt c q j before))
      ];
    }

-- A key changes the ring as a queue: releases and special keys leave it, a character is put behind
-- the others, and a 32nd one makes the ring empty.
pub input_send_key-Holds :
    (q : List ℕ) (s : Input) (input : KbInput)
    → Holds q s
    → Holds (queue_after q input) (input_send_key s input)
unfolding input_send_key stored
input_send_key-Holds q s input h = elim (Bool-cases input.special) [
  | inl special ↦
      rw special
        (record { linked = h.linked; room = h.room; start = h.start; end = h.end; chars = h.chars })
  | inr plain ↦ elim (Bool-cases input.pressed) [
    | inl down ↦ elim (Bool-cases (length q == 31)) [
      | inl full ↦
          let e : length q ≡ 31 = ground arith in
          rw (plain, down, full) (stored-overrun q s input.key h e)
      | inr more ↦
          let r = h.room in
          let e : length q < 31 = ground arith in
          rw (plain, down, more) (stored-append q s input.key h e)
    ]
    | inr up ↦ rw (plain, up) h
  ]
]

-- The ring after one round of the loop of `input_rb_read`.
without_first :
    (c : ℕ) (q : List ℕ) (s : Input)
    → Holds (c ∷ q) s
    → Holds q (record s { chr = update s.chr s.read_pos 0; read_pos = s.next s.read_pos })
without_first c q s h =
    let e = h.end in
    let r = h.start in
    let n = h.room in
    let step = h.linked s.read_pos r in
    record {
      linked = h.linked;
      room = omega arith;
      start = omega arith;
      end = omega arith;
      chars = λ j k.
          let there : (s.next s.read_pos + j) % 32 ≡ (s.read_pos + suc j) % 32 = omega arith in
          let apart : ((s.next s.read_pos + j) % 32 == s.read_pos) ≡ false = ground arith in
          rw apart (ap s.chr there ∙ h.chars (suc j) (omega arith));
    }

-- A read takes the oldest characters, as many as asked for or there are, and leaves the rest.
pub input_rb_read-Holds :
    (k : ℕ) (q : List ℕ) (s : Input)
    → Holds q s
    → ((input_rb_read k s).0 ≡ take k q) × Holds (drop k q) (input_rb_read k s).1
unfolding input_rb_read
input_rb_read-Holds zero q s h = (refl, h)
input_rb_read-Holds (suc k) [] s h =
    let e = h.end in
    let r = h.start in
    let empty : (s.write_pos == s.read_pos) ≡ true = ground arith in rw empty (refl, h)
input_rb_read-Holds (suc k) (c ∷ q) s h =
    let e = h.end in
    let r = h.start in
    let n = h.room in
    let some_left : (s.write_pos == s.read_pos) ≡ false = ground arith in
    let first : s.chr s.read_pos ≡ c = ap s.chr (omega arith) ∙ h.chars 0 (omega arith) in
    let ih = input_rb_read-Holds k q _ (without_first c q s h) in
    rw some_left (ap₂ ◌∷◌ first ih.0, ih.1)
