-- ===== src/Input/Keys.antt =====
-- Special keys, and characters typed into a ring and read from it.
use garn_os.Prelude.{
  ℕ, ◌+◌, ◌≤◌, ◌≡◌, refl, sym, arith, Bool, true, false, List, [], ◌∷◌, ◌++◌, length, take,
  length-append, append_assoc, append-nil, ◌==◌, if◌then◌else◌, inl, inr, Bool-cases, subst,
}
use garn_os.Input.{Input, KbInput, input_init, input_rb_read, input_send_key, special_key}
use garn_os.Input.Ring.{Holds, input_init-Holds, input_send_key-Holds, input_rb_read-Holds}

abbrev pub character : ℕ → KbInput
character c = record { key = c; pressed = true; special = false }

-- The characters are typed one after the other.
abbrev pub type_all : Input → List ℕ → Input
type_all s [] = s
type_all s (c ∷ cs) = type_all (input_send_key s (character c)) cs

type_all-Holds :
    (cs q : List ℕ) (s : Input)
    → length q + length cs ≤ 31
    → Holds q s
    → Holds (q ++ cs) (type_all s cs)
type_all-Holds [] q s fits h = subst (λ p. Holds p s) (sym (append-nil q)) h
type_all-Holds (c ∷ cs) q s fits h =
    let not_full : (length q == 31) ≡ false = ground arith in
    let n = length-append q (c ∷ []) in
    let one = input_send_key-Holds q s (character c) h in
    let two : Holds (q ++ c ∷ []) (input_send_key s (character c)) =
      subst (λ b. Holds (if b then [] else q ++ c ∷ []) (input_send_key s (character c))) not_full
        one in
    subst (λ p. Holds p (type_all (input_send_key s (character c)) cs)) (append_assoc q (c ∷ []) cs)
      (type_all-Holds cs (q ++ c ∷ []) (input_send_key s (character c)) (omega arith) two)

-- Up to 31 characters typed after `input_init` are read in the order in which they were typed, as
-- many as the reader asks for.
pub input_rb_read-type_all :
    (s : Input) (cs : List ℕ) (k : ℕ)
    → length cs ≤ 31
    → (input_rb_read k (type_all (input_init s) cs)).0 ≡ take k cs
input_rb_read-type_all s cs k fits =
    (input_rb_read-Holds k cs _
      (type_all-Holds cs [] (input_init s) (omega arith) (input_init-Holds s))).0

abbrev pub caps_lock_key : Bool → KbInput
caps_lock_key pressed = record { key = 6; pressed = pressed; special = true }

-- After caps lock is pressed and released it is on, whether it was on before or off.
pub input_send_key-caps_lock :
    (s : Input)
    → (input_send_key
        (input_send_key s (caps_lock_key true))
        (caps_lock_key false)).keyboard_state.caps_lock
      ≡ true
unfolding input_send_key special_key
input_send_key-caps_lock s = elim (Bool-cases s.keyboard_state.caps_lock) [
  | inl on ↦ rw on refl
  | inr off ↦ rw off refl
]
