-- ===== src/Input.antt =====
-- kernel/sys/term/input.c: the keys that are held and the ring of typed characters.
-- An entry of `kbringbuffer` is named by its index, in place of its address.
pub mod Ring
pub mod Keys
use garn_os.Prelude.{
  ℕ, zero, suc, ◌+◌, Bool, true, false, not, ◌-◌, ◌&&◌, List, [], ◌∷◌, ◌==◌, if◌then◌else◌,
}

-- `INPUT_RB_SIZE`
abbrev pub input_rb_size : ℕ
input_rb_size = 32

-- `kb_state_t`
pub record KbState : Type 0 where
  pub l_shift : Bool
  pub r_shift : Bool
  pub l_ctrl : Bool
  pub r_ctrl : Bool
  pub l_alt : Bool
  pub r_alt : Bool
  pub caps_lock : Bool

-- `kb_input_t`: a character, or the number of a special key.
pub record KbInput : Type 0 where
  pub key : ℕ
  pub pressed : Bool
  pub special : Bool

-- The fields of `kbringbuffer`, and the static variables.
pub record Input : Type 0 where
  pub keyboard_state : KbState
  pub chr : ℕ → ℕ
  pub next : ℕ → ℕ
  pub write_pos : ℕ
  pub read_pos : ℕ
  pub key_buffer : ℕ

abbrev pub update : (ℕ → ℕ) → ℕ → ℕ → ℕ → ℕ
update f i v j = if j == i then v else f j

-- The loop of `input_init`, after the rounds up to `k`.
unfoldable pub link : ℕ → (ℕ → ℕ) → ℕ → ℕ
link zero next = next
link (suc k) next = update (link k next) k (k + 1)

unfoldable pub input_init : Input → Input
input_init s = record s {
  next = update (link (input_rb_size - 1) s.next) (input_rb_size - 1) 0;
  write_pos = 0;
  read_pos = 0;
}

-- The loop of `input_rb_read`, with `k` characters still asked for: what it stores in `buf`.
unfoldable pub input_rb_read : ℕ → Input → List ℕ × Input
input_rb_read zero s = ([], s)
input_rb_read (suc k) s =
    let rest =
      input_rb_read k
        (record s { chr = update s.chr s.read_pos 0; read_pos = s.next s.read_pos }) in
    if s.write_pos == s.read_pos then ([], s) else (s.chr s.read_pos ∷ rest.0, rest.1)

-- The `switch` of `input_send_key`.
unfoldable pub special_key : KbState → ℕ → Bool → KbState
special_key k key pressed =
    if key == 2
    then record k { l_alt = pressed }
    else if key == 3
    then record k { r_alt = pressed }
    else if key == 4
    then record k { l_ctrl = pressed }
    else if key == 5
    then record k { r_ctrl = pressed }
    else if key == 0
    then record k { l_shift = pressed }
    else if key == 1
    then record k { r_shift = pressed }
    else if key == 6
    then record k { caps_lock = not (k.caps_lock && pressed) }
    else k

unfoldable pub input_send_key : Input → KbInput → Input
input_send_key s input =
    if input.special
    then record s { keyboard_state = special_key s.keyboard_state input.key input.pressed }
    else if input.pressed
    then record s {
      key_buffer = input.key;
      chr = update s.chr s.write_pos input.key;
      write_pos = s.next s.write_pos;
    }
    else s
