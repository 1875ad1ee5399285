-- ===== src/Tests/InputTests.antt =====
-- A ring that starts with every entry linked to entry 0, and a few keys.
use garn_os.Prelude.{◌≡◌, refl, false, arith, [], ◌∷◌}
use garn_os.Input.{Input, KbState, link, input_init, input_rb_read, input_send_key}
use garn_os.Input.Ring.{Holds, input_init-Holds, input_send_key-Holds}
use garn_os.Input.Keys.{character, type_all, input_rb_read-type_all}

abbrev released : KbState
released = record {
  l_shift = false;
  r_shift = false;
  l_ctrl = false;
  r_ctrl = false;
  l_alt = false;
  r_alt = false;
  caps_lock = false;
}

abbrev boot : Input
boot = record {
  keyboard_state = released;
  chr = λ i. 0;
  next = λ i. 0;
  write_pos = 9;
  read_pos = 9;
  key_buffer = 0;
}

abbrev ready : Input
ready = input_send_key (input_init boot) (character 97)

ready-Holds : Holds (97 ∷ []) ready
ready-Holds = input_send_key-Holds [] (input_init boot) (character 97) (input_init-Holds boot)

input_send_key-Holds_example : Holds (97 ∷ 98 ∷ []) (input_send_key ready (character 98))
input_send_key-Holds_example = input_send_key-Holds (97 ∷ []) ready (character 98) ready-Holds

input_rb_read-type_all_example :
    (input_rb_read 2 (type_all (input_init boot) (97 ∷ 98 ∷ 99 ∷ []))).0 ≡ 97 ∷ 98 ∷ []
input_rb_read-type_all_example = input_rb_read-type_all boot (97 ∷ 98 ∷ 99 ∷ []) 2 (omega arith)

-- The same run, computed.
read_back : (input_rb_read 2 (type_all (input_init boot) (97 ∷ 98 ∷ 99 ∷ []))).0 ≡ 97 ∷ 98 ∷ []
unfolding input_init link input_send_key input_rb_read
read_back = refl
