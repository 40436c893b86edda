-- ===== src/Keyboard/Samples.antt =====
-- Keys that reach the program and keys that do not, and the theorem on them.
use ben_eater.Common.{ℕ, ◌≡◌, ◌⊎◌, refl, [], codes, hex4}
use ben_eater.Bus.{Machine}
use ben_eater.Keyboard.{dec4, handle_keyboard_event}
use ben_eater.Keyboard.Input.{IsTyped, Arrived, handle_keyboard_event_lem}

abbrev empty : Machine
empty = record { ram = λ b. 0; lcd_calls = [] }

abbrev left_shift : ℕ
left_shift = 0x400000E1

printed_key :
    (handle_keyboard_event b'a' 7 empty).1 ≡ codes "key pressed: 0061 (a) at loop_cnt 0007\n"
unfolding handle_keyboard_event hex4 dec4
printed_key = refl

no_key : handle_keyboard_event left_shift 7 empty ≡ (empty, [])
unfolding handle_keyboard_event
no_key = refl

handle_keyboard_event_lem_example :
    (IsTyped b'a' × Arrived b'a' empty (handle_keyboard_event b'a' 7 empty).0)
    ⊎ (¬ IsTyped b'a' × (handle_keyboard_event b'a' 7 empty ≡ (empty, [])))
handle_keyboard_event_lem_example = handle_keyboard_event_lem b'a' 7 empty
