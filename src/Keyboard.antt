-- ===== src/Keyboard.antt =====
-- tools/benEater_simulator/simulator.c: `handle_keyboard_event`, which hands a key to the program.
pub mod Input
mod Samples
use ben_eater.Common.{
  [], ℕ, ◌-◌, ◌&&◌, Option, none, some, ◌∷◌, ◌++◌, Text, codes, hex4, length, replicate, leb, ◌==◌,
  if◌then◌else◌,
}
use ben_eater.Common.CString.{dec_loop}
use ben_eater.Bus.{Machine, draw, update_window, write6502}

-- The codes of SDL that the function names: SDLK_SPACE, SDLK_z, SDLK_RETURN and SDLK_BACKSPACE.
abbrev pub input_of : ℕ → Option ℕ
input_of key =
    if leb 0x20 key && leb key 0x7A
    then some key
    else if key == 0x0D
    then some b'\r'
    else if key == 0x08
    then some 8
    else none

abbrev pub key_input : ℕ
key_input = 0x0300

-- %04ld of a number of nineteen digits at most.
unfoldable pub dec4 : ℕ → Text
unfolding dec_loop
dec4 n = let digits = dec_loop 19 n [] in replicate (4 - length digits) b'0' ++ digits

abbrev pub show_lcd : Machine → Machine
show_lcd m = record m { lcd_calls = m.lcd_calls ++ draw ∷ update_window ∷ [] }

unfoldable pub handle_keyboard_event : ℕ → ℕ → Machine → Machine × Text
unfolding write6502 hex4 dec4
handle_keyboard_event key loop_cnt m = elim (input_of key) [
  | none ↦ (m, [])
  | some input ↦ (
    show_lcd (write6502 m key_input input),
    codes "key pressed: "
        ++ hex4 input
        ++ codes " ("
        ++ (input ∷ codes ") at loop_cnt ")
        ++ dec4 loop_cnt
        ++ codes "\n",
  )
]
