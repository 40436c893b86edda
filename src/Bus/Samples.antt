-- ===== src/Bus/Samples.antt =====
-- Writes to the LCD, and the theorems on them at concrete inputs.
use ben_eater.Common.{ℕ, ◌≡◌, refl, List, [], ◌∷◌, ◌++◌, arith}
use ben_eater.Bus.{Ram, Machine, instruction, draw, update_window, write_all}
use ben_eater.Bus.Access.{port_words, shown, lcd_calls-write_all}

abbrev blank_ram : Ram
blank_ram b = 0

abbrev blank : Machine
blank = record { ram = blank_ram; lcd_calls = [] }

-- Clear the display, store a byte, and show an H.
abbrev writes : List (ℕ × ℕ)
writes = (0x6001, 1) ∷ (0x0300, 7) ∷ (0x6000, 0x48) ∷ []

shows_letter :
    (write_all blank writes).lcd_calls
    ≡ instruction 1 ∷ draw ∷ update_window ∷ instruction 0x148 ∷ draw ∷ update_window ∷ []
unfolding write_all
shows_letter = refl

lcd_calls-write_all_example : (write_all blank writes).lcd_calls ≡ [] ++ shown (port_words writes)
lcd_calls-write_all_example = lcd_calls-write_all blank writes (omega arith)
