-- ===== src/Keyboard/Input.antt =====
-- Which keys reach the program, and what they leave in memory and on the LCD.
use ben_eater.Common.{
  ℕ, ◌<◌, ◌≤◌, ◌≡◌, ◌≢◌, ◌⊎◌, refl, ap, none, some, [], ◌∷◌, ◌++◌, ◌==◌, arith, inl, inr,
  Bool-cases, ==→eq, ==_false→ne,
}
use mathlib.Core.List.{append-nil}
use ben_eater.Bus.{Machine, draw, update_window, read6502, write6502, port_calls}
use ben_eater.Keyboard.{input_of, key_input, show_lcd, handle_keyboard_event}

-- Space to z, return and backspace.
abbrev pub IsTyped : ℕ → Type 0
IsTyped key = ((0x20 ≤ key) × (key ≤ 0x7A)) ⊎ (key ≡ 0x0D) ⊎ (key ≡ 0x08)

input_of-IsTyped :
    (key : ℕ) → (IsTyped key × (input_of key ≡ some key)) ⊎ (¬ IsTyped key × (input_of key ≡ none))
input_of-IsTyped key = ground arith

-- The machine behind a key that reaches the program.
pub record Arrived (key : ℕ) (m m' : Machine) : Type 0 where
  pub held : read6502 m' key_input ≡ key
  pub same : (b : ℕ) → b ≢ key_input → read6502 m' b ≡ read6502 m b
  pub shown : m'.lcd_calls ≡ m.lcd_calls ++ draw ∷ update_window ∷ []

arrived : (key : ℕ) (m : Machine) → Arrived key m (show_lcd (write6502 m key_input key))
unfolding write6502 port_calls read6502
arrived key m = record {
  held = refl;
  same = λ b h. ground arith;
  shown = ap (λ calls. calls ++ draw ∷ update_window ∷ []) (append-nil m.lcd_calls);
}

-- A key from space to z, return or backspace is what the program reads at $0300 afterwards, every
-- other address reads as before, and the LCD is drawn and shown but gets no word; any other key
-- changes nothing and prints nothing.
pub handle_keyboard_event_lem :
    (key loop_cnt : ℕ) (m : Machine)
    → (IsTyped key × Arrived key m (handle_keyboard_event key loop_cnt m).0)
      ⊎ (¬ IsTyped key × (handle_keyboard_event key loop_cnt m ≡ (m, [])))
unfolding handle_keyboard_event
handle_keyboard_event_lem key loop_cnt m = elim (input_of-IsTyped key) [
  | inl (typed, p) ↦ inl (typed, rw (p, handle_keyboard_event) (arrived key m))
  | inr (not_typed, p) ↦ inr (not_typed, rw (p, handle_keyboard_event) refl)
]

byte_at :
    (key : ℕ) (m m' : Machine) (b : ℕ)
    → IsTyped key
    → Arrived key m m'
    → m.ram b < 256
    → m'.ram b < 256
unfolding read6502
byte_at key m m' b typed a h = elim (Bool-cases (b == key_input)) [
  | inl e ↦ rw (==→eq b key_input e, a.held) (omega (arith, typed))
  | inr e ↦ rw (a.same b (==_false→ne b key_input e)) h
]

-- The bytes of memory stay bytes.
pub handle_keyboard_event-bytes :
    (key loop_cnt : ℕ) (m : Machine)
    → ((b : ℕ) → m.ram b < 256)
    → (b : ℕ) → (handle_keyboard_event key loop_cnt m).0.ram b < 256
handle_keyboard_event-bytes key loop_cnt m h b = elim (handle_keyboard_event_lem key loop_cnt m) [
  | inl (typed, a) ↦ byte_at key m (handle_keyboard_event key loop_cnt m).0 b typed a (h b)
  | inr (not_typed, p) ↦ rw p (h b)
]
