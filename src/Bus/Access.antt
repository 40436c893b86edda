-- ===== src/Bus/Access.antt =====
-- Reads after writes, what reaches the LCD, and the vectors.
use Prim.Native.Nat.{bit_or}
use mathlib.Core.List.{append_assoc, append-nil}
use ben_eater.Common.{
  ℕ, suc, ◌+◌, ◌*◌, ◌<◌, ◌≡◌, refl, sym, ap, ◌∙◌, true, Option, none, some, List, [], ◌∷◌, ◌++◌,
  ◌==◌, if◌then◌else◌, arith, inl, inr, Bool-cases, passes_below, passes_below_sound, ==→eq,
}
use ben_eater.Bus.{
  Ram, Machine, LcdCall, instruction, draw, update_window, data_port, command_port, read6502,
  port_calls, write6502, write_all, set_vectors,
}

-- A read gives the value of the last write to its address, also at the LCD's addresses.
pub read6502-write6502 :
    (m : Machine) (address value b : ℕ)
    → read6502 (write6502 m address value) b ≡ (if b == address then value else read6502 m b)
unfolding read6502 write6502
read6502-write6502 m address value b = refl

data_word : (v : ℕ) → v < 256 → bit_or 0x0100 v ≡ 256 + v
data_word v h = ==→eq _ _ (passes_below_sound _ v h table)
  where
    table : passes_below (λ v. bit_or 0x0100 v == 256 + v) 256 ≡ true
    table = unfold passes_below in refl

-- What the driver of the LCD sees of a write: a data word has the register select bit, whose weight
-- is 256, over the byte; a command word is the byte.
abbrev pub port_word : ℕ × ℕ → Option ℕ
port_word (address, value) =
    if address == data_port
    then some (256 + value)
    else if address == command_port
    then some value
    else none

abbrev pub add_word : Option ℕ → List ℕ → List ℕ
add_word none words = words
add_word (some word) words = word ∷ words

abbrev pub port_words : List (ℕ × ℕ) → List ℕ
port_words [] = []
port_words (w ∷ ws) = add_word (port_word w) (port_words ws)

-- Every word goes with a redraw of the LCD and of its window.
abbrev pub shown : List ℕ → List LcdCall
shown [] = []
shown (word ∷ words) = instruction word ∷ draw ∷ update_window ∷ shown words

abbrev pub Bytes : List (ℕ × ℕ) → Type 0
Bytes [] = Unit {0}
Bytes ((address, value) ∷ ws) = (value < 256) × Bytes ws

port_calls-shown :
    (address value : ℕ) (ws : List (ℕ × ℕ))
    → value < 256
    → port_calls address value ++ shown (port_words ws) ≡ shown (port_words ((address, value) ∷ ws))
unfolding port_calls
port_calls-shown address value ws h = elim (Bool-cases (address == data_port)) [
  | inl e ↦ rw (e, data_word value h)
  | inr ne ↦ elim (Bool-cases (address == command_port)) [ inl e ↦ rw (ne, e) | inr f ↦ rw (ne, f) ]
]

-- Over a run of writes of bytes, the LCD gets exactly the words of the writes to its two addresses,
-- in their order, each shown at once.
pub lcd_calls-write_all :
    (m : Machine) (writes : List (ℕ × ℕ))
    → Bytes writes
    → (write_all m writes).lcd_calls ≡ m.lcd_calls ++ shown (port_words writes)
unfolding write_all
lcd_calls-write_all m [] h = sym (append-nil m.lcd_calls)
lcd_calls-write_all m ((address, value) ∷ writes) h =
    lcd_calls-write_all (write6502 m address value) writes h.1
    ∙ (unfold write6502 in
        append_assoc m.lcd_calls (port_calls address value) (shown (port_words writes)))
    ∙ ap (λ (l : List LcdCall). m.lcd_calls ++ l) (port_calls-shown address value writes h.0)

-- The word at an address, low byte first, as the processor reads its vectors.
abbrev pub word_at : Ram → ℕ → ℕ
word_at ram address = ram address + 256 * ram (suc address)

-- The processor finds the two vectors that `set_vectors` was given, and every address below them
-- keeps its byte.
pub set_vectors_lem :
    (reset irq : ℕ) (ram : Ram) (b : ℕ)
    → reset < 65536
    → irq < 65536
    → b < 0xFFFC
    → (word_at (set_vectors reset irq ram) 0xFFFC ≡ reset)
      × (word_at (set_vectors reset irq ram) 0xFFFE ≡ irq)
      × (set_vectors reset irq ram b ≡ ram b)
unfolding set_vectors
set_vectors_lem reset irq ram b h k l = (omega arith, omega arith, ground arith)
