-- ===== src/Bus.antt =====
-- tools/benEater_simulator/simulator.c: the 64 KB of emulated memory, the two addresses behind which
-- the LCD stands, and the vectors. The LCD and its window are libraries: what the simulator asks of
-- them is the list of calls, in order.
pub mod Access
mod Samples
use Prim.Native.Nat.{bit_or}
use ben_eater.Common.{ℕ, ◌+◌, ◌/◌, ◌%◌, List, [], ◌∷◌, ◌++◌, ◌==◌, if◌then◌else◌}
use ben_eater.Common.Array.{update}

abbrev pub Ram : Type 0
Ram = ℕ → ℕ

-- LCDSim_Instruction with its word, LCDSim_Draw, and SDL_UpdateWindowSurface.
pub data LcdCall : Type 0 where
  instruction : ℕ → LcdCall
  draw : LcdCall
  update_window : LcdCall

pub record Machine : Type 0 where
  pub ram : Ram
  pub lcd_calls : List LcdCall

abbrev pub data_port : ℕ
data_port = 0x6000

abbrev pub command_port : ℕ
command_port = 0x6001

unfoldable pub read6502 : Machine → ℕ → ℕ
read6502 m address = m.ram address

-- The calls that `write6502` makes before it stores.
unfoldable pub port_calls : ℕ → ℕ → List LcdCall
port_calls address value =
    if address == data_port
    then instruction (bit_or 0x0100 value) ∷ draw ∷ update_window ∷ []
    else if address == command_port
    then instruction value ∷ draw ∷ update_window ∷ []
    else []

unfoldable pub write6502 : Machine → ℕ → ℕ → Machine
unfolding port_calls
write6502 m address value = record {
  ram = update m.ram address value;
  lcd_calls = m.lcd_calls ++ port_calls address value;
}

-- The writes of a run, in order.
unfoldable pub write_all : Machine → List (ℕ × ℕ) → Machine
unfolding write6502
write_all m [] = m
write_all m ((address, value) ∷ writes) = write_all (write6502 m address value) writes

-- x & 0xFF is x % 256, and (x >> 8) & 0xFF is x / 256 % 256.
unfoldable pub set_vectors : ℕ → ℕ → Ram → Ram
set_vectors reset irq ram =
    update
      (update (update (update ram 0xFFFC (reset % 256)) 0xFFFD (reset / 256 % 256)) 0xFFFE
        (irq % 256))
      0xFFFF (irq / 256 % 256)
