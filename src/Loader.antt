-- ===== src/Loader.antt =====
-- tools/benEater_simulator/simulator.c: `load_program_and_irq`, which fills the memory before a run.
pub mod Memory
mod Samples
use ben_eater.Common.{
  ℕ, ◌+◌, ◌-◌, Bool, true, false, not, Option, none, some, List, [], ◌∷◌, ◌++◌, Text, codes, hex4,
  dec_text, leb, if◌then◌else◌,
}
use ben_eater.Common.Array.{update}
use ben_eater.Bus.{Ram}
use ben_eater.HexFile.{load_hex_file}

abbrev pub irq_handler_bytes : List ℕ
irq_handler_bytes = 0x48 ∷ 0xE6 ∷ 0x02 ∷ 0x68 ∷ 0xFF ∷ 0x40 ∷ []

-- memset(RAM, 0, sizeof(RAM))
abbrev pub cleared : Ram
cleared b = 0

-- memcpy(&RAM[address], bytes, ...)
unfoldable pub copy_bytes : List ℕ → ℕ → Ram → Ram
copy_bytes [] address ram = ram
copy_bytes (b ∷ bytes) address ram = copy_bytes bytes (address + 1) (update ram address b)

abbrev pub loaded_text : ℕ → ℕ → Text
loaded_text loaded irq_addr =
    codes "Loaded main program ("
    ++ dec_text loaded
    ++ codes " bytes) and IRQ handler at 0x"
    ++ hex4 irq_addr
    ++ codes "\n"

-- `log_opens` tells whether fopen gives the log file. The result holds the memory, what goes to the
-- log, and the returned bool; `none` is a copy that runs over the end of memory.
unfoldable pub load_program_and_irq : Bool → Option Text → ℕ → ℕ → Option (Ram × Text × Bool)
unfolding copy_bytes dec_text hex4
load_program_and_irq log_opens file start_addr irq_addr =
    if not log_opens
    then some (cleared, [], false)
    else elim (load_hex_file start_addr (65536 - start_addr) file cleared) [
      | none ↦ some (cleared, [], false)
      | some l ↦
          if leb (irq_addr + 6) 65536
          then some (
            copy_bytes irq_handler_bytes irq_addr l.ram,
            loaded_text l.bytes_loaded irq_addr,
            true,
          )
          else none
    ]
