-- ===== src/Loader/Samples.antt =====
-- A program of four bytes at $8000, with its handler at $9000.
use ben_eater.Common.{◌≡◌, true, false, some, Text, codes, none, refl, [], arith}
use ben_eater.Bus.{Ram}
use ben_eater.HexFile.{load_hex_file}
use ben_eater.Loader.{load_program_and_irq, cleared}
use ben_eater.Loader.Memory.{Filled, load_program_and_irq-Filled}

no_file : load_program_and_irq true none 0x8000 0x9000 ≡ some (cleared, [], false)
unfolding load_program_and_irq load_hex_file
no_file = refl

load_program_and_irq-Filled_example :
    (ram : Ram) × (out : Text) × (load_program_and_irq true
        (some (codes "0000000: ffa9 028d\n"))
        0x8000
        0x9000
      ≡ some (ram, out, true))
    × Filled (codes "0000000: ffa9 028d\n") 0x8000 0x9000 ram
load_program_and_irq-Filled_example =
    load_program_and_irq-Filled (codes "0000000: ffa9 028d\n") 0x8000 0x9000 (omega arith)
      (omega arith)
