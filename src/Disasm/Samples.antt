-- ===== src/Disasm/Samples.antt =====
-- Lines of the disassembler, and the theorems on it at concrete inputs.
use ben_eater.Common.{◌≡◌, refl, ◌++◌, codes, take, drop, hex2, hex4, arith, ◌==◌, if◌then◌else◌}
use ben_eater.Bus.{Ram}
use ben_eater.Disasm.{disassemble_current_instruction}
use ben_eater.Disasm.Switch.{switch}
use ben_eater.Disasm.Decode.{decode, switch-decode}
use ben_eater.Disasm.Columns.{IsBytes, instruction_text, disassemble_columns}

-- JSR $8234 at $8000, and BNE back to $8000 behind it.
abbrev program : Ram
program b =
    if b == 0x8000
    then 0x20
    else if b == 0x8001
    then 0x34
    else if b == 0x8002
    then 0x82
    else if b == 0x8003
    then 0xD0
    else if b == 0x8004
    then 0xFB
    else 0

program-IsBytes : IsBytes program
program-IsBytes b = ground arith

jsr_line :
    disassemble_current_instruction 0x8000 program ≡ (codes "8000: 20 34 82    JSR $8234\n", 0x20)
unfolding disassemble_current_instruction hex2 hex4
jsr_line = refl

bne_line :
    disassemble_current_instruction 0x8003 program ≡ (codes "8003: D0 FB       BNE $8000\n", 0xD0)
unfolding disassemble_current_instruction hex2 hex4
bne_line = refl

switch-decode_example : switch 0xB6 ≡ decode 0xB6
switch-decode_example = switch-decode 0xB6 (omega arith)

disassemble_columns_example :
    (take 8 (disassemble_current_instruction 0x8000 program).0
      ≡ hex4 0x8000 ++ (codes ": " ++ hex2 (program 0x8000)))
    × (drop 18 (disassemble_current_instruction 0x8000 program).0
        ≡ instruction_text program 0x8000 ++ codes "\n")
disassemble_columns_example = disassemble_columns 0x8000 program (omega arith) program-IsBytes
