-- ===== src/Disasm.antt =====
-- tools/benEater_simulator/simulator.c: `disassemble_current_instruction`. The stream gets the text
-- beside the result. (The argument `kill_on_FF` is not read by the code.)
pub mod Switch
pub mod Decode
pub mod Columns
mod Samples
use Prim.Native.String.{String}
use ben_eater.Common.{
  ℕ, ◌+◌, ◌-◌, ◌*◌, ◌%◌, ◌^◌, Option, none, some, [], ◌++◌, Text, codes, hex2, hex4, ltb,
  if◌then◌else◌,
}
use ben_eater.Bus.{Ram}
use Switch.{
  Mode, implied, accumulator, immediate, zero_page, zero_page_x, zero_page_y, absolute, absolute_x,
  absolute_y, indirect, indexed_indirect, indirect_indexed, relative, switch,
}

-- (current_pc + 2 + (int8_t)op1) & 0xFFFF
unfoldable pub branch_target : ℕ → ℕ → ℕ
branch_target current_pc op1 =
    if ltb op1 128
    then (current_pc + 2 + op1) % 2 ^ 16
    else (current_pc + 2 + op1 + 2 ^ 16 - 256) % 2 ^ 16

-- What the operands of a case look like: the bytes in the columns before the word, and what stands
-- behind it.
abbrev pub no_bytes : Text
no_bytes = codes "         "

unfoldable pub operand_bytes : Mode → ℕ → ℕ → Text
operand_bytes implied op1 op2 = no_bytes
operand_bytes accumulator op1 op2 = no_bytes
operand_bytes absolute op1 op2 = hex2 op1 ++ (codes " " ++ (hex2 op2 ++ codes "    "))
operand_bytes absolute_x op1 op2 = hex2 op1 ++ (codes " " ++ (hex2 op2 ++ codes "    "))
operand_bytes absolute_y op1 op2 = hex2 op1 ++ (codes " " ++ (hex2 op2 ++ codes "    "))
operand_bytes indirect op1 op2 = hex2 op1 ++ (codes " " ++ (hex2 op2 ++ codes "    "))
operand_bytes _ op1 op2 = hex2 op1 ++ codes "       "

-- (op2 << 8) | op1
abbrev pub word : ℕ → ℕ → ℕ
word op1 op2 = op2 * 256 + op1

unfoldable pub operand_text : Mode → ℕ → ℕ → ℕ → Text
unfolding branch_target
operand_text implied current_pc op1 op2 = []
operand_text accumulator current_pc op1 op2 = codes " A"
operand_text immediate current_pc op1 op2 = codes " #$" ++ hex2 op1
operand_text zero_page current_pc op1 op2 = codes " $" ++ hex2 op1
operand_text zero_page_x current_pc op1 op2 = codes " $" ++ hex2 op1 ++ codes ",X"
operand_text zero_page_y current_pc op1 op2 = codes " $" ++ hex2 op1 ++ codes ",Y"
operand_text absolute current_pc op1 op2 = codes " $" ++ hex4 (word op1 op2)
operand_text absolute_x current_pc op1 op2 = codes " $" ++ hex4 (word op1 op2) ++ codes ",X"
operand_text absolute_y current_pc op1 op2 = codes " $" ++ hex4 (word op1 op2) ++ codes ",Y"
operand_text indirect current_pc op1 op2 = codes " ($" ++ hex4 (word op1 op2) ++ codes ")"
operand_text indexed_indirect current_pc op1 op2 = codes " ($" ++ hex2 op1 ++ codes ",X)"
operand_text indirect_indexed current_pc op1 op2 = codes " ($" ++ hex2 op1 ++ codes "),Y"
operand_text relative current_pc op1 op2 = codes " $" ++ hex4 (branch_target current_pc op1)

-- What the switch prints for a case, and for the default.
unfoldable pub case_text : Option (String × Mode) → ℕ → ℕ → ℕ → ℕ → Text
unfolding operand_bytes operand_text
case_text (some (name, mode)) opcode current_pc op1 op2 =
    operand_bytes mode op1 op2 ++ (codes name ++ operand_text mode current_pc op1 op2)
case_text none opcode current_pc op1 op2 =
    codes "         " ++ (codes "??? (0x" ++ (hex2 opcode ++ codes ")"))

-- The text that goes to the stream, and the opcode.
unfoldable pub disassemble_current_instruction : ℕ → Ram → Text × ℕ
unfolding case_text switch
disassemble_current_instruction current_pc ram =
    let opcode = ram current_pc in
    let op1 = ram ((current_pc + 1) % 65536) in
    let op2 = ram ((current_pc + 2) % 65536) in
    (
      hex4 current_pc
          ++ (codes ": "
              ++ (hex2 opcode
                  ++ (codes " "
                      ++ (case_text (switch opcode) opcode current_pc op1 op2 ++ codes "\n")))),
      opcode,
    )
