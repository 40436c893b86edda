-- ===== src/Disasm/Columns.antt =====
-- The layout of the disassembler's line, and the target of a branch.
use Prim.Native.String.{String}
use mathlib.Core.List.{append_assoc}
use ben_eater.Common.{
  ℕ, ◌+◌, ◌*◌, ◌/◌, ◌%◌, ◌<◌, ◌≡◌, refl, Option, none, some, ◌++◌, Text, codes, length, take, drop,
  drop-append, hex2, hex4, arith,
}
use ben_eater.Common.Hex.{hex2-digits, hex4-digits}
use ben_eater.Bus.{Ram}
use ben_eater.Disasm.{
  branch_target, operand_bytes, operand_text, case_text, disassemble_current_instruction, no_bytes,
}
use ben_eater.Disasm.Switch.{Mode, implied, accumulator, switch}

-- Every case takes nine columns for its operand bytes.
length-operand_bytes :
    (mode : Mode) (op1 op2 : ℕ) → op1 < 256 → op2 < 256 → length (operand_bytes mode op1 op2) ≡ 9
unfolding operand_bytes
length-operand_bytes implied op1 op2 h k = refl
length-operand_bytes accumulator op1 op2 h k = refl
length-operand_bytes _ op1 op2 h k = simp (hex2-digits op1 h, hex2-digits op2 k)

-- The memory holds bytes.
abbrev pub IsBytes : Ram → Type 0
IsBytes ram = (b : ℕ) → ram b < 256

-- What stands in the columns from the nineteenth on: the word of the instruction and its operand, or
-- the marks of an unknown opcode.
abbrev pub entry_text : Option (String × Mode) → ℕ → ℕ → ℕ → ℕ → Text
entry_text (some (name, mode)) opcode current_pc op1 op2 =
    codes name ++ operand_text mode current_pc op1 op2
entry_text none opcode current_pc op1 op2 = codes "??? (0x" ++ (hex2 opcode ++ codes ")")

abbrev pub instruction_text : Ram → ℕ → Text
instruction_text ram current_pc =
    entry_text (switch (ram current_pc)) (ram current_pc) current_pc
      (ram ((current_pc + 1) % 65536)) (ram ((current_pc + 2) % 65536))

case_text-columns :
    (entry : Option (String × Mode)) (opcode current_pc op1 op2 : ℕ)
    → op1 < 256
    → op2 < 256
    → (columns : Text) × (length columns ≡ 9)
      × (case_text entry opcode current_pc op1 op2
          ≡ columns ++ entry_text entry opcode current_pc op1 op2)
unfolding case_text
case_text-columns none opcode current_pc op1 op2 h k = (no_bytes, refl, refl)
case_text-columns (some (name, mode)) opcode current_pc op1 op2 h k =
    (operand_bytes mode op1 op2, length-operand_bytes mode op1 op2 h k, refl)

drop-length : (n : ℕ) (xs ys : Text) → length xs ≡ n → drop n (xs ++ ys) ≡ ys
drop-length n xs ys e = rw (← e) (drop-append xs ys)

-- Over a memory of bytes, the line of every instruction, known or not, begins with the address and
-- the opcode in hexadecimal and has its word in the nineteenth column.
pub disassemble_columns :
    (current_pc : ℕ) (ram : Ram)
    → current_pc < 65536
    → IsBytes ram
    → (take 8 (disassemble_current_instruction current_pc ram).0
        ≡ hex4 current_pc ++ (codes ": " ++ hex2 (ram current_pc)))
      × (drop 18 (disassemble_current_instruction current_pc ram).0
          ≡ instruction_text ram current_pc ++ codes "\n")
unfolding disassemble_current_instruction
disassemble_columns current_pc ram h bytes =
    let (columns, nine, parts) =
      case_text-columns (switch (ram current_pc)) (ram current_pc) current_pc
        (ram ((current_pc + 1) % 65536)) (ram ((current_pc + 2) % 65536)) (bytes _) (bytes _) in
    rw
      (
        parts,
        hex4-digits current_pc h,
        hex2-digits (ram current_pc) (bytes current_pc),
        append_assoc columns (instruction_text ram current_pc) (codes "\n"),
      )
      (refl, drop-length 9 columns (instruction_text ram current_pc ++ codes "\n") nine)

-- A branch goes as far from the instruction behind it as its operand says, which counts up to 127 forward
-- and from 128 on as that much less 256; addresses wrap at the end of memory.
pub branch_target_lem :
    (current_pc op1 : ℕ)
    → current_pc < 65536
    → op1 < 256
    → (branch_target current_pc op1 < 65536)
      × ((branch_target current_pc op1 + 256 * (op1 / 128)) % 65536
          ≡ (current_pc + 2 + op1) % 65536)
unfolding branch_target
branch_target_lem current_pc op1 h k = ground arith
