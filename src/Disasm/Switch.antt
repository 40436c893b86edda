-- ===== src/Disasm/Switch.antt =====
-- The cases of the switch in `disassemble_current_instruction`, in the order of the source, each with
-- the word that it prints and the layout of its operand.
use Prim.Native.String.{String}
use ben_eater.Common.{ℕ, Option, none, some, List, [], ◌∷◌, ◌++◌, ◌==◌, if◌then◌else◌}

-- The thirteen layouts, by the names that the comments of the cases give them.
pub data Mode : Type 0 where
  implied accumulator immediate zero_page zero_page_x zero_page_y absolute absolute_x absolute_y :
      Mode
  indirect indexed_indirect indirect_indexed relative : Mode

abbrev pub Case : Type 0
Case = ℕ × (String × Mode)

abbrev pub cases_00 : List Case
cases_00 =
    (0x00, ("BRK", implied))
    ∷ (0x01, ("ORA", indexed_indirect))
    ∷ (0x05, ("ORA", zero_page))
    ∷ (0x06, ("ASL", zero_page))
    ∷ (0x08, ("PHP", implied))
    ∷ (0x09, ("ORA", immediate))
    ∷ (0x0A, ("ASL", accumulator))
    ∷ (0x0D, ("ORA", absolute))
    ∷ (0x0E, ("ASL", absolute))
    ∷ (0x10, ("BPL", relative))
    ∷ (0x11, ("ORA", indirect_indexed))
    ∷ (0x15, ("ORA", zero_page_x))
    ∷ (0x16, ("ASL", zero_page_x))
    ∷ (0x18, ("CLC", implied))
    ∷ (0x19, ("ORA", absolute_y))
    ∷ (0x1D, ("ORA", absolute_x))
    ∷ (0x1E, ("ASL", absolute_x))
    ∷ []

abbrev pub cases_20 : List Case
cases_20 =
    (0x20, ("JSR", absolute))
    ∷ (0x21, ("AND", indexed_indirect))
    ∷ (0x24, ("BIT", zero_page))
    ∷ (0x25, ("AND", zero_page))
    ∷ (0x26, ("ROL", zero_page))
    ∷ (0x28, ("PLP", implied))
    ∷ (0x29, ("AND", immediate))
    ∷ (0x2A, ("ROL", accumulator))
    ∷ (0x2C, ("BIT", absolute))
    ∷ (0x2D, ("AND", absolute))
    ∷ (0x2E, ("ROL", absolute))
    ∷ (0x30, ("BMI", relative))
    ∷ (0x31, ("AND", indirect_indexed))
    ∷ (0x35, ("AND", zero_page_x))
    ∷ (0x36, ("ROL", zero_page_x))
    ∷ (0x38, ("SEC", implied))
    ∷ (0x39, ("AND", absolute_y))
    ∷ (0x3D, ("AND", absolute_x))
    ∷ (0x3E, ("ROL", absolute_x))
    ∷ []

abbrev pub cases_40 : List Case
cases_40 =
    (0x40, ("RTI", implied))
    ∷ (0x41, ("EOR", indexed_indirect))
    ∷ (0x45, ("EOR", zero_page))
    ∷ (0x46, ("LSR", zero_page))
    ∷ (0x48, ("PHA", implied))
    ∷ (0x49, ("EOR", immediate))
    ∷ (0x4A, ("LSR", accumulator))
    ∷ (0x4C, ("JMP", absolute))
    ∷ (0x4D, ("EOR", absolute))
    ∷ (0x4E, ("LSR", absolute))
    ∷ (0x50, ("BVC", relative))
    ∷ (0x51, ("EOR", indirect_indexed))
    ∷ (0x55, ("EOR", zero_page_x))
    ∷ (0x56, ("LSR", zero_page_x))
    ∷ (0x58, ("CLI", implied))
    ∷ (0x59, ("EOR", absolute_y))
    ∷ (0x5D, ("EOR", absolute_x))
    ∷ (0x5E, ("LSR", absolute_x))
    ∷ []

abbrev pub cases_60 : List Case
cases_60 =
    (0x60, ("RTS", implied))
    ∷ (0x61, ("ADC", indexed_indirect))
    ∷ (0x65, ("ADC", zero_page))
    ∷ (0x66, ("ROR", zero_page))
    ∷ (0x68, ("PLA", implied))
    ∷ (0x69, ("ADC", immediate))
    ∷ (0x6A, ("ROR", accumulator))
    ∷ (0x6C, ("JMP", indirect))
    ∷ (0x6D, ("ADC", absolute))
    ∷ (0x6E, ("ROR", absolute))
    ∷ (0x70, ("BVS", relative))
    ∷ (0x71, ("ADC", indirect_indexed))
    ∷ (0x75, ("ADC", zero_page_x))
    ∷ (0x76, ("ROR", zero_page_x))
    ∷ (0x78, ("SEI", implied))
    ∷ (0x79, ("ADC", absolute_y))
    ∷ (0x7D, ("ADC", absolute_x))
    ∷ (0x7E, ("ROR", absolute_x))
    ∷ []

abbrev pub cases_80 : List Case
cases_80 =
    (0x81, ("STA", indexed_indirect))
    ∷ (0x84, ("STY", zero_page))
    ∷ (0x85, ("STA", zero_page))
    ∷ (0x86, ("STX", zero_page))
    ∷ (0x88, ("DEY", implied))
    ∷ (0x8A, ("TXA", implied))
    ∷ (0x8C, ("STY", absolute))
    ∷ (0x8D, ("STA", absolute))
    ∷ (0x8E, ("STX", absolute))
    ∷ (0x90, ("BCC", relative))
    ∷ (0x91, ("STA", indirect_indexed))
    ∷ (0x94, ("STY", zero_page_x))
    ∷ (0x95, ("STA", zero_page_x))
    ∷ (0x96, ("STX", zero_page_y))
    ∷ (0x98, ("TYA", implied))
    ∷ (0x99, ("STA", absolute_y))
    ∷ (0x9A, ("TXS", implied))
    ∷ (0x9D, ("STA", absolute_x))
    ∷ []

abbrev pub cases_a0 : List Case
cases_a0 =
    (0xA0, ("LDY", immediate))
    ∷ (0xA1, ("LDA", indexed_indirect))
    ∷ (0xA2, ("LDX", immediate))
    ∷ (0xA4, ("LDY", zero_page))
    ∷ (0xA5, ("LDA", zero_page))
    ∷ (0xA6, ("LDX", zero_page))
    ∷ (0xA8, ("TAY", implied))
    ∷ (0xA9, ("LDA", immediate))
    ∷ (0xAA, ("TAX", implied))
    ∷ (0xAC, ("LDY", absolute))
    ∷ (0xAD, ("LDA", absolute))
    ∷ (0xAE, ("LDX", absolute))
    ∷ (0xB0, ("BCS", relative))
    ∷ (0xB1, ("LDA", indirect_indexed))
    ∷ (0xB4, ("LDY", zero_page_x))
    ∷ (0xB5, ("LDA", zero_page_x))
    ∷ (0xB6, ("LDX", zero_page_y))
    ∷ (0xB8, ("CLV", implied))
    ∷ (0xB9, ("LDA", absolute_y))
    ∷ (0xBA, ("TSX", implied))
    ∷ (0xBC, ("LDY", absolute_x))
    ∷ (0xBD, ("LDA", absolute_x))
    ∷ (0xBE, ("LDX", absolute_y))
    ∷ []

abbrev pub cases_c0 : List Case
cases_c0 =
    (0xC0, ("CPY", immediate))
    ∷ (0xC1, ("CMP", indexed_indirect))
    ∷ (0xC4, ("CPY", zero_page))
    ∷ (0xC5, ("CMP", zero_page))
    ∷ (0xC6, ("DEC", zero_page))
    ∷ (0xC8, ("INY", implied))
    ∷ (0xC9, ("CMP", immediate))
    ∷ (0xCA, ("DEX", implied))
    ∷ (0xCC, ("CPY", absolute))
    ∷ (0xCD, ("CMP", absolute))
    ∷ (0xCE, ("DEC", absolute))
    ∷ (0xD0, ("BNE", relative))
    ∷ (0xD1, ("CMP", indirect_indexed))
    ∷ (0xD5, ("CMP", zero_page_x))
    ∷ (0xD6, ("DEC", zero_page_x))
    ∷ (0xD8, ("CLD", implied))
    ∷ (0xD9, ("CMP", absolute_y))
    ∷ (0xDD, ("CMP", absolute_x))
    ∷ (0xDE, ("DEC", absolute_x))
    ∷ []

abbrev pub cases_e0 : List Case
cases_e0 =
    (0xE0, ("CPX", immediate))
    ∷ (0xE1, ("SBC", indexed_indirect))
    ∷ (0xE4, ("CPX", zero_page))
    ∷ (0xE5, ("SBC", zero_page))
    ∷ (0xE6, ("INC", zero_page))
    ∷ (0xE8, ("INX", implied))
    ∷ (0xE9, ("SBC", immediate))
    ∷ (0xEA, ("NOP", implied))
    ∷ (0xEC, ("CPX", absolute))
    ∷ (0xED, ("SBC", absolute))
    ∷ (0xEE, ("INC", absolute))
    ∷ (0xF0, ("BEQ", relative))
    ∷ (0xF1, ("SBC", indirect_indexed))
    ∷ (0xF5, ("SBC", zero_page_x))
    ∷ (0xF6, ("INC", zero_page_x))
    ∷ (0xF8, ("SED", implied))
    ∷ (0xF9, ("SBC", absolute_y))
    ∷ (0xFD, ("SBC", absolute_x))
    ∷ (0xFE, ("INC", absolute_x))
    ∷ []

unfoldable pub find_case : ℕ → List Case → Option (String × Mode)
find_case opcode [] = none
find_case opcode ((code, entry) ∷ cases) =
    if code == opcode then some entry else find_case opcode cases

-- The case of an opcode, and `none` for the default.
unfoldable pub switch : ℕ → Option (String × Mode)
unfolding find_case
switch opcode = find_case opcode (
    cases_00
    ++ (cases_20
        ++ (cases_40 ++ (cases_60 ++ (cases_80 ++ (cases_a0 ++ (cases_c0 ++ (cases_e0))))))))
