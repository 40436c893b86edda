-- ===== src/Disasm/Decode.antt =====
-- The instruction set of the 6502 by the three fields of an opcode, aaabbbcc, and the proof that the
-- 151 cases of the switch are that set.
use Prim.Native.String.{String}
use text.Mathlib.Text.{◌==◌ as str_eq}
use text.Mathlib.TextEquality.{eq_iff}
use ben_eater.Common.{
  ℕ, ◌-◌, ◌/◌, ◌%◌, ◌<◌, ◌≡◌, refl, Bool, true, false, ◌&&◌, ◌||◌, Option, none, some, List, [],
  ◌∷◌, get_elem?, ltb, ◌==◌, if◌then◌else◌, arith, passes_below, passes_below_sound,
}
use ben_eater.Disasm.Switch.{
  Mode, implied, accumulator, immediate, zero_page, zero_page_x, zero_page_y, absolute, absolute_x,
  absolute_y, indirect, indexed_indirect, indirect_indexed, relative, switch,
}

abbrev pub Entry : Type 0
Entry = String × Mode

-- The entry of a word, where there is one, with a layout.
abbrev named : Option String → Mode → Option Entry
named none mode = none
named (some name) mode = some (name, mode)

abbrev words : List String → ℕ → Option String
words names a = get_elem? names a

abbrev pub layouts : List Mode → ℕ → String → Option Entry
layouts modes b name = elim (get_elem? modes b) [ some mode ↦ some (name, mode) | none ↦ none ]

-- cc = 01: eight operations on the accumulator, each with eight layouts; a store has no immediate.
abbrev pub alu_entry : ℕ → ℕ → Option Entry
alu_entry a b =
    if a == 4 && b == 2
    then none
    else elim (words ("ORA" ∷ "AND" ∷ "EOR" ∷ "ADC" ∷ "STA" ∷ "LDA" ∷ "CMP" ∷ "SBC" ∷ []) a) [
      | none ↦ none
      | some name ↦
          layouts
            (indexed_indirect ∷ zero_page ∷ immediate ∷ absolute ∷ indirect_indexed ∷ zero_page_x
              ∷ absolute_y ∷ absolute_x ∷ [])
            b name
    ]

-- cc = 10: shifts, moves of X, and counting. X as an index gives way to Y where X is moved.
abbrev pub shift_entry : ℕ → ℕ → Option Entry
shift_entry a b =
    let name = words ("ASL" ∷ "ROL" ∷ "LSR" ∷ "ROR" ∷ "STX" ∷ "LDX" ∷ "DEC" ∷ "INC" ∷ []) a in
    let moves_x = a == 4 || a == 5 in
    if b == 0
    then (if a == 5 then named name immediate else none)
    else if b == 1
    then named name zero_page
    else if b == 2
    then (if ltb a 4
        then named name accumulator
        else named (words ("TXA" ∷ "TAX" ∷ "DEX" ∷ "NOP" ∷ []) (a - 4)) implied)
    else if b == 3
    then named name absolute
    else if b == 5
    then named name (if moves_x then zero_page_y else zero_page_x)
    else if b == 6
    then (if moves_x then named (words ("TXS" ∷ "TSX" ∷ []) (a - 4)) implied else none)
    else if b == 7
    then (if a == 4 then none else named name (if a == 5 then absolute_y else absolute_x))
    else none

-- cc = 00: the rest.
abbrev pub rest_entry : ℕ → ℕ → Option Entry
rest_entry a b =
    let index_word : Option String =
      if ltb a 4 then none else words ("STY" ∷ "LDY" ∷ "CPY" ∷ "CPX" ∷ []) (a - 4) in
    if b == 0
    then (if a == 1
        then some ("JSR", absolute)
        else if a == 4
        then none
        else if ltb a 4
        then named (words ("BRK" ∷ "JSR" ∷ "RTI" ∷ "RTS" ∷ []) a) implied
        else named index_word immediate)
    else if b == 1
    then (if a == 1 then some ("BIT", zero_page) else named index_word zero_page)
    else if b == 2
    then named (words ("PHP" ∷ "PLP" ∷ "PHA" ∷ "PLA" ∷ "DEY" ∷ "TAY" ∷ "INY" ∷ "INX" ∷ []) a)
        implied
    else if b == 3
    then (if a == 1
        then some ("BIT", absolute)
        else if a == 2
        then some ("JMP", absolute)
        else if a == 3
        then some ("JMP", indirect)
        else named index_word absolute)
    else if b == 4
    then named (words ("BPL" ∷ "BMI" ∷ "BVC" ∷ "BVS" ∷ "BCC" ∷ "BCS" ∷ "BNE" ∷ "BEQ" ∷ []) a)
        relative
    else if b == 5
    then (if a == 4 || a == 5 then named index_word zero_page_x else none)
    else if b == 6
    then named (words ("CLC" ∷ "SEC" ∷ "CLI" ∷ "SEI" ∷ "TYA" ∷ "CLV" ∷ "CLD" ∷ "SED" ∷ []) a)
        implied
    else if b == 7
    then (if a == 5 then named index_word absolute_x else none)
    else none

abbrev pub fields_entry : ℕ → ℕ → ℕ → Option Entry
fields_entry a b c =
    if c == 0
    then rest_entry a b
    else if c == 1
    then alu_entry a b
    else if c == 2
    then shift_entry a b
    else none

unfoldable pub decode : ℕ → Option Entry
decode opcode = fields_entry (opcode / 32) (opcode / 4 % 8) (opcode % 4)

mode_number : Mode → ℕ
mode_number implied = 0
mode_number accumulator = 1
mode_number immediate = 2
mode_number zero_page = 3
mode_number zero_page_x = 4
mode_number zero_page_y = 5
mode_number absolute = 6
mode_number absolute_x = 7
mode_number absolute_y = 8
mode_number indirect = 9
mode_number indexed_indirect = 10
mode_number indirect_indexed = 11
mode_number relative = 12

mode_of : ℕ → Option Mode
mode_of n =
    get_elem?
      (implied ∷ accumulator ∷ immediate ∷ zero_page ∷ zero_page_x ∷ zero_page_y ∷ absolute
        ∷ absolute_x ∷ absolute_y ∷ indirect ∷ indexed_indirect ∷ indirect_indexed ∷ relative ∷ [])
      n

mode_of-number : (m : Mode) → mode_of (mode_number m) ≡ some m
unfolding mode_of mode_number
mode_of-number m = ground arith

mode_eq : (m n : Mode) → mode_number m ≡ mode_number n → m ≡ n
mode_eq m n e = cc (mode_of-number m, mode_of-number n)

same_entry : Option Entry → Option Entry → Bool
same_entry none none = true
same_entry none (some e) = false
same_entry (some e) none = false
same_entry (some (n, m)) (some (n', m')) = str_eq n n' && mode_number m == mode_number m'

same_entry→eq : (e f : Option Entry) → same_entry e f ≡ true → e ≡ f
unfolding same_entry
same_entry→eq none none h = refl
same_entry→eq none (some e) h = cc
same_entry→eq (some e) none h = cc
same_entry→eq (some (n, m)) (some (n', m')) h = ground (arith, eq_iff n n', mode_eq m m')

-- The switch knows exactly the opcodes of the instruction set, with the word and the layout that the
-- fields of the opcode give; all others go to the default.
pub switch-decode : (opcode : ℕ) → opcode < 256 → switch opcode ≡ decode opcode
switch-decode opcode h =
    same_entry→eq (switch opcode) (decode opcode) (passes_below_sound _ opcode h table)
  where
    table : passes_below (λ op. same_entry (switch op) (decode op)) 256 ≡ true
    table = unfold passes_below same_entry switch decode mode_number in refl
