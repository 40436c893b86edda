-- ===== src/Breakpoints.antt =====
-- tools/benEater_simulator/simulator.c: the table of breakpoints and the commands on it. The array
-- and its count are `Breakpoints`; what a function prints is the text beside its new table.
pub mod Toggle
pub mod Command
mod Samples
use ben_eater.Common.{
  ◌&&◌, ℕ, suc, zero, ◌+◌, ◌-◌, Bool, true, false, Option, none, some, List, [], ◌∷◌, ◌++◌, Text,
  codes, skip_while, is_blank, hex4, drop, leb, ◌==◌, if◌then◌else◌,
}
use ben_eater.Common.Array.{update, find_from, shift_down, window}
use ben_eater.Common.Scan.{scan_hex}
use ben_eater.Symbols.{SymbolEntry, find_closest_symbol, find_symbol_by_name}

abbrev pub max_breakpoints : ℕ
max_breakpoints = 50

pub record Breakpoint : Type 0 where
  pub address : ℕ
  pub label : Option Text

-- `breakpoints` and `breakpoint_count`.
pub record Breakpoints : Type 0 where
  pub breakpoints : ℕ → Breakpoint
  pub breakpoint_count : ℕ

-- The test `breakpoints[i].address == address`.
abbrev pub at_address : ℕ → Breakpoint → Bool
at_address address b = b.address == address

-- The last lines of `add_breakpoint`.
unfoldable pub breakpoint_set_text : List SymbolEntry → ℕ → Text
unfolding hex4 find_closest_symbol
breakpoint_set_text symbol_list address = elim (find_closest_symbol symbol_list address) [
  | some closest ↦
      codes "Breakpoint set at "
      ++ hex4 address
      ++ codes " under "
      ++ closest.symbol_name
      ++ codes "\n"
  | none ↦ codes "Breakpoint set at " ++ hex4 address ++ codes "\n"
]

unfoldable pub add_breakpoint :
    List SymbolEntry → ℕ → Option Text → Breakpoints → Breakpoints × Text
unfolding find_from shift_down breakpoint_set_text hex4
add_breakpoint symbol_list address label t =
    if leb max_breakpoints t.breakpoint_count
    then (t, codes "Maximum breakpoints reached!\n")
    else elim (find_from (at_address address) t.breakpoints 0 t.breakpoint_count) [
      | some i ↦ (
        record {
          breakpoints = shift_down t.breakpoints i (t.breakpoint_count - 1 - i);
          breakpoint_count = t.breakpoint_count - 1;
        },
        codes "Breakpoint at " ++ hex4 address ++ codes " already exists. Removing it.\n",
      )
      | none ↦ (
        record {
          breakpoints =
              update t.breakpoints t.breakpoint_count (record { address = address; label = label });
          breakpoint_count = t.breakpoint_count + 1;
        },
        breakpoint_set_text symbol_list address,
      )
    ]

unfoldable pub is_breakpoint : Breakpoints → ℕ → Bool
unfolding find_from
is_breakpoint t address = elim (find_from (at_address address) t.breakpoints 0 t.breakpoint_count) [
  | some i ↦ true
  | none ↦ false
]

-- The line that `print_breakpoints` gives to an entry.
unfoldable pub breakpoint_line : Breakpoint → Text
unfolding hex4
breakpoint_line b = elim (b.label) [
  | some label ↦ codes "  " ++ hex4 b.address ++ codes " (" ++ label ++ codes ")\n"
  | none ↦ codes "  " ++ hex4 b.address ++ codes "\n"
]

unfoldable pub breakpoint_lines : (ℕ → Breakpoint) → ℕ → ℕ → Text
unfolding breakpoint_line
breakpoint_lines breakpoints i zero = []
breakpoint_lines breakpoints i (suc n) =
    breakpoint_line (breakpoints i) ++ breakpoint_lines breakpoints (suc i) n

unfoldable pub print_breakpoints : Breakpoints → Text
unfolding breakpoint_lines
print_breakpoints t =
    if t.breakpoint_count == 0
    then codes "No breakpoints set\n"
    else codes "Breakpoints:\n" ++ breakpoint_lines t.breakpoints 0 t.breakpoint_count ++ codes "\n"

-- sscanf(ptr, "0x%x", ...)
unfoldable pub scan_prefixed : Text → Option (ℕ × Text)
unfolding scan_hex
scan_prefixed (c ∷ d ∷ s) = if c == b'0' && d == b'x' then scan_hex s else none
scan_prefixed s = none

-- The two sscanf of the condition: `%x`, and where that reads nothing `0x%x`, as in "0x 12".
unfoldable pub scan_breakpoint : Text → Option (ℕ × Text)
unfolding scan_hex scan_prefixed
scan_breakpoint ptr = elim (scan_hex ptr) [ some r ↦ some r | none ↦ scan_prefixed ptr ]

-- `ptr` is at its first character: an address if one of the two reads one, else a label.
unfoldable pub set_breakpoint : List SymbolEntry → Text → Breakpoints → Breakpoints × Text
unfolding scan_breakpoint add_breakpoint find_symbol_by_name
set_breakpoint symbol_list ptr t = elim (scan_breakpoint ptr) [
  | some (address, rest) ↦ add_breakpoint symbol_list address none t
  | none ↦ elim (find_symbol_by_name symbol_list ptr) [
    | some symbol ↦ add_breakpoint symbol_list symbol.address (some ptr) t
    | none ↦ (t, codes "Warning: Label '" ++ ptr ++ codes "' not found\n")
  ]
]

unfoldable pub handle_breakpoint_command :
    List SymbolEntry → Text → Breakpoints → Breakpoints × Text
unfolding set_breakpoint print_breakpoints skip_while is_blank
handle_breakpoint_command symbol_list input t = elim (skip_while is_blank (drop 1 input)) [
  | [] ↦ (t, print_breakpoints t)
  | c ∷ s ↦ set_breakpoint symbol_list (c ∷ s) t
]

unfoldable pub cleanup_breakpoints : Breakpoints → Breakpoints
cleanup_breakpoints t = record t { breakpoint_count = 0 }

-- The entries in use, in order.
abbrev pub in_use : Breakpoints → List Breakpoint
in_use t = window t.breakpoints 0 t.breakpoint_count
