-- ===== src/Breakpoints/Samples.antt =====
-- Runs of the breakpoint commands, and the theorems on them at concrete inputs.
use ben_eater.Common.{
  ◌≡◌, refl, true, not, none, some, List, [], ◌∷◌, codes, arith, leb, ◌==◌, if◌then◌else◌,
}
use ben_eater.Common.Array.{any_passes}
use ben_eater.Common.Keyed.{toggled}
use ben_eater.Common.Scan.{hex_value}
use ben_eater.Symbols.{SymbolEntry}
use ben_eater.Breakpoints.{
  Breakpoint, Breakpoints, max_breakpoints, add_breakpoint, is_breakpoint, set_breakpoint,
  handle_breakpoint_command, print_breakpoints, in_use,
}
use ben_eater.Breakpoints.Toggle.{
  IsValid, entry, add_breakpoint-in_use, is_breakpoint-add_breakpoint,
}
use ben_eater.Breakpoints.Command.{set_breakpoint_digit}

abbrev symbols : List SymbolEntry
symbols = record { symbol_name = codes "delay"; address = 0x8100 } ∷ []

-- Breakpoints at $8000 and $8003.
abbrev two_points : Breakpoints
two_points = record {
  breakpoints = λ i. if i == 0 then entry 0x8000 none else entry 0x8003 (some (codes "loop"));
  breakpoint_count = 2;
}

two_points-IsValid : IsValid two_points
unfolding any_passes
two_points-IsValid = record { within = omega arith; distinct = (refl, (refl, tt)) }

removes :
    in_use (add_breakpoint symbols 0x8000 none two_points).0
    ≡ entry 0x8003 (some (codes "loop")) ∷ []
unfolding add_breakpoint
removes = refl

prints : print_breakpoints two_points ≡ codes "Breakpoints:\n  8000\n  8003 (loop)\n\n"
unfolding print_breakpoints
prints = refl

-- The label `delay` begins with hexadecimal digits: the breakpoint is at $00DE.
label_read_as_address :
    is_breakpoint (handle_breakpoint_command symbols (codes "b delay") two_points).0 0xDE ≡ true
unfolding handle_breakpoint_command is_breakpoint
label_read_as_address = refl

add_breakpoint-in_use_example : in_use (add_breakpoint symbols 0x8000 none two_points).0 ≡ (
    if leb max_breakpoints 2
    then in_use two_points
    else toggled Breakpoint.address (entry 0x8000 none) (in_use two_points))
add_breakpoint-in_use_example = add_breakpoint-in_use symbols 0x8000 none two_points

is_breakpoint-add_breakpoint_example :
    is_breakpoint (add_breakpoint symbols 0x8003 none two_points).0 0x8003 ≡ (
      if leb max_breakpoints 2
      then is_breakpoint two_points 0x8003
      else if 0x8003 == 0x8003
      then not (is_breakpoint two_points 0x8003)
      else is_breakpoint two_points 0x8003)
is_breakpoint-add_breakpoint_example =
    is_breakpoint-add_breakpoint symbols 0x8003 none two_points 0x8003 two_points-IsValid

set_breakpoint_digit_example :
    (set_breakpoint symbols (b'd' ∷ codes "elay") two_points).0
    ≡ (set_breakpoint [] (b'd' ∷ codes "elay") two_points).0
set_breakpoint_digit_example =
    set_breakpoint_digit symbols [] b'd' 13 (codes "elay") two_points digit (omega arith)
  where
    digit : hex_value b'd' ≡ some 13
    digit = unfold hex_value in refl

-- The first sscanf reads nothing behind "0x", the second reads 12.
prefix_with_space : is_breakpoint (set_breakpoint [] (codes "0x 12") two_points).0 0x12 ≡ true
unfolding set_breakpoint is_breakpoint
prefix_with_space = refl
