-- ===== src/Breakpoints/Command.antt =====
-- The `b` command of the debugger, on its text.
use ben_eater.Common.{
  ℕ, ◌≡◌, ◌≢◌, refl, Option, none, some, List, ◌∷◌, [], Text, drop, skip_while, is_blank, arith,
  Option-cases, inl, inr,
}
use ben_eater.Common.Scan.{hex_value, scan_hex-digit}
use ben_eater.Symbols.{SymbolEntry, find_symbol_by_name}
use ben_eater.Breakpoints.{
  Breakpoints, add_breakpoint, scan_breakpoint, set_breakpoint, handle_breakpoint_command,
}
use ben_eater.Breakpoints.Toggle.{IsValid, add_breakpoint-IsValid}

set_breakpoint-IsValid :
    (symbol_list : List SymbolEntry) (ptr : Text) (t : Breakpoints)
    → IsValid t
    → IsValid (set_breakpoint symbol_list ptr t).0
unfolding set_breakpoint
set_breakpoint-IsValid symbol_list ptr t v = elim (Option-cases (scan_breakpoint ptr)) [
  | inl e ↦ elim (Option-cases (find_symbol_by_name symbol_list ptr)) [
    | inl f ↦ rw (e, set_breakpoint) (rw f v)
    | inr (s, f) ↦
        rw (e, set_breakpoint) (rw f (add_breakpoint-IsValid symbol_list s.address (some ptr) t v))
  ]
  | inr ((n, rest), e) ↦ rw (e, set_breakpoint) (add_breakpoint-IsValid symbol_list n none t v)
]

-- Whatever is typed behind `b`, the table stays valid.
pub handle_breakpoint_command-IsValid :
    (symbol_list : List SymbolEntry) (input : Text) (t : Breakpoints)
    → IsValid t
    → IsValid (handle_breakpoint_command symbol_list input t).0
unfolding handle_breakpoint_command
handle_breakpoint_command-IsValid symbol_list input t v =
    go (skip_while is_blank (drop 1 input)) refl
  where
    go :
        (ptr : Text)
        → skip_while is_blank (drop 1 input) ≡ ptr
        → IsValid (handle_breakpoint_command symbol_list input t).0
    go [] e = rw (e, handle_breakpoint_command) v
    go (c ∷ s) e =
        rw (e, handle_breakpoint_command) (set_breakpoint-IsValid symbol_list (c ∷ s) t v)

add_breakpoint_table :
    (symbols others : List SymbolEntry) (address : ℕ) (label : Option Text) (t : Breakpoints)
    → (add_breakpoint symbols address label t).0 ≡ (add_breakpoint others address label t).0
unfolding add_breakpoint
add_breakpoint_table symbols others address label t = ground arith

-- A word that begins with a hexadecimal digit other than 0 is never looked up as a label: the table
-- that the command leaves is the same for every list of symbols.
pub set_breakpoint_digit :
    (symbols others : List SymbolEntry) (c d : ℕ) (s : Text) (t : Breakpoints)
    → hex_value c ≡ some d
    → c ≢ b'0'
    → (set_breakpoint symbols (c ∷ s) t).0 ≡ (set_breakpoint others (c ∷ s) t).0
unfolding set_breakpoint scan_breakpoint
set_breakpoint_digit symbols others c d s t h ne =
    let ((n, rest), p) = scan_hex-digit c d s h ne in
    rw (p, set_breakpoint) (add_breakpoint_table symbols others n none t)
