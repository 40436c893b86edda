-- ===== src/Symbols/Dictionary.antt =====
-- tools/benEater_simulator/simulator.c: the reading of the symbols at the end of a list file.
pub mod Entries
pub mod Listing
pub mod RoundTrip
mod Samples
use ben_eater.Common.{
  ℕ, ◌+◌, Bool, true, false, ◌&&◌, ◌||◌, not, Option, none, some, List, [], ◌∷◌, ◌++◌, Text, codes,
  length, hex4, is_space, skip_while, fgets_lines, leb, ◌==◌, if◌then◌else◌,
}
use ben_eater.Common.Scan.{scan_hex}
use ben_eater.Symbols.{SymbolEntry, find_symbol_by_name}
use ben_eater.Breakpoints.{Breakpoints, add_breakpoint}

unfoldable pub starts_with : Text → Text → Bool
starts_with [] s = true
starts_with (c ∷ part) [] = false
starts_with (c ∷ part) (d ∷ s) = c == d && starts_with part s

-- strstr(s, part) != NULL
unfoldable pub contains : Text → Text → Bool
unfolding starts_with
contains part [] = starts_with part []
contains part (c ∷ s) = starts_with part (c ∷ s) || contains part s

-- The run of characters that %s takes, and the text behind it.
unfoldable pub scan_word : Text → Text × Text
unfolding is_space
scan_word [] = ([], [])
scan_word (c ∷ s) =
    let (word, rest) = scan_word s in if is_space c then ([], c ∷ s) else (c ∷ word, rest)

-- What sscanf makes of a line: an entry, no entry, or a name that runs over `name_buffer`.
pub data ScannedLine : Type 0 where
  new_symbol : SymbolEntry → ScannedLine
  no_entry : ScannedLine
  overrun : ScannedLine

-- %c, the colon and %x behind the name.
unfoldable pub scan_address : Text → Option (ℕ × Text)
unfolding scan_hex
scan_address (type_char ∷ colon ∷ s) = if colon == b':' then scan_hex s else none
scan_address s = none

-- The entry of a name and what is scanned behind it.
unfoldable pub named : Text → Option (ℕ × Text) → ScannedLine
named name none = no_entry
named name (some (address, _)) = new_symbol (record { symbol_name = name; address = address })

unfoldable pub scan_symbol : Text → ScannedLine
unfolding scan_word scan_address skip_while is_space named
scan_symbol line =
    let (name, rest) = scan_word (skip_while is_space line) in
    if length name == 0
    then no_entry
    else if leb 100 (length name)
    then overrun
    else named name (scan_address (skip_while is_space rest))

unfoldable pub skip_header : List Text → List Text
unfolding contains
skip_header [] = []
skip_header (line ∷ lines) =
    let later = skip_header lines in
    if contains (codes "Symbols by name:") line then lines else later

-- `none` is a write behind `name_buffer`.
unfoldable pub read_symbols : List Text → List SymbolEntry → Option (List SymbolEntry)
unfolding scan_symbol
read_symbols [] head = some head
read_symbols (line ∷ lines) head = elim (scan_symbol line) [
  | new_symbol new_entry ↦ read_symbols lines (new_entry ∷ head)
  | no_entry ↦ read_symbols lines head
  | overrun ↦ none
]

-- `line` holds 255 characters. A file that can not be opened gives NULL, the empty list.
unfoldable pub create_symbol_dictionary : Option Text → Option (List SymbolEntry)
unfolding read_symbols skip_header fgets_lines
create_symbol_dictionary none = some []
create_symbol_dictionary (some file) = read_symbols (skip_header (fgets_lines 255 255 file)) []

-- The search for the symbol to break at, and its messages.
unfoldable pub break_at : List SymbolEntry → Text → Breakpoints → Breakpoints × Text
unfolding find_symbol_by_name add_breakpoint hex4
break_at symbol_list break_symbol_name t =
    elim (find_symbol_by_name symbol_list break_symbol_name) [
      | none ↦ (t, codes "Symbol '" ++ break_symbol_name ++ codes "' not found.\n")
      | some current ↦
          let (t', out) = add_breakpoint symbol_list current.address (some break_symbol_name) t in
          (
            t',
            codes "Found breakpoint symbol '"
                ++ break_symbol_name
                ++ codes "' at address 0x"
                ++ hex4 current.address
                ++ codes "\n"
                ++ out
                ++ codes "Symbol '"
                ++ break_symbol_name
                ++ codes "' found and breakpoint added.\n",
          )
    ]

-- What create_symbol_dictionary prints: nothing where the file does not open.
abbrev pub started_text : Option Text → Text
started_text none = []
started_text (some file) = codes "create_symbol_dictionary: started"

-- `list_file` is `none` where no list file is given, and then what fopen finds. The result holds the
-- new `symbol_list` and breakpoints, and true for 0, false for -1.
unfoldable pub handle_symbol_lookup :
    Option (Option Text)
    → Option Text
    → List SymbolEntry
    → Breakpoints
    → Option (List SymbolEntry × Breakpoints × Text × Bool)
unfolding create_symbol_dictionary break_at
handle_symbol_lookup none break_symbol_name symbol_list t = some (symbol_list, t, [], true)
handle_symbol_lookup (some list_file) break_symbol_name symbol_list t =
    elim (create_symbol_dictionary list_file) [
      | none ↦ none
      | some [] ↦ some ([], t, started_text list_file, false)
      | some (e ∷ es) ↦ elim break_symbol_name [
        | none ↦ some (e ∷ es, t, started_text list_file, true)
        | some name ↦
            let (t', out) = break_at (e ∷ es) name t in
            some (e ∷ es, t', started_text list_file ++ out, true)
      ]
    ]
