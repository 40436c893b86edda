-- ===== src/Symbols/Samples.antt =====
-- Runs of the searches, and the theorems on them at concrete inputs.
use ben_eater.Common.{◌≡◌, refl, true, false, none, some, List, [], ◌∷◌, ◌++◌, codes, length, arith}
use ben_eater.Symbols.{SymbolEntry, find_closest_symbol, match_pattern, search_symbols}
use ben_eater.Symbols.Closest.{IsClosest, find_closest_symbol-IsClosest}
use ben_eater.Symbols.Pattern.{Matches, Answers, match_pattern-Answers}
use ben_eater.Symbols.Search.{matching, rows, summary, search_symbols-matching}

abbrev symbols : List SymbolEntry
symbols =
    record { symbol_name = codes "lcd_wait"; address = 0x8040 }
    ∷ record { symbol_name = codes "reset"; address = 0x8000 }
    ∷ record { symbol_name = codes "lcd_print"; address = 0x8020 }
    ∷ []

closest_is_below :
    find_closest_symbol symbols 0x8023
    ≡ some (record { symbol_name = codes "lcd_print"; address = 0x8020 })
unfolding find_closest_symbol
closest_is_below = refl

none_is_below : find_closest_symbol symbols 0x700 ≡ none
unfolding find_closest_symbol
none_is_below = refl

backtracks : match_pattern (codes "s*ts") (codes "ststs") ≡ some true
unfolding match_pattern
backtracks = refl

one_character : match_pattern (codes "init_?") (codes "init_12") ≡ some false
unfolding match_pattern
one_character = refl

search_lcd :
    search_symbols symbols (codes "*lcd_p*")
    ≡ codes "Symbols matching pattern '*lcd_p*':\n  8020  lcd_print\nFound 1 matching symbol(s)\n"
unfolding search_symbols
search_lcd = refl

find_closest_symbol-IsClosest_example :
    IsClosest 0x8023 symbols (find_closest_symbol symbols 0x8023)
find_closest_symbol-IsClosest_example = find_closest_symbol-IsClosest symbols 0x8023 (omega arith)

match_pattern-Answers_example :
    Answers (Matches (codes "s*ts") (codes "ststs")) (match_pattern (codes "s*ts") (codes "ststs"))
match_pattern-Answers_example = match_pattern-Answers (codes "s*ts") (codes "ststs")

search_symbols-matching_example :
    search_symbols symbols (codes "lcd*")
    ≡ codes "Symbols matching pattern '"
      ++ codes "lcd*"
      ++ codes "':\n"
      ++ rows (matching (codes "lcd*") symbols)
      ++ summary (codes "lcd*") (length (matching (codes "lcd*") symbols))
search_symbols-matching_example = search_symbols-matching symbols b'l' (codes "cd*")
