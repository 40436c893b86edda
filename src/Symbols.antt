-- ===== src/Symbols.antt =====
-- tools/benEater_simulator/simulator.c: the list of symbols, newest first, and its searches.
-- `symbol_list` is a list, and a pointer to an entry is the entry, or `none` for NULL.
pub mod Closest
pub mod Pattern
pub mod Search
pub mod Dictionary
mod Samples
use ben_eater.Common.{
  ℕ, suc, zero, ◌+◌, ◌-◌, ◌*◌, ◌^◌, Bool, true, false, ◌&&◌, ◌||◌, Option, none, some, List, [],
  ◌∷◌, ◌++◌, Text, codes, text_eq, skip_while, is_blank, hex4, dec_text, length, drop, ltb, leb,
  ◌==◌, if◌then◌else◌,
}

pub record SymbolEntry : Type 0 where
  pub symbol_name : Text
  pub address : ℕ

abbrev pub uint_max : ℕ
uint_max = 2 ^ 32 - 1

-- The loop of `find_closest_symbol` over `current`, with `closest` and `min_distance`.
unfoldable pub closest_loop : ℕ → List SymbolEntry → Option SymbolEntry → ℕ → Option SymbolEntry
closest_loop address [] closest min_distance = closest
closest_loop address (current ∷ next) closest min_distance =
    let nearer = leb current.address address && ltb (address - current.address) min_distance in
    closest_loop address next (if nearer then some current else closest)
      (if nearer then address - current.address else min_distance)

unfoldable pub find_closest_symbol : List SymbolEntry → ℕ → Option SymbolEntry
unfolding closest_loop
find_closest_symbol symbol_list address = closest_loop address symbol_list none uint_max

unfoldable pub find_symbol_by_name : List SymbolEntry → Text → Option SymbolEntry
unfolding text_eq
find_symbol_by_name [] name = none
find_symbol_by_name (current ∷ next) name =
    if text_eq current.symbol_name name then some current else find_symbol_by_name next name

-- `star_pattern` and `star_text`, where a star has been met.
abbrev pub Star : Type 0
Star = Option (Text × Text)

-- The last two branches of the loop of `match_pattern`, before a text that is not at its end.
unfoldable pub backtrack : Star → (Text → Text → Star → Option Bool) → Option Bool
backtrack none next = some false
backtrack (some (star_pattern, [])) next = none
backtrack (some (star_pattern, _ ∷ star_text)) next =
    next star_pattern star_text (some (star_pattern, star_text))

-- The trailing stars of a pattern, and the test for its end.
unfoldable pub only_stars : Text → Bool
only_stars [] = true
only_stars (q ∷ p) = if q == b'*' then only_stars p else false

-- The loop of `match_pattern`, on fuel; `none` if it runs out.
unfoldable pub match_loop : ℕ → Text → Text → Star → Option Bool
unfolding backtrack only_stars
match_loop zero p t star = none
match_loop (suc f) p [] star = some (only_stars p)
match_loop (suc f) [] (c ∷ t) star = backtrack star (match_loop f)
match_loop (suc f) (q ∷ p) (c ∷ t) star = elim (q == b'*') [
  | true ↦ match_loop f p (c ∷ t) (some (p, c ∷ t))
  | false ↦ elim (q == b'?' || q == c) [
    | true ↦ match_loop f p t star
    | false ↦ backtrack star (match_loop f)
  ]
]

unfoldable pub match_pattern : Text → Text → Option Bool
unfolding match_loop
match_pattern pattern text =
    match_loop ((length text + 1) * (length pattern + 1) + 1) pattern text none

unfoldable pub matches_pattern : Text → SymbolEntry → Bool
unfolding match_pattern
matches_pattern pattern current = elim (match_pattern pattern current.symbol_name) [
  | some b ↦ b
  | none ↦ false
]

-- The loop of `search_symbols`: what it prints, and `match_count`.
unfoldable pub search_loop : Text → List SymbolEntry → ℕ → Text × ℕ
unfolding matches_pattern hex4
search_loop pattern [] match_count = ([], match_count)
search_loop pattern (current ∷ next) match_count =
    let hit = matches_pattern pattern current in
    let (out, n) = search_loop pattern next (if hit then match_count + 1 else match_count) in
    (
      (if hit
            then codes "  "
              ++ hex4 current.address
              ++ codes "  "
              ++ current.symbol_name
              ++ codes "\n"
            else [])
          ++ out,
      n,
    )

-- What `search_symbols` prints.
unfoldable pub search_symbols : List SymbolEntry → Text → Text
unfolding search_loop dec_text
search_symbols symbol_list [] = codes "Usage: s <pattern>\nExamples: s print*, s *lcd*, s init_?\n"
search_symbols symbol_list (q ∷ p) =
    let (out, match_count) = search_loop (q ∷ p) symbol_list 0 in
    codes "Symbols matching pattern '"
    ++ (q ∷ p)
    ++ codes "':\n"
    ++ out
    ++ (if match_count == 0
        then codes "  No symbols found matching pattern '" ++ (q ∷ p) ++ codes "'\n"
        else codes "Found " ++ dec_text match_count ++ codes " matching symbol(s)\n")

abbrev symbol_search_usage : Text
symbol_search_usage =
    codes
      "Usage: s <pattern>\nWildcards: * (any sequence), ? (single char)\nExamples:\n  s print*     - symbols starting with 'print'\n  s *lcd*      - symbols containing 'lcd'\n  s init_?     - symbols like 'init_a', 'init_1', etc.\n  s main       - exact match for 'main'\n"

unfoldable pub handle_symbol_search_command : List SymbolEntry → Text → Text
unfolding search_symbols skip_while is_blank
handle_symbol_search_command symbol_list input = elim (skip_while is_blank (drop 1 input)) [
  | [] ↦ symbol_search_usage
  | q ∷ p ↦ search_symbols symbol_list (q ∷ p)
]
