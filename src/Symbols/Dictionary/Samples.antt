-- ===== src/Symbols/Dictionary/Samples.antt =====
-- The reading of a list file with two symbols, and the theorem on it.
use mathlib.Core.List.{reverse}
use ben_eater.Common.{is_space, ◌≡◌, refl, some, List, [], ◌∷◌, ◌++◌, Text, codes, arith}
use ben_eater.Common.Lines.{is_line, is_line_sound, text_of, AllFit}
use ben_eater.Symbols.{SymbolEntry}
use ben_eater.Symbols.Dictionary.{scan_symbol, contains, create_symbol_dictionary}
use ben_eater.Symbols.Dictionary.Listing.{Listed, rows, AllListed, entries}
use ben_eater.Symbols.Dictionary.RoundTrip.{
  heading, NoHeading, NoSymbols, create_symbol_dictionary-text_of,
}

abbrev file : Text
file =
    codes "00:8000 A9FF  lda #$ff\n"
    ++ codes "\nSymbols by name:\n"
    ++ codes "loop      A:8005\n"
    ++ codes "PORTB   E:6000\n\n"
    ++ codes "Symbols by value:\n"

abbrev symbols : List SymbolEntry
symbols =
    record { symbol_name = codes "PORTB"; address = 0x6000 }
    ∷ record { symbol_name = codes "loop"; address = 0x8005 }
    ∷ []

read : create_symbol_dictionary (some file) ≡ some symbols
unfolding create_symbol_dictionary
read = refl

abbrev listed : List Listed
listed =
    record { type_char = b'A'; entry = record { symbol_name = codes "loop"; address = 0x8005 } }
    ∷ record { type_char = b'E'; entry = record { symbol_name = codes "PORTB"; address = 0x6000 } }
    ∷ []

abbrev before : List Text
before = codes "00:8000 A9FF  lda #$ff" ∷ [] ∷ []

abbrev after : List Text
after = [] ∷ codes "Symbols by value:" ∷ codes "6000 PORTB" ∷ codes "8005 loop" ∷ []

before-AllFit : AllFit 255 before
unfolding is_line
before-AllFit =
    (is_line_sound (codes "00:8000 A9FF  lda #$ff") refl, omega arith, (tt, omega arith, tt))

after-AllFit : AllFit 255 after
unfolding is_line
after-AllFit = (
  tt,
  omega arith,
  (
    is_line_sound (codes "Symbols by value:") refl,
    omega arith,
    (
      is_line_sound (codes "6000 PORTB") refl,
      omega arith,
      (is_line_sound (codes "8005 loop") refl, omega arith, tt),
    ),
  ),
)

before-NoHeading : NoHeading before
unfolding contains
before-NoHeading = (refl, (refl, tt))

after-NoSymbols : NoSymbols after
unfolding scan_symbol
after-NoSymbols = (refl, (refl, (refl, (refl, tt))))

listed-AllListed : AllListed listed
unfolding is_space
listed-AllListed = (
  record {
    some_name = omega arith;
    short_name = omega arith;
    one_word = (refl, (refl, (refl, (refl, tt))));
    address_fits = omega arith;
    letter = refl;
  },
  (
    record {
      some_name = omega arith;
      short_name = omega arith;
      one_word = (refl, (refl, (refl, (refl, (refl, tt)))));
      address_fits = omega arith;
      letter = refl;
    },
    tt,
  ),
)

create_symbol_dictionary-text_of_example :
    create_symbol_dictionary (some (text_of (before ++ (heading ∷ (rows listed ++ after)))))
    ≡ some (reverse (entries listed))
create_symbol_dictionary-text_of_example =
    create_symbol_dictionary-text_of before listed after before-AllFit before-NoHeading
      listed-AllListed after-AllFit after-NoSymbols
