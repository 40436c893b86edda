-- ===== src/Symbols/Dictionary/RoundTrip.antt =====
-- Reading a printed listing gives back its symbols.
use mathlib.Core.List.{append_assoc, reverse, reverse_aux}
use ben_eater.Common.{
  ℕ, suc, zero, ◌-◌, ◌+◌, ◌<◌, ◌≡◌, refl, ap, ◌∙◌, false, some, List, [], ◌∷◌, ◌++◌, Text, codes,
  replicate, length, length-append, is_space, skip_while, hex4, ◌==◌, leb, arith,
}
use ben_eater.Common.Hex.{hex4-digits}
use ben_eater.Common.Lines.{
  NoNewline, NoNewline-append, is_line, is_line_sound, text_of, with_newlines, AllFit,
  AllFit-append, fgets_lines-text_of, with_newlines-append,
}
use ben_eater.Symbols.{SymbolEntry}
use ben_eater.Symbols.Dictionary.{
  scan_word, scan_address, named, new_symbol, no_entry, scan_symbol, contains, skip_header,
  read_symbols, create_symbol_dictionary,
}
use ben_eater.Symbols.Dictionary.Entries.{NoSpace}
use ben_eater.Symbols.Dictionary.Listing.{
  Listed, IsListed, row_text, rows, AllListed, entries, scan_hex-hex4, hex4-NoNewline,
}

-- The name, the gap and the address of a row.

skip_while-word :
    (name rest : Text)
    → NoSpace name
    → 0 < length name
    → skip_while is_space (name ++ rest) ≡ name ++ rest
unfolding skip_while
skip_while-word [] rest h l = absurd (omega arith)
skip_while-word (c ∷ name) rest h l = rw h.0

scan_word-word :
    (name rest : Text) → NoSpace name → scan_word (name ++ (32 ∷ rest)) ≡ (name, 32 ∷ rest)
unfolding scan_word is_space
scan_word-word [] rest h = refl
scan_word-word (c ∷ name) rest h = rw (scan_word-word name rest h.1, h.0) refl

skip_while-gap :
    (n c : ℕ) (rest : Text)
    → is_space c ≡ false
    → skip_while is_space (replicate n 32 ++ (c ∷ rest)) ≡ c ∷ rest
unfolding skip_while is_space
skip_while-gap zero c rest h = rw h
skip_while-gap (suc n) c rest h = skip_while-gap n c rest h

-- A row behind its name.
abbrev behind_name : Listed → Text
behind_name l =
    replicate (suc (31 - length l.entry.symbol_name)) 32
    ++ (l.type_char ∷ b':' ∷ (hex4 l.entry.address ++ (10 ∷ [])))

row_text-split :
    (l : Listed) → row_text l ++ (10 ∷ []) ≡ l.entry.symbol_name ++ (32 ∷ behind_name l)
row_text-split l =
    append_assoc l.entry.symbol_name _ (10 ∷ [])
    ∙ ap (◌++◌ l.entry.symbol_name)
        (append_assoc (replicate (suc (suc (31 - length l.entry.symbol_name))) 32) _ (10 ∷ []))

named_length : (l : Listed) → IsListed l → (length l.entry.symbol_name == 0) ≡ false
named_length l i = ground (arith, i.some_name)

short_length : (l : Listed) → IsListed l → leb 100 (length l.entry.symbol_name) ≡ false
short_length l i = ground (arith, i.short_name)

scan_symbol-row_text :
    (l : Listed) → IsListed l → scan_symbol (row_text l ++ (10 ∷ [])) ≡ new_symbol l.entry
unfolding scan_symbol scan_address named
scan_symbol-row_text l i =
    rw
      (
        row_text-split l,
        skip_while-word l.entry.symbol_name (32 ∷ behind_name l) i.one_word i.some_name,
        scan_word-word l.entry.symbol_name (behind_name l) i.one_word,
      )
      (simp
        (
          named_length l i,
          short_length l i,
          skip_while-gap (suc (suc (31 - length l.entry.symbol_name))) l.type_char
              (b':' ∷ (hex4 l.entry.address ++ (10 ∷ []))) i.letter,
          scan_hex-hex4 l.entry.address [] i.address_fits,
        )
        refl)

-- The lines of the file.

not_newline : (c : ℕ) → is_space c ≡ false → (c == 10) ≡ false
unfolding is_space
not_newline c h = ground arith

NoSpace-NoNewline : (s : Text) → NoSpace s → NoNewline s
NoSpace-NoNewline [] h = tt
NoSpace-NoNewline (c ∷ s) h = (not_newline c h.0, NoSpace-NoNewline s h.1)

gap_plain : (n : ℕ) (rest : Text) → NoNewline rest → NoNewline (replicate n 32 ++ rest)
gap_plain zero rest h = h
gap_plain (suc n) rest h = (refl, gap_plain n rest h)

length-gap : (n : ℕ) (rest : Text) → length (replicate n 32 ++ rest) ≡ n + length rest
length-gap zero rest = omega arith
length-gap (suc n) rest = omega (arith, length-gap n rest)

length-hex4 : (n : ℕ) → n < 65536 → length (hex4 n) ≡ 4
length-hex4 n h = rw (hex4-digits n h) refl

row_text-fits : (l : Listed) → IsListed l → NoNewline (row_text l) × (length (row_text l) < 255)
row_text-fits l i =
    let name = l.entry.symbol_name in
    let gap = suc (suc (31 - length name)) in
    let behind = l.type_char ∷ b':' ∷ hex4 l.entry.address in
    (
      NoNewline-append name (replicate gap 32 ++ behind) (NoSpace-NoNewline name i.one_word) (
          gap_plain gap behind (
            not_newline l.type_char i.letter,
            (refl, hex4-NoNewline l.entry.address i.address_fits),
          )),
      omega (
        arith,
        length-append name (replicate gap 32 ++ behind),
        length-gap gap behind,
        length-hex4 l.entry.address i.address_fits,
        i.short_name,
      ),
    )

rows-AllFit : (ls : List Listed) → AllListed ls → AllFit 255 (rows ls)
rows-AllFit [] h = tt
rows-AllFit (l ∷ ls) h =
    let (plain, short) = row_text-fits l h.0 in (plain, short, rows-AllFit ls h.1)

read_symbols-rows :
    (ls : List Listed) (lines : List Text) (head : List SymbolEntry)
    → AllListed ls
    → read_symbols (with_newlines (rows ls) ++ lines) head
      ≡ read_symbols lines (reverse_aux (entries ls) head)
unfolding read_symbols
read_symbols-rows [] lines head h = refl
read_symbols-rows (l ∷ ls) lines head h =
    rw (scan_symbol-row_text l h.0, read_symbols) (read_symbols-rows ls lines (l.entry ∷ head) h.1)

abbrev pub heading : Text
heading = codes "Symbols by name:"

-- No line is the heading.
abbrev pub NoHeading : List Text → Type 0
NoHeading [] = Unit {0}
NoHeading (line ∷ lines) = (contains heading (line ++ (10 ∷ [])) ≡ false) × NoHeading lines

-- No line looks like a symbol.
abbrev pub NoSymbols : List Text → Type 0
NoSymbols [] = Unit {0}
NoSymbols (line ∷ lines) = (scan_symbol (line ++ (10 ∷ [])) ≡ no_entry) × NoSymbols lines

heading_plain : NoNewline heading
unfolding is_line
heading_plain = is_line_sound heading refl

skip_header-heading :
    (before lines : List Text)
    → NoHeading before
    → skip_header (with_newlines before ++ ((heading ++ (10 ∷ [])) ∷ lines)) ≡ lines
unfolding skip_header contains
skip_header-heading [] lines h = refl
skip_header-heading (line ∷ before) lines h = rw h.0 (skip_header-heading before lines h.1)

read_symbols-none :
    (lines : List Text) (head : List SymbolEntry)
    → NoSymbols lines
    → read_symbols (with_newlines lines) head ≡ some head
unfolding read_symbols
read_symbols-none [] head h = refl
read_symbols-none (line ∷ lines) head h = rw (h.0, read_symbols) (read_symbols-none lines head h.1)

-- Reading a list file that prints symbols gives back these symbols and no others, the last one
-- first: where each has a name of one word under 100 characters, an address of 16 bits and a letter
-- for its type, the lines before them do not show the heading, those behind them do not look like a
-- symbol, and every line fits the buffer of 255 characters.
pub create_symbol_dictionary-text_of :
    (before : List Text) (ls : List Listed) (after : List Text)
    → AllFit 255 before
    → NoHeading before
    → AllListed ls
    → AllFit 255 after
    → NoSymbols after
    → create_symbol_dictionary (some (text_of (before ++ (heading ∷ (rows ls ++ after)))))
      ≡ some (reverse (entries ls))
unfolding create_symbol_dictionary
create_symbol_dictionary-text_of before ls after fits no_heading listed after_fits no_symbols =
    rw
      (
        fgets_lines-text_of 255 (before ++ (heading ∷ (rows ls ++ after))) (
            AllFit-append 255 before (heading ∷ (rows ls ++ after)) fits (
              heading_plain,
              omega arith,
              AllFit-append 255 (rows ls) after (rows-AllFit ls listed) after_fits,
            )),
        with_newlines-append before (heading ∷ (rows ls ++ after)),
        skip_header-heading before (with_newlines (rows ls ++ after)) no_heading,
        with_newlines-append (rows ls) after,
        read_symbols-rows ls (with_newlines after) [] listed,
      )
      (read_symbols-none after (reverse (entries ls)) no_symbols)
