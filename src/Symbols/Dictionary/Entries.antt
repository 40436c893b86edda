-- ===== src/Symbols/Dictionary/Entries.antt =====
-- What the entries look like that are read from a list file.
use ben_eater.Common.{
  ℕ, ◌^◌, ◌<◌, ◌≡◌, ◌⊎◌, refl, false, Option, none, some, List, [], ◌∷◌, Text, length, is_space,
  skip_while, fgets_lines, leb, ◌==◌, arith, inl, inr, Bool-cases, Option-cases,
}
use ben_eater.Common.Scan.{scan_hex-bound}
use ben_eater.Symbols.{SymbolEntry}
use ben_eater.Symbols.Dictionary.{
  ScannedLine, new_symbol, no_entry, overrun, scan_word, scan_address, named, scan_symbol,
  skip_header, read_symbols, create_symbol_dictionary,
}

-- What an entry that is read from a file looks like: a name that fits the buffer, without white
-- space, and an address of 32 bits.
abbrev pub NoSpace : Text → Type 0
NoSpace [] = Unit
NoSpace (c ∷ s) = (is_space c ≡ false) × NoSpace s

pub record IsEntry (e : SymbolEntry) : Type 0 where
  pub some_name : 0 < length e.symbol_name
  pub short_name : length e.symbol_name < 100
  pub one_word : NoSpace e.symbol_name
  pub address_fits : e.address < 2 ^ 32

abbrev pub AllEntries : List SymbolEntry → Type 0
AllEntries [] = Unit
AllEntries (e ∷ es) = IsEntry e × AllEntries es

scan_word-NoSpace : (s : Text) → NoSpace (scan_word s).0
unfolding scan_word
scan_word-NoSpace [] = tt
scan_word-NoSpace (c ∷ s) = elim (Bool-cases (is_space c)) [
  | inl h ↦ rw h tt
  | inr h ↦ rw h (h, scan_word-NoSpace s)
]

abbrev IsLine : ScannedLine → Type 0
IsLine (new_symbol e) = IsEntry e
IsLine no_entry = Unit
IsLine overrun = Unit

scan_address-fits :
    (s rest : Text) (address : ℕ) → scan_address s ≡ some (address, rest) → address < 2 ^ 32
unfolding scan_address
scan_address-fits [] rest address e = absurd cc
scan_address-fits (c ∷ []) rest address e = absurd cc
scan_address-fits (type_char ∷ colon ∷ s) rest address e = elim (Bool-cases (colon == b':')) [
  | inl h ↦ scan_hex-bound s rest address (rw h at e)
  | inr h ↦ absurd (cc (rw h at e))
]

named-IsLine :
    (name s : Text)
    → 0 < length name
    → length name < 100
    → NoSpace name
    → IsLine (named name (scan_address s))
unfolding named
named-IsLine name s h l n = elim (Option-cases (scan_address s)) [
  | inl e ↦ rw e tt
  | inr ((address, rest), e) ↦ rw e (record {
    some_name = h;
    short_name = l;
    one_word = n;
    address_fits = scan_address-fits s rest address e;
  })
]

scan_symbol-IsLine : (line : Text) → IsLine (scan_symbol line)
unfolding scan_symbol
scan_symbol-IsLine line =
    let found = scan_word (skip_while is_space line) in
    elim (Bool-cases (length found.0 == 0)) [
      | inl h ↦ rw h tt
      | inr h ↦ elim (Bool-cases (leb 100 (length found.0))) [
        | inl l ↦ rw (h, l) tt
        | inr l ↦
            rw (h, l)
              (named-IsLine found.0 (skip_while is_space found.1) (ground arith) (ground arith)
                (scan_word-NoSpace (skip_while is_space line)))
      ]
    ]

scan_symbol-IsEntry : (line : Text) (e : SymbolEntry) → scan_symbol line ≡ new_symbol e → IsEntry e
scan_symbol-IsEntry line e p =
    let is_line : IsLine (scan_symbol line) = scan_symbol-IsLine line in rw p at is_line

Line-cases :
    (l : ScannedLine) → ((e : SymbolEntry) × (l ≡ new_symbol e)) ⊎ ((l ≡ no_entry) ⊎ (l ≡ overrun))
Line-cases (new_symbol e) = inl (e, refl)
Line-cases no_entry = inr (inl refl)
Line-cases overrun = inr (inr refl)

read_symbols-AllEntries :
    (lines : List Text) (head symbol_list : List SymbolEntry)
    → AllEntries head
    → read_symbols lines head ≡ some symbol_list
    → AllEntries symbol_list
unfolding read_symbols
read_symbols-AllEntries [] head symbol_list h e =
    let same : head ≡ symbol_list = cc in rw (← same) h
read_symbols-AllEntries (line ∷ lines) head symbol_list h e = elim (Line-cases (scan_symbol line)) [
  | inl (new_entry, p) ↦
      read_symbols-AllEntries lines (new_entry ∷ head) symbol_list
        (scan_symbol-IsEntry line new_entry p, h) (rw (p, read_symbols) at e)
  | inr (inl p) ↦ read_symbols-AllEntries lines head symbol_list h (rw (p, read_symbols) at e)
  | inr (inr p) ↦ absurd (cc (rw (p, read_symbols) at e))
]

-- Whatever the list file holds, each symbol that is read from it has a name of one word that fits
-- its buffer, and an address of 32 bits.
pub create_symbol_dictionary-AllEntries :
    (file : Option Text) (symbol_list : List SymbolEntry)
    → create_symbol_dictionary file ≡ some symbol_list
    → AllEntries symbol_list
unfolding create_symbol_dictionary
create_symbol_dictionary-AllEntries none symbol_list e =
    let same : [] ≡ symbol_list = cc in rw (← same) tt
create_symbol_dictionary-AllEntries (some file) symbol_list e =
    read_symbols-AllEntries (skip_header (fgets_lines 255 255 file)) [] symbol_list tt e
