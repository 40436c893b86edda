-- ===== src/Symbols/Dictionary/Listing.antt =====
-- The symbols that a list file prints, and that reading them gives them back.
use ben_eater.Common.{
  ℕ, suc, ◌-◌, ◌/◌, ◌%◌, ◌+◌, ◌*◌, ◌<◌, ◌≡◌, refl, ap, ◌∙◌, Bool, true, false, some, inl, inr,
  Bool-cases, List, [], ◌∷◌, ◌++◌, Text, replicate, length, is_space, hex4, upper_digit, ◌==◌,
  arith,
}
use ben_eater.Common.Hex.{hex4-digits}
use ben_eater.Common.Lines.{NoNewline}
use ben_eater.Common.Scan.{scan_hex, scan_digits, hex_value, skip_0x, to_unsigned}
use ben_eater.Symbols.{SymbolEntry}
use ben_eater.Symbols.Dictionary.Entries.{NoSpace}

-- A symbol with the letter that the assembler gives its type.
pub record Listed : Type 0 where
  pub type_char : ℕ
  pub entry : SymbolEntry

-- A name of one word that fits the buffer, an address of 16 bits, and a letter that is no space.
pub record IsListed (l : Listed) : Type 0 where
  pub some_name : 0 < length l.entry.symbol_name
  pub short_name : length l.entry.symbol_name < 100
  pub one_word : NoSpace l.entry.symbol_name
  pub address_fits : l.entry.address < 65536
  pub letter : is_space l.type_char ≡ false

-- "%-31s  %c:%04X", the row of a symbol in the listing of the assembler.
abbrev pub row_text : Listed → Text
row_text l =
    l.entry.symbol_name
    ++ (replicate (suc (suc (31 - length l.entry.symbol_name))) 32
        ++ (l.type_char ∷ b':' ∷ hex4 l.entry.address))

abbrev pub rows : List Listed → List Text
rows [] = []
rows (l ∷ ls) = row_text l ∷ rows ls

abbrev pub AllListed : List Listed → Type 0
AllListed [] = Unit {0}
AllListed (l ∷ ls) = IsListed l × AllListed ls

abbrev pub entries : List Listed → List SymbolEntry
entries [] = []
entries (l ∷ ls) = l.entry ∷ entries ls

-- The digits.

-- What the scanning tests of a character, for a digit of the value `d`.
record Digit (c d : ℕ) : Type 0 where
  space : is_space c ≡ false
  value : hex_value c ≡ some d
  minus : (c == b'-') ≡ false
  plus : (c == b'+') ≡ false
  lower_x : (c == b'x') ≡ false
  upper_x : (c == b'X') ≡ false
  newline : (c == 10) ≡ false

upper_digit-Digit : (d : ℕ) → d < 16 → Digit (upper_digit d) d
unfolding upper_digit hex_value is_space
upper_digit-Digit d h = record {
  space = ground arith;
  value = ground arith;
  minus = ground arith;
  plus = ground arith;
  lower_x = ground arith;
  upper_x = ground arith;
  newline = ground arith;
}

scan_digits-digit :
    (seen : Bool) (n d : ℕ) (s : Text)
    → d < 16
    → scan_digits hex_value 16 seen n (upper_digit d ∷ s)
      ≡ scan_digits hex_value 16 true (n * 16 + d) s
unfolding scan_digits
scan_digits-digit seen n d s h = rw ((upper_digit-Digit d h).value, scan_digits)

skip_0x-digits :
    (d e : ℕ) (s : Text)
    → e < 16
    → skip_0x (upper_digit d ∷ upper_digit e ∷ s) ≡ upper_digit d ∷ upper_digit e ∷ s
unfolding skip_0x
skip_0x-digits d e s h =
    let second = upper_digit-Digit e h in
    elim (Bool-cases (upper_digit d == b'0')) [
      | inl z ↦ rw (z, second.lower_x, second.upper_x) refl
      | inr z ↦ rw z refl
    ]

scan_hex-digits :
    (d e f g : ℕ) (rest : Text)
    → d < 16
    → e < 16
    → f < 16
    → g < 16
    → scan_hex (upper_digit d ∷ upper_digit e ∷ upper_digit f ∷ upper_digit g ∷ 10 ∷ rest)
      ≡ some (((d * 16 + e) * 16 + f) * 16 + g, 10 ∷ rest)
unfolding scan_hex to_unsigned
scan_hex-digits d e f g rest hd he hf hg =
    let first = upper_digit-Digit d hd in
    rw (first.space, first.minus, first.plus)
      (rw
        (
          skip_0x-digits d e (upper_digit f ∷ upper_digit g ∷ 10 ∷ rest) he,
          scan_digits-digit false 0 d (upper_digit e ∷ upper_digit f ∷ upper_digit g ∷ 10 ∷ rest)
              hd,
          scan_digits-digit true (0 * 16 + d) e (upper_digit f ∷ upper_digit g ∷ 10 ∷ rest) he,
          scan_digits-digit true ((0 * 16 + d) * 16 + e) f (upper_digit g ∷ 10 ∷ rest) hf,
          scan_digits-digit true (((0 * 16 + d) * 16 + e) * 16 + f) g (10 ∷ rest) hg,
        )
        (ap (λ (n : ℕ). some (n, 10 ∷ rest)) (omega arith)))

-- %x reads back what %04X prints of a word.
pub scan_hex-hex4 :
    (n : ℕ) (rest : Text) → n < 65536 → scan_hex (hex4 n ++ (10 ∷ rest)) ≡ some (n, 10 ∷ rest)
scan_hex-hex4 n rest h = rw (hex4-digits n h) (
    scan_hex-digits (n / 16 / 16 / 16 % 16) (n / 16 / 16 % 16) (n / 16 % 16) (n % 16) rest
      (omega arith) (omega arith) (omega arith) (omega arith)
    ∙ ap (λ (m : ℕ). some (m, 10 ∷ rest)) (omega arith))

pub hex4-NoNewline : (n : ℕ) → n < 65536 → NoNewline (hex4 n)
hex4-NoNewline n h = rw (hex4-digits n h) (
  (upper_digit-Digit _ (omega arith)).newline,
  (
    (upper_digit-Digit _ (omega arith)).newline,
    (
      (upper_digit-Digit _ (omega arith)).newline,
      ((upper_digit-Digit _ (omega arith)).newline, tt),
    ),
  ),
)
