-- ===== src/HexFile/Dump.antt =====
-- The files that `load_hex_file` is made for: rows of an address in seven digits, a colon, and the
-- bytes in two digits each.
use ben_eater.Common.{
  ℕ, zero, suc, ◌*◌, ◌/◌, ◌%◌, ◌<◌, ◌≤◌, ◌≡◌, refl, ap, ◌∙◌, true, false, some, List, [], ◌∷◌, ◌++◌,
  Text, is_space, skip_while, upper_digit, drop, length, length-append, ◌==◌, arith, fgets_lines,
  passes_below, passes_below_sound, ==→eq,
}
use ben_eater.Common.Lines.{NoNewline, fgets_lines-line, NoNewline-append}
use ben_eater.HexFile.{byte_of, hex_char_to_int, is_xdigit, has_prefix}

pub record Row : Type 0 where
  pub address : Text
  pub bytes : List ℕ

abbrev pub dump_bytes : List ℕ → Text
dump_bytes [] = []
dump_bytes (b ∷ bs) = 32 ∷ upper_digit (b / 16) ∷ upper_digit (b % 16) ∷ dump_bytes bs

-- The characters of a row before its newline.
abbrev pub row_text : Row → Text
row_text r = r.address ++ (b':' ∷ dump_bytes r.bytes)

abbrev pub dump : List Row → Text
dump [] = []
dump (r ∷ rows) = row_text r ++ (10 ∷ dump rows)

abbrev pub all_bytes : List Row → List ℕ
all_bytes [] = []
all_bytes (r ∷ rows) = r.bytes ++ all_bytes rows

abbrev pub AllDigits : Text → Type 0
AllDigits [] = Unit {0}
AllDigits (c ∷ s) = (is_xdigit c ≡ true) × AllDigits s

abbrev pub AllBytes : List ℕ → Type 0
AllBytes [] = Unit {0}
AllBytes (b ∷ bs) = (b < 256) × AllBytes bs

-- Seven digits, bytes, and no more of them than a line of the buffer shows.
pub record IsRow (r : Row) : Type 0 where
  pub seven : length r.address ≡ 7
  pub digits : AllDigits r.address
  pub are_bytes : AllBytes r.bytes
  pub fits : length r.bytes ≤ 338

abbrev pub AllRows : List Row → Type 0
AllRows [] = Unit {0}
AllRows (r ∷ rows) = IsRow r × AllRows rows

pub digit_facts :
    (d : ℕ)
    → d < 16
    → (is_space (upper_digit d) ≡ false)
      × (hex_char_to_int (upper_digit d) ≡ some d)
      × ((upper_digit d == 10) ≡ false)
unfolding upper_digit hex_char_to_int is_space
digit_facts d h = ground arith

is_xdigit-plain : (c : ℕ) → is_xdigit c ≡ true → (is_space c ≡ false) × ((c == 10) ≡ false)
unfolding is_xdigit hex_char_to_int is_space
is_xdigit-plain c h = ground arith

pub byte_of-halves : (b : ℕ) → b < 256 → byte_of (b / 16) (b % 16) ≡ b
byte_of-halves b h = ==→eq _ _ (passes_below_sound _ b h table)
  where
    table : passes_below (λ b. byte_of (b / 16) (b % 16) == b) 256 ≡ true
    table = unfold passes_below byte_of in refl

-- The lines of the file.

AllDigits-NoNewline : (s : Text) → AllDigits s → NoNewline s
AllDigits-NoNewline [] h = tt
AllDigits-NoNewline (c ∷ s) h = ((is_xdigit-plain c h.0).1, AllDigits-NoNewline s h.1)

dump_bytes-NoNewline : (bs : List ℕ) → AllBytes bs → NoNewline (dump_bytes bs)
dump_bytes-NoNewline [] h = tt
dump_bytes-NoNewline (b ∷ bs) h = (
  refl,
  (
    (digit_facts (b / 16) (omega arith)).2,
    ((digit_facts (b % 16) (omega arith)).2, dump_bytes-NoNewline bs h.1),
  ),
)

length-dump_bytes : (bs : List ℕ) → length (dump_bytes bs) ≡ 3 * length bs
length-dump_bytes [] = refl
length-dump_bytes (b ∷ bs) = omega (arith, length-dump_bytes bs)

row-fits : (r : Row) → IsRow r → length (row_text r) < 1023
row-fits r i = omega (
  arith,
  length-append r.address (b':' ∷ dump_bytes r.bytes),
  length-dump_bytes r.bytes,
  i.seven,
  i.fits,
)

abbrev pub lines_of : List Row → List Text
lines_of [] = []
lines_of (r ∷ rows) = (row_text r ++ (10 ∷ [])) ∷ lines_of rows

pub fgets_lines-dump :
    (rows : List Row) → AllRows rows → fgets_lines 1023 1023 (dump rows) ≡ lines_of rows
fgets_lines-dump [] h = unfold fgets_lines in refl
fgets_lines-dump (r ∷ rows) h =
    fgets_lines-line 1023 1023 (row_text r) (dump rows)
      (NoNewline-append r.address (b':' ∷ dump_bytes r.bytes)
        (AllDigits-NoNewline r.address h.0.digits)
        (refl, dump_bytes-NoNewline r.bytes h.0.are_bytes))
      (row-fits r h.0)
    ∙ ap (◌∷◌ (row_text r ++ (10 ∷ []))) (fgets_lines-dump rows h.1)

-- The address of a row.

pub has_prefix-digits :
    (n : ℕ) (ds r : Text) → length ds ≡ n → AllDigits ds → has_prefix n (ds ++ (b':' ∷ r)) ≡ true
unfolding has_prefix
has_prefix-digits zero [] r e h = refl
has_prefix-digits zero (c ∷ ds) r e h = absurd (omega arith)
has_prefix-digits (suc n) [] r e h = absurd (omega arith)
has_prefix-digits (suc n) (c ∷ ds) r e h = rw h.0 (has_prefix-digits n ds r (omega arith) h.1)

pub drop-digits : (n : ℕ) (ds r : Text) (c : ℕ) → length ds ≡ n → drop (suc n) (ds ++ (c ∷ r)) ≡ r
drop-digits zero [] r c e = refl
drop-digits zero (d ∷ ds) r c e = absurd (omega arith)
drop-digits (suc n) [] r c e = absurd (omega arith)
drop-digits (suc n) (d ∷ ds) r c e = drop-digits n ds r c (omega arith)

pub skip_while-digits :
    (n : ℕ) (ds r : Text)
    → length ds ≡ suc n
    → AllDigits ds
    → skip_while is_space (ds ++ r) ≡ ds ++ r
unfolding skip_while
skip_while-digits n [] r e h = absurd (omega arith)
skip_while-digits n (c ∷ ds) r e h = rw (is_xdigit-plain c h.0).0
