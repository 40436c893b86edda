-- ===== src/HexFile.antt =====
-- tools/benEater_simulator/simulator.c: `load_hex_file`. The file is its text, or `none` where fopen
-- fails; what goes to stderr is a list of warnings.
pub mod Bounds
pub mod Dump
pub mod RoundTrip
mod Samples
use Prim.Native.Nat.{bit_or}
use ben_eater.Common.{
  ℕ, suc, zero, ◌+◌, ◌-◌, ◌*◌, ◌%◌, Bool, true, false, ◌&&◌, Option, none, some, List, [], ◌∷◌,
  ◌++◌, Text, is_space, skip_while, fgets_lines, drop, ltb, leb, ◌==◌, if◌then◌else◌,
}
use ben_eater.Common.Array.{update}
use ben_eater.Bus.{Ram}

-- `none` for -1. isxdigit is true exactly where this is not `none`.
unfoldable pub hex_char_to_int : ℕ → Option ℕ
hex_char_to_int c =
    if leb b'0' c && leb c b'9'
    then some (c - b'0')
    else if leb b'a' c && leb c b'f'
    then some (c - b'a' + 10)
    else if leb b'A' c && leb c b'F'
    then some (c - b'A' + 10)
    else none

unfoldable pub is_xdigit : ℕ → Bool
unfolding hex_char_to_int
is_xdigit c = elim (hex_char_to_int c) [ some d ↦ true | none ↦ false ]

-- With the character and the byte at which each arises; 0 is the end of the line.
pub data Warning : Type 0 where
  non_hex : ℕ → ℕ → Warning
  expected_second : ℕ → ℕ → Warning
  reached_end : Warning

pub record Load : Type 0 where
  pub ram : Ram
  pub bytes_loaded : ℕ
  pub warnings : List Warning

unfoldable pub warn : Warning → Load → Load
warn w l = record l { warnings = l.warnings ++ (w ∷ []) }

-- (uint8_t)((val1 << 4) | val2)
unfoldable pub byte_of : ℕ → ℕ → ℕ
byte_of val1 val2 = bit_or (val1 * 16) val2 % 256

-- The seven digits and the colon of an address.
unfoldable pub has_prefix : ℕ → Text → Bool
unfolding is_xdigit
has_prefix n [] = false
has_prefix zero (c ∷ s) = c == b':'
has_prefix (suc n) (c ∷ s) = is_xdigit c && has_prefix n s

-- Where the data of a line begin.
unfoldable pub skip_prefix : Text → Text
unfolding has_prefix skip_while is_space
skip_prefix ptr = if has_prefix 7 ptr then skip_while is_space (drop 8 ptr) else ptr

module _ (start_address max_bytes : ℕ) where
  abbrev pub has_room : Load → Bool
  has_room l = ltb (start_address + l.bytes_loaded) 65536 && ltb l.bytes_loaded max_bytes

  unfoldable pub store_byte : ℕ → Load → Load
  store_byte byte l = record l {
    ram = update l.ram (start_address + l.bytes_loaded) byte;
    bytes_loaded = l.bytes_loaded + 1;
  }

  -- The loop over the bytes of a line, with `val1` where a first digit has been read. The second part
  -- of the result tells whether all loading stops.
  unfoldable pub parse_data : Option ℕ → Text → Load → Load × Bool
  unfolding warn store_byte byte_of hex_char_to_int is_space
  parse_data none [] l = (l, false)
  parse_data (some val1) [] l = (warn (expected_second l.bytes_loaded 0) l, false)
  parse_data none (c ∷ s) l = elim (is_space c) [
    | true ↦ parse_data none s l
    | false ↦ elim (hex_char_to_int c) [
      | none ↦ (warn (non_hex c l.bytes_loaded) l, false)
      | some val1 ↦ parse_data (some val1) s l
    ]
  ]
  parse_data (some val1) (c ∷ s) l = elim (is_space c) [
    | true ↦ parse_data (some val1) s l
    | false ↦ elim (hex_char_to_int c) [
      | none ↦ (warn (expected_second l.bytes_loaded c) l, false)
      | some val2 ↦ elim (has_room l) [
        | true ↦ parse_data none s (store_byte (byte_of val1 val2) l)
        | false ↦ (warn reached_end l, true)
      ]
    ]
  ]

  unfoldable pub load_line : Text → Load → Load × Bool
  unfolding parse_data skip_prefix skip_while is_space
  load_line line_buffer l = parse_data none (skip_prefix (skip_while is_space line_buffer)) l

  unfoldable pub load_lines : List Text → Load → Load
  unfolding load_line
  load_lines [] l = l
  load_lines (line_buffer ∷ lines) l =
      let (l', stop) = load_line line_buffer l in
      let rest = load_lines lines l' in if stop then l' else rest

  -- `line_buffer` holds 1023 characters and the terminator. The count is `bytes_loaded`, and `none`
  -- stands for -1.
  unfoldable pub load_hex_file : Option Text → Ram → Option Load
  unfolding load_lines fgets_lines
  load_hex_file none ram = none
  load_hex_file (some file) ram = some (
      load_lines (fgets_lines 1023 1023 file)
        (record { ram = ram; bytes_loaded = 0; warnings = [] }))
