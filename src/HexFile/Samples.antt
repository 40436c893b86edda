-- ===== src/HexFile/Samples.antt =====
-- Loads of small files, and the theorems on them at concrete inputs.
use ben_eater.Common.{ℕ, ◌≡◌, refl, some, none, [], ◌∷◌, Text, codes, arith, length}
use ben_eater.Common.Array.{window}
use ben_eater.Bus.{Ram}
use ben_eater.HexFile.{Load, load_hex_file, is_xdigit}
use ben_eater.HexFile.Bounds.{Loaded, load_hex_file-Loaded}
use ben_eater.HexFile.Dump.{Row, dump, all_bytes, IsRow}
use ben_eater.HexFile.RoundTrip.{load_hex_file-dump}

abbrev blank_ram : Ram
blank_ram b = 0

abbrev count_of : Text → ℕ
count_of file = elim (load_hex_file 0x8000 32768 (some file) blank_ram) [
  | none ↦ 0
  | some l ↦ l.bytes_loaded
]

-- The bytes may stand in groups, and a character that is no digit ends the line.
two_lines : count_of (codes "0000000: a9ff 8d02\n60\n") ≡ 5
unfolding load_hex_file
two_lines = refl

bad_character : count_of (codes "0000000: a9 zz 8d\n60\n") ≡ 2
unfolding load_hex_file
bad_character = refl

load_hex_file-Loaded_example :
    (l : Load) × (load_hex_file 0x8000 32768 (some (codes "a9 zz")) blank_ram ≡ some l)
    × Loaded 0x8000 32768 blank_ram l
load_hex_file-Loaded_example =
    load_hex_file-Loaded 0x8000 32768 (codes "a9 zz") blank_ram (omega arith)

abbrev row : Row
row = record { address = codes "0000010"; bytes = 0xA9 ∷ 0xFF ∷ 0x60 ∷ [] }

row-IsRow : IsRow row
unfolding is_xdigit
row-IsRow = record {
  seven = refl;
  digits = (refl, (refl, (refl, (refl, (refl, (refl, (refl, tt)))))));
  are_bytes = omega arith;
  fits = omega arith;
}

load_hex_file-dump_example :
    (l : Load) × (load_hex_file 0x8000 32768 (some (dump (row ∷ []))) blank_ram ≡ some l)
    × (l.bytes_loaded ≡ length (all_bytes (row ∷ [])))
    × (l.warnings ≡ [])
    × (window l.ram 0x8000 (length (all_bytes (row ∷ []))) ≡ all_bytes (row ∷ []))
load_hex_file-dump_example =
    load_hex_file-dump 0x8000 32768 (row ∷ []) blank_ram (row-IsRow, tt) (omega arith) (omega arith)
