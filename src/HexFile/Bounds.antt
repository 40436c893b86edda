-- ===== src/HexFile/Bounds.antt =====
-- Where `load_hex_file` writes.
use ben_eater.Common.{
  ℕ, ◌+◌, ◌<◌, ◌≤◌, ◌≡◌, refl, true, Option, none, some, List, [], ◌∷◌, Text, is_space, arith, inl,
  inr, Bool-cases, Option-cases, fgets_lines, skip_while,
}
use ben_eater.Bus.{Ram}
use ben_eater.HexFile.{
  Warning, Load, warn, byte_of, hex_char_to_int, has_room, store_byte, parse_data, load_line,
  load_lines, load_hex_file, skip_prefix, expected_second, non_hex, reached_end,
}

-- The bytes stand one behind the other from the start on, and nothing else has changed.
pub record Loaded (start_address max_bytes : ℕ) (ram : Ram) (l : Load) : Type 0 where
  pub in_memory : start_address + l.bytes_loaded ≤ 65536
  pub in_limit : l.bytes_loaded ≤ max_bytes
  pub below : (b : ℕ) → b < start_address → l.ram b ≡ ram b
  pub behind : (b : ℕ) → start_address + l.bytes_loaded ≤ b → l.ram b ≡ ram b
  pub bytes : (b : ℕ) → start_address ≤ b → b < start_address + l.bytes_loaded → l.ram b < 256

module _ (start_address max_bytes : ℕ) (ram : Ram) where
  abbrev Keeps : Load → Type 0
  Keeps l = Loaded start_address max_bytes ram l

  warn-Keeps : (w : Warning) (l : Load) → Keeps l → Keeps (warn w l)
  unfolding warn
  warn-Keeps w l k = record {
    in_memory = k.in_memory;
    in_limit = k.in_limit;
    below = k.below;
    behind = k.behind;
    bytes = k.bytes;
  }

  store_byte-Keeps :
      (val1 val2 : ℕ) (l : Load)
      → has_room start_address max_bytes l ≡ true
      → Keeps l
      → Keeps (store_byte start_address max_bytes (byte_of val1 val2) l)
  unfolding store_byte byte_of
  store_byte-Keeps val1 val2 l room k = record {
    in_memory = ground arith;
    in_limit = ground arith;
    below = λ b h. ground (arith, k.below b h);
    behind = λ b h. ground (arith, k.behind b);
    bytes = λ b h j. ground (arith, k.bytes b h);
  }

  parse_data-Keeps :
      (val1 : Option ℕ) (s : Text) (l : Load)
      → Keeps l
      → Keeps (parse_data start_address max_bytes val1 s l).0
  unfolding parse_data
  parse_data-Keeps none [] l k = k
  parse_data-Keeps (some val1) [] l k = warn-Keeps _ l k
  parse_data-Keeps none (c ∷ s) l k = elim (Bool-cases (is_space c)) [
    | inl e ↦ rw (e, parse_data) (parse_data-Keeps none s l k)
    | inr e ↦ elim (Option-cases (hex_char_to_int c)) [
      | inl h ↦ rw (e, parse_data) (rw h (warn-Keeps (non_hex c l.bytes_loaded) l k))
      | inr (v, h) ↦ rw (e, parse_data) (rw h (parse_data-Keeps (some v) s l k))
    ]
  ]
  parse_data-Keeps (some val1) (c ∷ s) l k = elim (Bool-cases (is_space c)) [
    | inl e ↦ rw (e, parse_data) (parse_data-Keeps (some val1) s l k)
    | inr e ↦ elim (Option-cases (hex_char_to_int c)) [
      | inl h ↦ rw (e, parse_data) (rw h (warn-Keeps (expected_second l.bytes_loaded c) l k))
      | inr (v, h) ↦ elim (Bool-cases (has_room start_address max_bytes l)) [
        | inl r ↦
            rw (e, parse_data)
              (rw h (
                rw r (
                  parse_data-Keeps none s (store_byte start_address max_bytes (byte_of val1 v) l)
                    (store_byte-Keeps val1 v l r k))))
        | inr r ↦ rw (e, parse_data) (rw h (rw r (warn-Keeps reached_end l k)))
      ]
    ]
  ]

  load_lines-Keeps :
      (lines : List Text) (l : Load) → Keeps l → Keeps (load_lines start_address max_bytes lines l)
  unfolding load_lines load_line
  load_lines-Keeps [] l k = k
  load_lines-Keeps (line ∷ lines) l k =
      let ptr = skip_prefix (skip_while is_space line) in
      let after = parse_data-Keeps none ptr l k in
      elim (Bool-cases (parse_data start_address max_bytes none ptr l).1) [
        | inl stop ↦ rw stop after
        | inr go ↦
            rw go (load_lines-Keeps lines (parse_data start_address max_bytes none ptr l).0 after)
      ]

-- Whatever the file holds, `load_hex_file` writes bytes from the start address on, one behind the
-- other, no more than the limit and none behind the end of memory, and it changes no other address.
pub load_hex_file-Loaded :
    (start_address max_bytes : ℕ) (file : Text) (ram : Ram)
    → start_address ≤ 65536
    → (l : Load) × (load_hex_file start_address max_bytes (some file) ram ≡ some l)
      × Loaded start_address max_bytes ram l
unfolding load_hex_file
load_hex_file-Loaded start_address max_bytes file ram h = (
  _,
  refl,
  load_lines-Keeps start_address max_bytes ram (fgets_lines 1023 1023 file)
      (record { ram = ram; bytes_loaded = 0; warnings = [] })
      (record {
        in_memory = omega arith;
        in_limit = omega arith;
        below = λ b k. refl;
        behind = λ b k. refl;
        bytes = λ b k j. absurd (omega arith);
      }),
)
