-- ===== src/HexFile/RoundTrip.antt =====
-- Loading a printed file gives back its bytes.
use mathlib.Core.Path.{ap₂}
use mathlib.Core.List.{append_assoc}
use ben_eater.Common.{
  ℕ, suc, ◌+◌, ◌/◌, ◌%◌, ◌<◌, ◌≤◌, ◌≡◌, refl, ap, ◌∙◌, true, false, none, some, List, [], ◌∷◌, ◌++◌,
  Text, is_space, skip_while, upper_digit, length, length-append, arith, Bool-cases, inl, inr,
  ne→==_false, ==_refl,
}
use ben_eater.Common.Array.{window}
use ben_eater.Bus.{Ram}
use ben_eater.HexFile.{
  Load, byte_of, skip_prefix, has_room, store_byte, parse_data, load_line, load_lines,
  load_hex_file,
}
use ben_eater.HexFile.Dump.{
  Row, dump_bytes, row_text, dump, all_bytes, AllBytes, IsRow, AllRows, digit_facts, byte_of-halves,
  lines_of, fgets_lines-dump, has_prefix-digits, drop-digits, skip_while-digits,
}

module _ (start_address max_bytes : ℕ) where
  -- The bytes stored one after the other.
  abbrev store_all : List ℕ → Load → Load
  store_all [] l = l
  store_all (b ∷ bs) l = store_all bs (store_byte start_address max_bytes b l)

  -- Memory and the limit have room for `n` bytes more.
  abbrev RoomFor : ℕ → Load → Type 0
  RoomFor n l = (start_address + l.bytes_loaded + n ≤ 65536) × (l.bytes_loaded + n ≤ max_bytes)

  room_test : (n : ℕ) (l : Load) → RoomFor (suc n) l → has_room start_address max_bytes l ≡ true
  room_test n l r = ground arith

  room_after :
      (b n : ℕ) (l : Load) → RoomFor (suc n) l → RoomFor n (store_byte start_address max_bytes b l)
  unfolding store_byte
  room_after b n l r = omega arith

  first_digit :
      (d : ℕ) (s : Text) (l : Load)
      → d < 16
      → parse_data start_address max_bytes none (upper_digit d ∷ s) l
        ≡ parse_data start_address max_bytes (some d) s l
  unfolding parse_data
  first_digit d s l h = let (space, value, _) = digit_facts d h in rw (space, parse_data) (rw value)

  second_digit :
      (v d : ℕ) (s : Text) (l : Load)
      → d < 16
      → has_room start_address max_bytes l ≡ true
      → parse_data start_address max_bytes (some v) (upper_digit d ∷ s) l
        ≡ parse_data start_address max_bytes none s
            (store_byte start_address max_bytes (byte_of v d) l)
  unfolding parse_data
  second_digit v d s l h room =
      let (space, value, _) = digit_facts d h in rw (space, parse_data) (rw value (rw room))

  blank :
      (s : Text) (l : Load)
      → parse_data start_address max_bytes none (32 ∷ s) l
        ≡ parse_data start_address max_bytes none s l
  unfolding parse_data
  blank s l = refl

  parse_data-dump_bytes :
      (bs : List ℕ) (l : Load)
      → AllBytes bs
      → RoomFor (length bs) l
      → parse_data start_address max_bytes none (dump_bytes bs ++ (10 ∷ [])) l
        ≡ (store_all bs l, false)
  parse_data-dump_bytes [] l h r = unfold parse_data in refl
  parse_data-dump_bytes (b ∷ bs) l h r =
      blank (upper_digit (b / 16) ∷ upper_digit (b % 16) ∷ (dump_bytes bs ++ (10 ∷ []))) l
      ∙ first_digit (b / 16) (upper_digit (b % 16) ∷ (dump_bytes bs ++ (10 ∷ []))) l (omega arith)
      ∙ second_digit (b / 16) (b % 16) (dump_bytes bs ++ (10 ∷ [])) l (omega arith)
          (room_test (length bs) l r)
      ∙ rw (byte_of-halves b h.0) (
          parse_data-dump_bytes bs (store_byte start_address max_bytes b l) h.1
            (room_after b (length bs) l r))

  parse_data-skip :
      (s : Text) (l : Load)
      → parse_data start_address max_bytes none (skip_while is_space s) l
        ≡ parse_data start_address max_bytes none s l
  unfolding parse_data skip_while
  parse_data-skip [] l = refl
  parse_data-skip (c ∷ s) l = elim (Bool-cases (is_space c)) [
    | inl e ↦ rw (e, parse_data) (parse_data-skip s l)
    | inr e ↦ rw e refl
  ]

  -- A row leaves its bytes, and loading goes on.
  load_line-row :
      (r : Row) (l : Load)
      → IsRow r
      → RoomFor (length r.bytes) l
      → load_line start_address max_bytes (row_text r ++ (10 ∷ [])) l ≡ (store_all r.bytes l, false)
  unfolding load_line skip_prefix
  load_line-row r l i room =
      let tail_text = dump_bytes r.bytes ++ (10 ∷ []) in
      rw
        (
          append_assoc r.address (b':' ∷ dump_bytes r.bytes) (10 ∷ []),
          skip_while-digits 6 r.address (b':' ∷ tail_text) i.seven i.digits,
          has_prefix-digits 7 r.address tail_text i.seven i.digits,
          drop-digits 7 r.address tail_text b':' i.seven,
          parse_data-skip tail_text l,
        )
        (parse_data-dump_bytes r.bytes l i.are_bytes room)

  store_all-append :
      (xs ys : List ℕ) (l : Load) → store_all (xs ++ ys) l ≡ store_all ys (store_all xs l)
  store_all-append [] ys l = refl
  store_all-append (x ∷ xs) ys l = store_all-append xs ys (store_byte start_address max_bytes x l)

  -- How the count, the warnings and the memory stand after the bytes.
  count-store_all :
      (bs : List ℕ) (l : Load)
      → ((store_all bs l).bytes_loaded ≡ l.bytes_loaded + length bs)
        × ((store_all bs l).warnings ≡ l.warnings)
  unfolding store_byte
  count-store_all [] l = (omega arith, refl)
  count-store_all (b ∷ bs) l =
      let (n, w) = count-store_all bs (store_byte start_address max_bytes b l) in
      (omega (arith, n), w)

  ram-store_all :
      (bs : List ℕ) (l : Load) (b : ℕ)
      → b < start_address + l.bytes_loaded
      → (store_all bs l).ram b ≡ l.ram b
  unfolding store_byte
  ram-store_all [] l b h = refl
  ram-store_all (x ∷ bs) l b h =
      ram-store_all bs (store_byte start_address max_bytes x l) b (omega arith)
      ∙ rw (ne→==_false b (start_address + l.bytes_loaded) (omega arith))

  window-store_all :
      (bs : List ℕ) (l : Load) (i : ℕ)
      → i ≡ start_address + l.bytes_loaded
      → window (store_all bs l).ram i (length bs) ≡ bs
  unfolding store_byte
  window-store_all [] l i e = refl
  window-store_all (x ∷ bs) l i e =
      ap₂ ◌∷◌
        (ram-store_all bs (store_byte start_address max_bytes x l) i (omega arith)
          ∙ rw e (rw (==_refl (start_address + l.bytes_loaded))))
        (window-store_all bs (store_byte start_address max_bytes x l) (suc i) (omega arith))

  load_lines-rows :
      (rows : List Row) (l : Load)
      → AllRows rows
      → RoomFor (length (all_bytes rows)) l
      → load_lines start_address max_bytes (lines_of rows) l ≡ store_all (all_bytes rows) l
  unfolding load_lines
  load_lines-rows [] l h room = refl
  load_lines-rows (r ∷ rows) l h room =
      let total = length-append r.bytes (all_bytes rows) in
      rw (load_line-row r l h.0 (omega (arith, total)), store_all-append r.bytes (all_bytes rows) l)
        (load_lines-rows rows (store_all r.bytes l) h.1
          (omega (arith, total, (count-store_all r.bytes l).0)))

-- A printed file whose bytes fit the limit and the memory loads with no warning: the count is that
-- of its bytes, and they stand in memory from the start address on, in their order.
pub load_hex_file-dump :
    (start_address max_bytes : ℕ) (rows : List Row) (ram : Ram)
    → AllRows rows
    → start_address + length (all_bytes rows) ≤ 65536
    → length (all_bytes rows) ≤ max_bytes
    → (l : Load) × (load_hex_file start_address max_bytes (some (dump rows)) ram ≡ some l)
      × (l.bytes_loaded ≡ length (all_bytes rows))
      × (l.warnings ≡ [])
      × (window l.ram start_address (length (all_bytes rows)) ≡ all_bytes rows)
unfolding load_hex_file
load_hex_file-dump start_address max_bytes rows ram h fits limit =
    let empty : Load = record { ram = ram; bytes_loaded = 0; warnings = [] } in
    let bytes = all_bytes rows in
    let (count, quiet) = count-store_all start_address max_bytes bytes empty in
    (
      store_all start_address max_bytes bytes empty,
      ap some (
          rw (fgets_lines-dump rows h)
            (load_lines-rows start_address max_bytes rows empty h (omega arith, omega arith))),
      omega (arith, count),
      quiet,
      window-store_all start_address max_bytes bytes empty start_address (omega arith),
    )
