-- ===== src/Tracer.antt =====
-- tools/benEater_simulator/simulator.c: the tracer window, which shows the list file around the current
-- instruction. SDL and its fonts are libraries: the height of the window is an argument of the
-- functions that ask for it, and what is drawn is a list of rows.
pub mod View
pub mod Scroll
pub mod Drawing
pub mod Safety
pub mod Window
mod Samples
use ben_eater.Common.{
  ℕ, zero, suc, ◌+◌, ◌-◌, ◌*◌, ◌/◌, Bool, true, false, ◌&&◌, not, Option, none, some, List, [], ◌∷◌,
  ◌++◌, Text, codes, text_eq, hex4, length, take, drop, get_elem?, leb, ltb, ◌==◌, if◌then◌else◌,
  fgets_lines,
}
use ben_eater.Common.Int.{ℤ, pos, negsuc, sub_ℕ, ◌+ℤ◌, ◌-ℤ◌, ltb_ℤ}

-- `TracerWindow`, without the handles of SDL. `current_pc_line` is `none` for -1.
pub record Tracer : Type 0 where
  pub lines : List Text
  pub current_pc_line : Option ℕ
  pub display_start : ℤ
  pub visible_lines : ℤ
  pub is_active : Bool

abbrev pub total_lines : Tracer → ℕ
total_lines t = length t.lines

-- buffer[strcspn(buffer, "\r\n")] = 0
unfoldable pub cut_line : Text → Text
cut_line [] = []
cut_line (c ∷ s) = let rest = cut_line s in if c == 13 then [] else if c == 10 then [] else c ∷ rest

unfoldable pub cut_lines : List Text → List Text
unfolding cut_line
cut_lines [] = []
cut_lines (buffer ∷ rest) = cut_line buffer ∷ cut_lines rest

-- The buffer holds 511 characters. `none` is the failure of fopen.
unfoldable pub load_list_file : Option Text → Tracer → Option Tracer
unfolding cut_lines fgets_lines
load_list_file none t = none
load_list_file (some file) t = some (record t { lines = cut_lines (fgets_lines 511 511 file) })

-- The test of `find_pc_line`: the address behind "XX:".
unfoldable pub at_pc : Text → Text → Bool
unfolding text_eq
at_pc pc_hex line =
    leb 7 (length line)
    && (text_eq (take 1 (drop 2 line)) (codes ":") && text_eq (take 4 (drop 3 line)) pc_hex)

-- The loop of `find_pc_line` from line `i` on; the result counts from 1, and is `none` for -1.
unfoldable pub find_line : Text → List Text → ℕ → Option ℕ
unfolding at_pc
find_line pc_hex [] i = none
find_line pc_hex (line ∷ rest) i =
    let later = find_line pc_hex rest (suc i) in if at_pc pc_hex line then some (suc i) else later

unfoldable pub find_pc_line : Tracer → ℕ → Option ℕ
unfolding find_line
find_pc_line t pc_value = find_line (hex4 pc_value) t.lines 0

-- An int divided by two, towards zero.
abbrev pub half : ℤ → ℤ
half (pos n) = pos (n / 2)
half (negsuc n) = pos 0 -ℤ pos (suc n / 2)

-- if (n < 0) n = 0;
abbrev pub at_least_zero : ℤ → ℤ
at_least_zero n = if ltb_ℤ n (pos 0) then pos 0 else n

-- The first line to show around line `pc_line`, which counts from 1.
unfoldable pub centred : ℕ → ℤ → ℕ → ℤ
unfolding ◌+ℤ◌ ◌-ℤ◌
centred pc_line visible_lines total =
    let display_start = at_least_zero (pos pc_line -ℤ pos 1 -ℤ half visible_lines) in
    if ltb_ℤ (pos total) (display_start +ℤ visible_lines)
    then at_least_zero (pos total -ℤ visible_lines)
    else display_start

unfoldable pub update_tracer_display : ℕ → Tracer → Tracer
unfolding centred
update_tracer_display current_pc t =
    if not t.is_active then t else elim (find_pc_line t current_pc) [
      | none ↦ t
      | some pc_line ↦ record t {
        current_pc_line = some pc_line;
        display_start = centred pc_line t.visible_lines (total_lines t);
      }
    ]

-- A row of the window: whether it is highlighted, and its text. (The three colours are one.)
pub record DrawnRow : Type 0 where
  pub highlight : Bool
  pub display_text : Text

-- tracer.lines[line_index]; `none` for a read outside the array.
unfoldable pub line_at : List Text → ℤ → Option Text
line_at lines (pos i) = get_elem? lines i
line_at lines (negsuc i) = none

abbrev pub is_line : Option ℕ → ℤ → Bool
is_line none line_number = false
is_line (some n) (pos m) = n == m
is_line (some n) (negsuc m) = false

-- `display_text` holds 599 characters.
unfoldable pub drawn_row : Tracer → ℤ → Text → DrawnRow
unfolding ◌+ℤ◌
drawn_row t line_index line =
    let highlight = is_line t.current_pc_line (line_index +ℤ pos 1) in
    record {
      highlight = highlight;
      display_text = take 599 ((if highlight then codes "-> " else codes "   ") ++ line);
    }

abbrev pub add_row : DrawnRow → Option (List DrawnRow) → Option (List DrawnRow)
add_row row none = none
add_row row (some rows) = some (row ∷ rows)

-- The loop over the rows from line `line_index` on, `n` rows at most; `none` for a read outside.
unfoldable pub draw_rows : Tracer → ℕ → ℤ → Option (List DrawnRow)
unfolding line_at drawn_row ◌+ℤ◌
draw_rows t zero line_index = some []
draw_rows t (suc n) line_index =
    let rest = draw_rows t n (line_index +ℤ pos 1) in
    if ltb_ℤ line_index (pos (total_lines t))
    then elim (line_at t.lines line_index) [
      | none ↦ none
      | some line ↦ add_row (drawn_row t line_index line) rest
    ]
    else some []

-- (window_height - 20) / 20, towards zero.
unfoldable pub rows_of_window : ℕ → ℤ
rows_of_window window_height =
    if leb 20 window_height
    then pos ((window_height - 20) / 20)
    else if window_height == 0
    then negsuc 0
    else pos 0

abbrev pub row_count : ℤ → ℕ
row_count (pos n) = n
row_count (negsuc n) = 0

-- `render_tracer_window`: the tracer with its new `visible_lines`, and the rows.
unfoldable pub render_tracer_window : ℕ → Tracer → Option (Tracer × List DrawnRow)
unfolding rows_of_window draw_rows
render_tracer_window window_height t =
    if not t.is_active
    then some (t, [])
    else let t' : Tracer = record t { visible_lines = rows_of_window window_height } in
      elim (draw_rows t' (row_count t'.visible_lines) t'.display_start) [
        | none ↦ none
        | some rows ↦ some (t', rows)
      ]
