-- ===== src/Tracer/Drawing.antt =====
-- What the loop over the rows of the tracer's window reads.
use ben_eater.Common.{
  ℕ, zero, suc, ◌+◌, ◌<◌, ◌≤◌, ◌≡◌, refl, ◌∙◌, true, none, some, List, [], ◌∷◌, Text, length,
  get_elem?, ltb, arith, tests, inl, inr, Bool-cases,
}
use ben_eater.Common.Int.{pos, negsuc, ◌+ℤ◌, ltb_ℤ}
use ben_eater.Tracer.{Tracer, total_lines, DrawnRow, drawn_row, draw_rows, add_row}
use ben_eater.Tracer.View.{pos-add}

get_elem?-inside :
    (lines : List Text) (i : ℕ) → i < length lines → (line : Text) × (get_elem? lines i ≡ some line)
get_elem?-inside [] i h = absurd (omega arith)
get_elem?-inside (x ∷ xs) zero h = (x, refl)
get_elem?-inside (x ∷ xs) (suc i) h = get_elem?-inside xs i (omega arith)

-- One round of the loop over the rows, on a line of the file and behind its end.
draw_rows-inside :
    (t : Tracer) (n i : ℕ) (line : Text)
    → i < total_lines t
    → get_elem? t.lines i ≡ some line
    → draw_rows t (suc n) (pos i)
      ≡ add_row (drawn_row t (pos i) line) (draw_rows t n (pos i +ℤ pos 1))
unfolding draw_rows
draw_rows-inside t n i line h e = rw (inside_test, draw_rows) (rw e refl)
  where
    inside_test : ltb_ℤ (pos i) (pos (total_lines t)) ≡ true
    inside_test = ground arith

draw_rows-behind :
    (t : Tracer) (n i : ℕ) → total_lines t ≤ i → draw_rows t (suc n) (pos i) ≡ some []
unfolding draw_rows
draw_rows-behind t n i h = ground arith

pub draw_rows-above : (t : Tracer) (n i : ℕ) → draw_rows t (suc n) (negsuc i) ≡ none
unfolding draw_rows
draw_rows-above t n i = ground arith

-- Drawing from a line that does not stand above the file reads only lines of the file.
pub draw_rows-total :
    (t : Tracer) (n i : ℕ) → (rows : List DrawnRow) × (draw_rows t n (pos i) ≡ some rows)
draw_rows-total t zero i = ([], unfold draw_rows in refl)
draw_rows-total t (suc n) i = elim (Bool-cases (ltb i (total_lines t))) [
  | inl h ↦
      let (line, e) = get_elem?-inside t.lines i (omega (tests, h)) in
      let (rows, p) = draw_rows-total t n (i + 1) in
      (
        drawn_row t (pos i) line ∷ rows,
        draw_rows-inside t n i line (omega (tests, h)) e ∙ rw (pos-add i 1, p),
      )
  | inr h ↦ ([], draw_rows-behind t n i (ground arith))
]
