-- ===== src/Common/Lines.antt =====
-- A file as its lines, and what fgets reads of it.
use ben_eater.Common.Lists.{length}
use ben_eater.Common.CString.{Text, fgets_lines}
use ben_eater.Common.Tests.{◌==◌, ne→==_false}
use Prim.Native.Nat.{ℕ, ◌-◌, ◌<◌}
use mathlib.Core.Path.{◌≡◌, refl, ap, ◌∙◌}
use mathlib.Core.Bool.{Bool, true, false, ◌&&◌, not}
use mathlib.Core.List.{List, [], ◌∷◌, ◌++◌}
use native.Mathlib.Omega.{arith}

abbrev pub NoNewline : Text → Type 0
NoNewline [] = Unit {0}
NoNewline (c ∷ s) = ((c == 10) ≡ false) × NoNewline s

unfoldable pub is_line : Text → Bool
is_line [] = true
is_line (c ∷ s) = not (c == 10) && is_line s

pub is_line_sound : (s : Text) → is_line s ≡ true → NoNewline s
unfolding is_line
is_line_sound [] h = tt
is_line_sound (c ∷ s) h = (ground arith, is_line_sound s (ground arith))

pub fgets_lines-line :
    (size room : ℕ) (xs rest : Text)
    → NoNewline xs
    → length xs < room
    → fgets_lines size room (xs ++ (10 ∷ rest)) ≡ (xs ++ (10 ∷ [])) ∷ fgets_lines size size rest
unfolding fgets_lines
fgets_lines-line size room [] rest n h = refl
fgets_lines-line size room (c ∷ xs) rest n h = rw (
  n.0,
  ne→==_false room 1 (omega arith),
  fgets_lines-line size (room - 1) xs rest n.1 (omega arith),
)

pub NoNewline-append : (xs ys : Text) → NoNewline xs → NoNewline ys → NoNewline (xs ++ ys)
NoNewline-append [] ys h k = k
NoNewline-append (c ∷ xs) ys h k = (h.0, NoNewline-append xs ys h.1 k)

-- The lines, each with its newline, one behind the other.
abbrev pub text_of : List Text → Text
text_of [] = []
text_of (line ∷ lines) = line ++ (10 ∷ text_of lines)

abbrev pub with_newlines : List Text → List Text
with_newlines [] = []
with_newlines (line ∷ lines) = (line ++ (10 ∷ [])) ∷ with_newlines lines

-- Each line fits a buffer for `size` characters, and ends with its newline only.
abbrev pub AllFit : ℕ → List Text → Type 0
AllFit size [] = Unit {0}
AllFit size (line ∷ lines) = NoNewline line × (length line < size) × AllFit size lines

pub fgets_lines-text_of :
    (size : ℕ) (lines : List Text)
    → AllFit size lines
    → fgets_lines size size (text_of lines) ≡ with_newlines lines
fgets_lines-text_of size [] h = unfold fgets_lines in refl
fgets_lines-text_of size (line ∷ lines) (plain, short, h) =
    fgets_lines-line size size line (text_of lines) plain short
    ∙ ap (◌∷◌ (line ++ (10 ∷ []))) (fgets_lines-text_of size lines h)

pub AllFit-append :
    (size : ℕ) (xs ys : List Text) → AllFit size xs → AllFit size ys → AllFit size (xs ++ ys)
AllFit-append size [] ys h k = k
AllFit-append size (x ∷ xs) ys (plain, short, h) k = (plain, short, AllFit-append size xs ys h k)

pub with_newlines-append :
    (xs ys : List Text) → with_newlines (xs ++ ys) ≡ with_newlines xs ++ with_newlines ys
with_newlines-append [] ys = refl
with_newlines-append (x ∷ xs) ys = ap (◌∷◌ (x ++ (10 ∷ []))) (with_newlines-append xs ys)
