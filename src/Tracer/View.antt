-- ===== src/Tracer/View.antt =====
-- Where the tracer's window stands.
use ben_eater.Common.{
  ℕ, suc, ◌+◌, ◌-◌, ◌/◌, ◌<◌, ◌≤◌, ◌≡◌, ◌⊎◌, refl, ap, ◌∙◌, true, false, some, List, [], ◌∷◌, ◌++◌,
  Text, length, length-append, ltb, if◌then◌else◌, arith, inl, inr, Bool-cases, hex4,
}
use ben_eater.Common.Int.{pos, ◌+ℤ◌, ◌-ℤ◌}
use ben_eater.Tracer.{
  Tracer, total_lines, at_pc, find_line, find_pc_line, at_least_zero, centred,
  update_tracer_display,
}

-- Found at `k` from `i`: the line is there, it shows the address, and no line before it does.
abbrev pub FirstLine : Text → List Text → ℕ → ℕ → Type 0
FirstLine pc_hex lines i k =
    (before : List Text) × (line : Text) × (after : List Text) × (lines ≡ before ++ (line ∷ after))
    × (k ≡ suc (i + length before))
    × (at_pc pc_hex line ≡ true)

find_line-nil : (pc_hex : Text) (i k : ℕ) → find_line pc_hex [] i ≡ some k → ⊥
unfolding find_line
find_line-nil pc_hex i k e = cc

find_line-here :
    (pc_hex line : Text) (rest : List Text) (i k : ℕ)
    → at_pc pc_hex line ≡ true
    → find_line pc_hex (line ∷ rest) i ≡ some k
    → k ≡ suc i
unfolding find_line
find_line-here pc_hex line rest i k h e = ground arith

find_line-later :
    (pc_hex line : Text) (rest : List Text) (i k : ℕ)
    → at_pc pc_hex line ≡ false
    → find_line pc_hex (line ∷ rest) i ≡ some k
    → find_line pc_hex rest (suc i) ≡ some k
unfolding find_line
find_line-later pc_hex line rest i k h e = ground arith

find_line-FirstLine :
    (pc_hex : Text) (lines : List Text) (i k : ℕ)
    → find_line pc_hex lines i ≡ some k
    → FirstLine pc_hex lines i k
find_line-FirstLine pc_hex [] i k e = absurd (find_line-nil pc_hex i k e)
find_line-FirstLine pc_hex (line ∷ rest) i k e = elim (Bool-cases (at_pc pc_hex line)) [
  | inl h ↦ ([], line, rest, refl, omega (arith, find_line-here pc_hex line rest i k h e), h)
  | inr h ↦
      let (before, found, after, parts, count, shows) =
        find_line-FirstLine pc_hex rest (suc i) k (find_line-later pc_hex line rest i k h e) in
      (line ∷ before, found, after, ap (◌∷◌ line) parts, omega (arith, count), shows)
]

pub at_least_zero-sub : (a b : ℕ) → at_least_zero (pos a -ℤ pos b) ≡ pos (a - b)
unfolding ◌-ℤ◌
at_least_zero-sub a b = ground arith

pub pos-add : (a b : ℕ) → pos a +ℤ pos b ≡ pos (a + b)
unfolding ◌+ℤ◌
pos-add a b = ground arith

pub pos-sub : (a b : ℕ) → b ≤ a → pos a -ℤ pos b ≡ pos (a - b)
unfolding ◌-ℤ◌
pos-sub a b h = ground arith

-- `centred` without signs: half the window above the line, moved up to end with the file and down to
-- begin with it.
pub centred-pos :
    (pc_line visible total : ℕ)
    → 1 ≤ pc_line
    → centred pc_line (pos visible) total
      ≡ pos (
          if ltb total (pc_line - 1 - visible / 2 + visible)
          then total - visible
          else pc_line - 1 - visible / 2)
unfolding centred
centred-pos pc_line visible total h =
    rw
      (
        pos-sub pc_line 1 h,
        at_least_zero-sub (pc_line - 1) (visible / 2),
        pos-add (pc_line - 1 - visible / 2) visible,
        at_least_zero-sub total visible,
      )
      (ground arith)

update_tracer_display-found :
    (current_pc pc_line : ℕ) (t : Tracer)
    → t.is_active ≡ true
    → find_pc_line t current_pc ≡ some pc_line
    → update_tracer_display current_pc t ≡ record t {
      current_pc_line = some pc_line;
      display_start = centred pc_line t.visible_lines (total_lines t);
    }
unfolding update_tracer_display
update_tracer_display-found current_pc pc_line t active found =
    rw (found, update_tracer_display) (simp active)

-- Where the instruction of the PC is in the list file and the window has a row, the window is moved
-- to show the first line of that address. It begins no earlier than the file, and does not reach
-- beyond the end of a file that fills it.
pub update_tracer_display_shows :
    (current_pc pc_line visible : ℕ) (t : Tracer)
    → t.is_active ≡ true
    → t.visible_lines ≡ pos visible
    → 1 ≤ visible
    → find_pc_line t current_pc ≡ some pc_line
    → FirstLine (hex4 current_pc) t.lines 0 pc_line
      × ((update_tracer_display current_pc t).current_pc_line ≡ some pc_line)
      × ((start : ℕ) × ((update_tracer_display current_pc t).display_start ≡ pos start)
          × (start < pc_line)
          × (pc_line ≤ start + visible)
          × ((start ≡ 0) ⊎ (start + visible ≤ total_lines t)))
unfolding find_pc_line
update_tracer_display_shows current_pc pc_line visible t active rows one_row found =
    let first = find_line-FirstLine (hex4 current_pc) t.lines 0 pc_line found in
    let (before, line, after, parts, count, shows) = first in
    let in_file : pc_line ≤ total_lines t =
      omega (arith, ap length parts, length-append before (line ∷ after)) in
    let shown = update_tracer_display-found current_pc pc_line t active found in
    (
      first,
      ap Tracer.current_pc_line shown,
      (
        (if ltb (total_lines t) (pc_line - 1 - visible / 2 + visible)
            then total_lines t - visible
            else pc_line - 1 - visible / 2),
        ap Tracer.display_start shown
            ∙ rw rows (centred-pos pc_line visible (total_lines t) (omega arith)),
        ground arith,
        ground arith,
        ground arith,
      ),
    )
