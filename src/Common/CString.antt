-- ===== src/Common/CString.antt =====
-- C strings as lists of byte values, and what the C library prints and reads of them.
-- A text holds no NUL: its end is the terminator.
use Prim.Native.Nat.{ℕ, zero, suc, ◌+◌, ◌-◌, ◌/◌, ◌%◌}
use Prim.Native.Char.{code}
use Prim.Native.String.{String}
use mathlib.Core.Bool.{Bool, true, false, ◌&&◌, ◌||◌}
use mathlib.Core.List.{List, [], ◌∷◌}
use ben_eater.Common.Tests.{ltb, leb, ◌==◌, if◌then◌else◌}

abbrev pub Text : Type 0
Text = List ℕ

-- The bytes of a literal.
abbrev pub codes : String → Text
codes String.[] = []
codes (String.◌∷◌ c s) = code c ∷ codes s

-- strcmp(s, t) == 0
unfoldable pub text_eq : Text → Text → Bool
text_eq [] [] = true
text_eq [] (d ∷ t) = false
text_eq (c ∷ s) [] = false
text_eq (c ∷ s) (d ∷ t) = c == d && text_eq s t

-- isspace in the C locale: blank, and the codes from tab to carriage return.
unfoldable pub is_space : ℕ → Bool
is_space c = c == 32 || (leb 9 c && leb c 13)

-- The test that skips blanks and tabs behind a command letter.
unfoldable pub is_blank : ℕ → Bool
is_blank c = c == 32 || c == 9

unfoldable pub skip_while : (ℕ → Bool) → Text → Text
skip_while p [] = []
skip_while p (c ∷ s) = if p c then skip_while p s else c ∷ s

-- A digit as %X prints it.
unfoldable pub upper_digit : ℕ → ℕ
upper_digit d = if ltb d 10 then b'0' + d else 55 + d

-- %0wX: at least `w` digits, `f` at most.
unfoldable pub hex_loop : ℕ → ℕ → ℕ → Text → Text
unfolding upper_digit
hex_loop zero w n acc = acc
hex_loop (suc f) w n acc =
    let rest = hex_loop f (w - 1) (n / 16) (upper_digit (n % 16) ∷ acc) in
    if n == 0 && w == 0 then acc else rest

-- %02X and %04X of an unsigned int, which has eight digits at most.
unfoldable pub hex2 : ℕ → Text
unfolding hex_loop
hex2 n = hex_loop 8 2 n []

unfoldable pub hex4 : ℕ → Text
unfolding hex_loop
hex4 n = hex_loop 8 4 n []

unfoldable pub dec_loop : ℕ → ℕ → Text → Text
dec_loop zero n acc = acc
dec_loop (suc f) n acc =
    let rest = dec_loop f (n / 10) ((b'0' + n % 10) ∷ acc) in
    if n / 10 == 0 then (b'0' + n % 10) ∷ acc else rest

-- %d of a number of ten digits at most.
unfoldable pub dec_text : ℕ → Text
unfolding dec_loop
dec_text n = dec_loop 10 n []

-- One more character at the front of the line that is being read.
unfoldable pub put_first : ℕ → List Text → List Text
put_first c [] = (c ∷ []) ∷ []
put_first c (line ∷ lines) = (c ∷ line) ∷ lines

-- What fgets gives, call by call, with a buffer of `size` + 1 characters: a line with its newline, or
-- as much of it as fits. `room` characters are free in the line at hand.
unfoldable pub fgets_lines : ℕ → ℕ → Text → List Text
unfolding put_first
fgets_lines size room [] = []
fgets_lines size room (c ∷ s) =
    let full = c == 10 || room == 1 in
    let rest = fgets_lines size (if full then size else room - 1) s in
    if full then (c ∷ []) ∷ rest else put_first c rest
