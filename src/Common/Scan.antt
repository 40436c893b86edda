-- ===== src/Common/Scan.antt =====
-- The conversions of sscanf that the debugger's commands and the list file are read with. Each
-- gives the value and the text behind it, and `none` for a matching failure.
use Prim.Native.Nat.{ℕ, suc, ◌+◌, ◌-◌, ◌*◌, ◌%◌, ◌^◌, ◌<◌}
use mathlib.Core.Path.{◌≡◌, refl, ap}
use mathlib.Core.Logic.{◌≢◌, inl, inr}
use native.Mathlib.Omega.{arith}
use mathlib.Core.Bool.{Bool, true, false, ◌&&◌, ◌||◌}
use mathlib.Core.Option.{Option, none, some}
use mathlib.Core.List.{[], ◌∷◌}
use ben_eater.Common.Tests.{ltb, leb, ◌==◌, if◌then◌else◌, Option-cases}
use ben_eater.Common.CString.{Text, is_space, skip_while, dec_text}
use ben_eater.Common.Int.{ℤ, pos, negsuc}

-- The value of a hexadecimal digit, and `none` where isxdigit is false.
unfoldable pub hex_value : ℕ → Option ℕ
hex_value c =
    if leb b'0' c && leb c b'9'
    then some (c - b'0')
    else if leb b'a' c && leb c b'f'
    then some (c - 87)
    else if leb b'A' c && leb c b'F'
    then some (c - 55)
    else none

unfoldable pub dec_value : ℕ → Option ℕ
dec_value c = if leb b'0' c && leb c b'9' then some (c - b'0') else none

-- The digits at hand in a base, added to what is read; and whether there was one.
unfoldable pub scan_digits : (ℕ → Option ℕ) → ℕ → Bool → ℕ → Text → Option (ℕ × Text)
scan_digits value base seen n [] = if seen then some (n, []) else none
scan_digits value base seen n (c ∷ s) = elim (value c) [
  | some d ↦ scan_digits value base true (n * base + d) s
  | none ↦ if seen then some (n, c ∷ s) else none
]

-- An optional sign: whether it is a minus, and the rest.
unfoldable pub scan_sign : Text → Bool × Text
scan_sign [] = (false, [])
scan_sign (c ∷ s) =
    if c == b'-' then (true, s) else if c == b'+' then (false, s) else (false, c ∷ s)

-- An optional 0x or 0X, behind which a digit must stand.
unfoldable pub skip_0x : Text → Text
skip_0x (z ∷ x ∷ s) = if z == b'0' && (x == b'x' || x == b'X') then s else z ∷ x ∷ s
skip_0x s = s

-- The sign and the width of an unsigned int, on what the digits give.
unfoldable pub to_unsigned : Bool → Option (ℕ × Text) → Option (ℕ × Text)
to_unsigned minus none = none
to_unsigned minus (some (n, rest)) =
    some ((if minus then 2 ^ 32 - n % 2 ^ 32 else n) % 2 ^ 32, rest)

-- %x into an unsigned int of 32 bits.
unfoldable pub scan_hex : Text → Option (ℕ × Text)
unfolding scan_sign skip_0x scan_digits hex_value skip_while is_space to_unsigned
scan_hex s =
    let (minus, t) = scan_sign (skip_while is_space s) in
    to_unsigned minus (scan_digits hex_value 16 false 0 (skip_0x t))

-- The int that 32 bits stand for.
unfoldable pub to_int32 : ℕ → ℤ
to_int32 n = if ltb n (2 ^ 31) then pos n else negsuc (2 ^ 32 - n - 1)

-- %d into an int of 32 bits.
unfoldable pub scan_int : Text → Option (ℤ × Text)
unfolding scan_sign scan_digits dec_value skip_while is_space to_int32 to_unsigned
scan_int s =
    let (minus, t) = scan_sign (skip_while is_space s) in
    elim (to_unsigned minus (scan_digits dec_value 10 false 0 t)) [
      | none ↦ none
      | some (n, rest) ↦ some (to_int32 n, rest)
    ]

-- %d of an int.
unfoldable pub int_text : ℤ → Text
unfolding dec_text
int_text (pos n) = dec_text n
int_text (negsuc n) = b'-' ∷ dec_text (suc n)

-- Once a digit has been read the conversion succeeds.
scan_digits-seen :
    (value : ℕ → Option ℕ) (base n : ℕ) (s : Text)
    → (r : ℕ × Text) × (scan_digits value base true n s ≡ some r)
unfolding scan_digits
scan_digits-seen value base n [] = ((n, []), refl)
scan_digits-seen value base n (c ∷ s) = elim (Option-cases (value c)) [
  | inl e ↦ ((n, c ∷ s), rw (e, scan_digits))
  | inr (d, e) ↦
      let (r, p) = scan_digits-seen value base (n * base + d) s in (r, rw (e, scan_digits) p)
]

hex_value-plain :
    (c d : ℕ)
    → hex_value c ≡ some d
    → (is_space c ≡ false) × ((c == b'-') ≡ false) × ((c == b'+') ≡ false)
unfolding hex_value is_space
hex_value-plain c d h = ground arith

skip_0x-ne : (c : ℕ) (s : Text) → c ≢ b'0' → skip_0x (c ∷ s) ≡ c ∷ s
unfolding skip_0x
skip_0x-ne c [] h = refl
skip_0x-ne c (x ∷ s) h = ground arith

scan_digits-first :
    (c d : ℕ) (s : Text)
    → hex_value c ≡ some d
    → scan_digits hex_value 16 false 0 (c ∷ s) ≡ scan_digits hex_value 16 true d s
unfolding scan_digits
scan_digits-first c d s h =
    rw (h, scan_digits) (ap (λ (n : ℕ). scan_digits hex_value 16 true n s) (omega arith))

-- A text that begins with a hexadecimal digit other than 0 is a number for %x.
pub scan_hex-digit :
    (c d : ℕ) (s : Text)
    → hex_value c ≡ some d
    → c ≢ b'0'
    → (r : ℕ × Text) × (scan_hex (c ∷ s) ≡ some r)
unfolding scan_hex
scan_hex-digit c d s h ne =
    let (space, minus, plus) = hex_value-plain c d h in
    let ((n, rest), p) = scan_digits-seen hex_value 16 d s in
    ((n % 2 ^ 32, rest), rw (space, minus, plus, skip_0x-ne c s ne, scan_digits-first c d s h, p))

-- %x gives a value of 32 bits.
to_unsigned-bound :
    (minus : Bool) (m : Option (ℕ × Text)) (rest : Text) (n : ℕ)
    → to_unsigned minus m ≡ some (n, rest)
    → n < 2 ^ 32
unfolding to_unsigned
to_unsigned-bound minus none rest n e = absurd cc
to_unsigned-bound minus (some (k, s)) rest n e = ground arith

pub scan_hex-bound : (s rest : Text) (n : ℕ) → scan_hex s ≡ some (n, rest) → n < 2 ^ 32
unfolding scan_hex
scan_hex-bound s rest n e = to_unsigned-bound _ _ rest n e
