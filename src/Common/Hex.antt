-- ===== src/Common/Hex.antt =====
-- The digits that %02X and %04X print of a byte and of a word.
use Prim.Native.Nat.{ℕ, zero, suc, ◌-◌, ◌/◌, ◌%◌, ◌<◌}
use mathlib.Core.Path.{◌≡◌, refl, ◌∙◌}
use mathlib.Core.List.{[], ◌∷◌}
use native.Mathlib.Omega.{arith}
use ben_eater.Common.CString.{Text, hex_loop, hex2, hex4, upper_digit}

hex_loop-done : (f n : ℕ) (acc : Text) → n ≡ 0 → hex_loop f 0 n acc ≡ acc
unfolding hex_loop
hex_loop-done zero n acc e = refl
hex_loop-done (suc f) n acc e = rw e

hex_loop-step :
    (f w n : ℕ) (acc : Text)
    → hex_loop (suc f) (suc w) n acc ≡ hex_loop f w (n / 16) (upper_digit (n % 16) ∷ acc)
unfolding hex_loop
hex_loop-step f w n acc = let short : suc w - 1 ≡ w = omega arith in rw short (ground arith)

pub hex2-digits : (n : ℕ) → n < 256 → hex2 n ≡ upper_digit (n / 16 % 16) ∷ upper_digit (n % 16) ∷ []
unfolding hex2
hex2-digits n h =
    hex_loop-step 7 1 n []
    ∙ hex_loop-step 6 0 (n / 16) _
    ∙ hex_loop-done 6 (n / 16 / 16) _ (omega arith)

pub hex4-digits :
    (n : ℕ)
    → n < 65536
    → hex4 n
      ≡ upper_digit (n / 16 / 16 / 16 % 16)
        ∷ upper_digit (n / 16 / 16 % 16)
        ∷ upper_digit (n / 16 % 16)
        ∷ upper_digit (n % 16)
        ∷ []
unfolding hex4
hex4-digits n h =
    hex_loop-step 7 3 n []
    ∙ hex_loop-step 6 2 (n / 16) _
    ∙ hex_loop-step 5 1 (n / 16 / 16) _
    ∙ hex_loop-step 4 0 (n / 16 / 16 / 16) _
    ∙ hex_loop-done 4 (n / 16 / 16 / 16 / 16) _ (omega arith)
