-- ===== src/Inspect/Write.antt =====
-- What the `w` command does to memory.
use ben_eater.Common.{
  ℕ, ◌%◌, ◌<◌, ◌≡◌, ◌⊎◌, refl, Text, ltb, arith, inl, inr, Bool-cases, Option-cases,
}
use ben_eater.Common.Array.{update}
use ben_eater.Bus.{Ram}
use ben_eater.Inspect.{scan_after, behind_letter, write_value, handle_write_command}
use ben_eater.Common.Scan.{scan_hex}

-- At most one byte of memory has changed, and it is a byte.
abbrev pub OneByte : Ram → Ram → Type 0
OneByte ram ram' =
    (address : ℕ) × (value : ℕ) × (address < 65536)
    × (value < 256)
    × ((b : ℕ) → ram' b ≡ update ram address value b)

abbrev pub Unchanged : Ram → Ram → Type 0
Unchanged ram ram' = (b : ℕ) → ram' b ≡ ram b

write_value-changes :
    (address value : ℕ) (ram : Ram)
    → Unchanged ram (write_value address value ram).0
      ⊎ OneByte ram (write_value address value ram).0
unfolding write_value
write_value-changes address value ram = elim (Bool-cases (ltb 0xFF value)) [
  | inl h ↦ rw h (inl (λ b. refl))
  | inr h ↦ rw h (inr (address % 65536, value % 256, omega arith, omega arith, λ b. refl))
]

-- Whatever is typed behind `w`, at most one address of memory changes, and it then holds a byte.
pub handle_write_command-changes :
    (input : Text) (ram : Ram)
    → Unchanged ram (handle_write_command input ram).0
      ⊎ OneByte ram (handle_write_command input ram).0
unfolding handle_write_command
handle_write_command-changes input ram =
    elim (Option-cases (scan_after (behind_letter b'w' input))) [
      | inl e ↦ rw (e, handle_write_command) (inl (λ b. refl))
      | inr ((address, rest), e) ↦ elim (Option-cases (scan_hex rest)) [
        | inl e' ↦ rw (e, handle_write_command) (rw e' (inl (λ b. refl)))
        | inr ((value, behind), e') ↦
            rw (e, handle_write_command) (rw e' (write_value-changes address value ram))
      ]
    ]
