-- ===== src/Emulator/Plain/Samples.antt =====
-- The reference on a run with a key and commands, and the theorem on it.
use ben_eater.Common.{ℕ, ◌≡◌, refl, none, List, [], ◌∷◌, Text, codes}
use ben_eater.Breakpoints.{is_breakpoint}
use ben_eater.Inspect.{handle_write_command}
use ben_eater.Keyboard.{handle_keyboard_event}
use ben_eater.Emulator.{Round}
use ben_eater.Emulator.Commands.{letter, cut_newline}
use ben_eater.Emulator.Invariant.{state_of}
use ben_eater.Emulator.Windowless.{AllHarmless}
use ben_eater.Common.Chain.{IsSome}
use ben_eater.Emulator.Loop.{started, run_emulator_loop}
use ben_eater.Emulator.Plain.{plain_rounds, plain_poll, plain_letter}
use ben_eater.Emulator.Plain.Run.{run_emulator_loop-plain_rounds}
use ben_eater.Emulator.Toy.{counting, quiet_round, key_round, state_at, no_files}
use ben_eater.Emulator.View.{Program, program_of}

abbrev typed : List Text
typed = codes "w 6000 41\n" ∷ codes "\n" ∷ codes "c\n" ∷ []

abbrev five_rounds : List Round
five_rounds = quiet_round ∷ key_round ∷ quiet_round ∷ quiet_round ∷ quiet_round ∷ []

abbrev seen : Program → ℕ × ℕ × ℕ
seen p = (p.cpu.pc, p.machine.ram 0x6000, p.loop_cnt)

-- The first round runs up to the breakpoint at $8001, the next three read a line each.
reference_run :
    seen (plain_rounds counting 100 five_rounds (program_of (started (state_at 0x8000 typed))))
    ≡ (0x8003, 0x41, 3)
unfolding plain_rounds plain_poll plain_letter is_breakpoint handle_write_command
    handle_keyboard_event letter cut_newline
reference_run = refl

typed-AllHarmless : AllHarmless typed
unfolding letter cut_newline
typed-AllHarmless = (refl, (refl, (refl, tt)))

run_emulator_loop-plain_rounds_example :
    IsSome
      (λ r.
        program_of (state_of r)
        ≡ plain_rounds counting 100 five_rounds (program_of (started (state_at 0x8000 typed))))
      (run_emulator_loop counting no_files 100 none five_rounds (state_at 0x8000 typed))
run_emulator_loop-plain_rounds_example =
    run_emulator_loop-plain_rounds counting no_files 100 none five_rounds (state_at 0x8000 typed)
      refl (refl, typed-AllHarmless)
