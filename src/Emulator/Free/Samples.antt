-- ===== src/Emulator/Free/Samples.antt =====
-- A run of three instructions up to the magic opcode, and the theorem on it.
use ben_eater.Common.{false, ℕ, ◌≡◌, refl, none, some, List, [], ◌∷◌, ◌++◌}
use ben_eater.Breakpoints.{is_breakpoint}
use ben_eater.Keyboard.{handle_keyboard_event}
use ben_eater.Emulator.{Round, State, key_down_event}
use ben_eater.Emulator.Free.{free_run, IsCalm, RunsFreely}
use ben_eater.Emulator.Free.Run.{run_emulator_loop-free_run}
use ben_eater.Emulator.Loop.{ended, started, run_emulator_loop}
use ben_eater.Emulator.Plain.{plain_poll, plain_polled}
use ben_eater.Emulator.Toy.{counting, quiet_round, state_at, no_files}
use ben_eater.Emulator.View.{Program, program_of}

abbrev free_state : State
free_state = record (state_at 0x8000 []) {
  breakpoints = record (state_at 0x8000 []).breakpoints { breakpoint_count = 0 };
}

-- The key comes behind the poll, so that the next round takes it.
abbrev late_key_round : Round
late_key_round = record quiet_round { arrived = key_down_event b'a' false ∷ [] }

abbrev before_magic : List Round
before_magic = quiet_round ∷ late_key_round ∷ quiet_round ∷ []

abbrev reached : Program
reached = free_run counting 100 before_magic (program_of (started free_state))

abbrev seen : Program → ℕ × ℕ × ℕ × ℕ
seen p = (p.cpu.pc, p.machine.ram 0x300, p.total_cycles, p.loop_cnt)

three_instructions : seen reached ≡ (0x8003, b'a', 6, 3)
unfolding plain_poll handle_keyboard_event
three_instructions = refl

runs : RunsFreely counting 100 before_magic (program_of (started free_state))
unfolding plain_poll handle_keyboard_event is_breakpoint
runs = (
  record { no_signal = refl; no_breakpoint = refl; only_keys = tt },
  refl,
  (
    record { no_signal = refl; no_breakpoint = refl; only_keys = tt },
    refl,
    (record { no_signal = refl; no_breakpoint = refl; only_keys = (refl, tt) }, refl, tt),
  ),
)

ends : IsCalm counting 100 quiet_round reached
unfolding plain_poll handle_keyboard_event is_breakpoint
ends = record { no_signal = refl; no_breakpoint = refl; only_keys = tt }

run_emulator_loop-free_run_example :
    (t : State) × (run_emulator_loop counting no_files 100 none
        (before_magic ++ (quiet_round ∷ quiet_round ∷ []))
        free_state
      ≡ some (ended t))
    × (program_of t ≡ plain_polled quiet_round reached)
unfolding plain_poll handle_keyboard_event
run_emulator_loop-free_run_example =
    run_emulator_loop-free_run counting no_files 100 none before_magic quiet_round
      (quiet_round ∷ []) free_state refl (refl, tt) runs ends refl
