-- ===== src/Emulator/Samples.antt =====
-- Runs of a core that only counts, and the theorems on them.
use ben_eater.Common.{ℕ, ◌<◌, ◌≡◌, refl, Option, none, some, List, [], ◌∷◌, Text, codes, arith}
use ben_eater.Common.Chain.{IfSome}
use ben_eater.Breakpoints.{is_breakpoint}
use ben_eater.Disasm.{disassemble_current_instruction}
use ben_eater.Inspect.{print_cpu_state_to_stream}
use ben_eater.Keyboard.{handle_keyboard_event}
use ben_eater.Tracer.Scroll.{handle_tracer_events}
use ben_eater.Emulator.{Round, State, After, show_if_active}
use ben_eater.Emulator.Commands.{debug}
use ben_eater.Emulator.Execute.{
  since_irq, execute, poll_events, poll_tracer, run_decoded, run_instruction, exec_instruction,
  end_round, follow_call, record_trace, report_state, trigger_irq,
}
use ben_eater.Emulator.Invariant.{state_of, KeptRun}
use ben_eater.Emulator.Loop.{Run, round, rounds, run_emulator_loop}
use ben_eater.Emulator.Paused.{Paused}
use ben_eater.Emulator.Paused.Debug.{debug-Paused}
use ben_eater.Emulator.Program.{clocks}
use ben_eater.Emulator.Rate.{WhilePaced, run_emulator_loop-Paced}
use ben_eater.Emulator.Timing.{run_emulator_loop-in_time}
use ben_eater.Emulator.Toy.{counting, quiet_round, key_round, state_at, no_files}

abbrev typed : List Text
typed = codes "w 6000 41\n" ∷ codes "\n" ∷ codes "b 9000\n" ∷ codes "c\n" ∷ []

abbrev five_rounds : List Round
five_rounds = quiet_round ∷ quiet_round ∷ key_round ∷ quiet_round ∷ quiet_round ∷ []

-- The PC and the byte at $0300 that rounds come to.
abbrev seen : Option Run → Option (ℕ × ℕ)
seen none = none
seen (some r) = some ((state_of r).cpu.pc, (state_of r).machine.ram 0x0300)

one_round :
    seen (rounds counting no_files 5 none (key_round ∷ []) (state_at 0x8000 []))
    ≡ some (0x8001, 0x61)
unfolding rounds round execute poll_events poll_tracer run_decoded run_instruction exec_instruction
    end_round is_breakpoint handle_tracer_events disassemble_current_instruction
    handle_keyboard_event show_if_active follow_call report_state print_cpu_state_to_stream
    record_trace trigger_irq
one_round = refl

debug-Paused_example :
    IfSome
      (λ (t : After × State). Paused (state_at 0x8001 typed) t.1)
      (debug no_files none quiet_round (state_at 0x8001 typed))
debug-Paused_example = debug-Paused no_files none quiet_round (state_at 0x8001 typed)

run_emulator_loop-in_time_example :
    KeptRun
      (λ t. since_irq t < 5)
      (run_emulator_loop counting no_files 5 none five_rounds (state_at 0x8000 typed))
run_emulator_loop-in_time_example =
    run_emulator_loop-in_time counting no_files 5 none five_rounds (state_at 0x8000 typed)
      (omega arith)

run_emulator_loop-Paced_example :
    KeptRun
      (λ t. WhilePaced 2 5 (clocks t))
      (run_emulator_loop counting no_files 5 none five_rounds (state_at 0x8000 typed))
run_emulator_loop-Paced_example =
    run_emulator_loop-Paced counting no_files 5 none five_rounds (state_at 0x8000 typed) 2
      (λ cpu m. omega arith) (omega arith)
