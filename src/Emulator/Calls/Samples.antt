-- ===== src/Emulator/Calls/Samples.antt =====
-- A run that calls and returns, and the theorems on it.
use ben_eater.Common.{◌≡◌, refl, none, List, [], ◌∷◌, arith, ◌==◌, if◌then◌else◌}
use ben_eater.Breakpoints.{is_breakpoint}
use ben_eater.Bus.{Ram}
use ben_eater.CallStack.{jsr, rts, frames}
use ben_eater.CallStack.Frames.{open_calls, Balanced, nested, quiet, SameFrames}
use ben_eater.Disasm.{disassemble_current_instruction}
use ben_eater.Inspect.{print_cpu_state_to_stream}
use ben_eater.Tracer.Scroll.{handle_tracer_events}
use ben_eater.Emulator.{Round, State, show_if_active}
use ben_eater.Emulator.Calls.Run.{
  run_calls, calls_of_run, run_emulator_loop-frames, run_emulator_loop-Balanced,
}
use ben_eater.Emulator.Execute.{
  execute, poll_events, poll_tracer, run_decoded, run_instruction, exec_instruction, end_round,
  follow_call, record_trace, report_state, trigger_irq,
}
use ben_eater.Emulator.Invariant.{KeptRun}
use ben_eater.Emulator.Loop.{round, run_emulator_loop}
use ben_eater.Emulator.Toy.{counting, quiet_round, state_at, no_files}

-- A JSR at $9000, behind it an RTS.
abbrev calling : Ram
calling b = if b == 0x9000 then 0x20 else if b == 0x9001 then 0x60 else 0xEA

abbrev start : State
start = record (state_at 0x9000 []) { machine = record { ram = calling; lcd_calls = [] } }

abbrev two_rounds : List Round
two_rounds = quiet_round ∷ quiet_round ∷ []

called : calls_of_run counting no_files 100 none two_rounds start ≡ jsr 0x9000 ∷ rts ∷ []
unfolding run_calls round execute poll_events poll_tracer run_decoded run_instruction
    exec_instruction end_round is_breakpoint handle_tracer_events disassemble_current_instruction
    show_if_active follow_call report_state print_cpu_state_to_stream record_trace trigger_irq
called = refl

run_emulator_loop-frames_example :
    KeptRun
      (λ t.
        frames t.call_stack
        ≡ open_calls []
            (calls_of_run counting no_files 100 none two_rounds start)
            (frames start.call_stack))
      (run_emulator_loop counting no_files 100 none two_rounds start)
run_emulator_loop-frames_example =
    run_emulator_loop-frames counting no_files 100 none two_rounds start

start-Balanced : Balanced 1 (calls_of_run counting no_files 100 none two_rounds start)
start-Balanced = rw called (nested 0x9000 quiet quiet)

run_emulator_loop-Balanced_example :
    KeptRun
      (λ t. SameFrames t.call_stack start.call_stack)
      (run_emulator_loop counting no_files 100 none two_rounds start)
run_emulator_loop-Balanced_example =
    run_emulator_loop-Balanced counting no_files 100 none two_rounds start 1 start-Balanced
      (omega arith)
