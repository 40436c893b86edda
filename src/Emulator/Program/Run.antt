-- ===== src/Emulator/Program/Run.antt =====
-- An invariant of the registers, the machine and the clocks over a whole run of the loop.
use ben_eater.Common.{ℕ, Option, some, List, Text}
use ben_eater.Common.Chain.{◌>>=◌, IfSome, IfSome-bind, IfSome-then}
use ben_eater.Bus.{Machine}
use ben_eater.Inspect.{Cpu, print_cpu_state_to_stream, dump_memory_range}
use ben_eater.Keyboard.{handle_keyboard_event}
use ben_eater.Emulator.{Core, Round, State}
use ben_eater.Emulator.Execute.{exec_instruction, trigger_irq, counted}
use ben_eater.Emulator.Invariant.{state_of, KeptRun, rounds-kept}
use ben_eater.Emulator.Loop.{
  rounds, Run, running, ended, shown_end, finish, finished, started, run_emulator_loop,
}
use ben_eater.Emulator.Paused.{SameProgram, Paused}
use ben_eater.Emulator.Program.{Clocks, At, Executed, program_steps, debug-kept}
use ben_eater.Emulator.Steps.{execute-kept}

module _ (Q : Cpu → Machine → Clocks → Type 0) where
  finish-kept : (s : State) → At Q s → IfSome (At Q) (finish s)
  unfolding finish
  finish-kept s h =
      IfSome-then (At Q) (dump_memory_range 65537 s.machine.ram 0xBB00 0xCFFF)
        (λ dump. print_cpu_state_to_stream s.cpu s.monitors s.machine.ram >>= λ out.
          some (shown_end dump out s))
        (λ dump.
          IfSome-then (At Q) (print_cpu_state_to_stream s.cpu s.monitors s.machine.ram)
            (λ out. some (shown_end dump out s)) (λ out. h))

  finished-kept : (r : Run) → At Q (state_of r) → KeptRun (At Q) (finished r)
  finished-kept (running s) h = h
  finished-kept (ended s) h =
      IfSome-bind (At Q) (λ r. At Q (state_of r)) (finish s) (λ s'. some (ended s'))
        (finish-kept s h) (λ s' w. w)

  pub run_emulator_loop-kept :
      (core : Core) (files : Text → Option Text) (irq_interval : ℕ) (list_file : Option Text)
      (rs : List Round) (s : State)
      → ((key : ℕ) (cpu : Cpu) (machine : Machine) (c : Clocks)
          → Q cpu machine c
          → Q cpu (handle_keyboard_event key c.loop_cnt machine).0 c)
      → ((s t : State)
          → At Q s
          → SameProgram (exec_instruction core s) t
          → At Q (counted (trigger_irq core irq_interval t)))
      → ((s t : State) → At Q s → Paused s t → At Q t)
      → At Q (started s)
      → KeptRun (At Q) (run_emulator_loop core files irq_interval list_file rs s)
  unfolding run_emulator_loop
  run_emulator_loop-kept core files irq_interval list_file rs s keyed stepped typed h =
      IfSome-bind (λ r. At Q (state_of r)) (λ r. At Q (state_of r))
        (rounds core files irq_interval list_file rs (started s)) finished
        (rounds-kept Unit (At Q) core files irq_interval list_file (λ s w. w)
          (debug-kept (At Q) files list_file typed)
          (execute-kept core irq_interval Unit (At Q) (Executed Q core irq_interval)
            (program_steps Q core irq_interval keyed stepped))
          rs (started s) h)
        finished-kept
