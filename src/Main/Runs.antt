-- ===== src/Main/Runs.antt =====
-- What holds of every run of the simulator, from main on.
use ben_eater.Common.{Bool, Option, none, some, List, inl, inr}
use ben_eater.Inspect.{Cpu}
use ben_eater.Emulator.{Core, State}
use ben_eater.Emulator.Handles.{AllMake}
use ben_eater.Emulator.Handles.Run.{FreesOnce, run_emulator_loop-FreesOnce}
use ben_eater.Emulator.Invariant.{state_of, KeptRun, Each}
use ben_eater.Emulator.Loop.{Run, run_emulator_loop}
use ben_eater.Emulator.Valid.{IsValid}
use ben_eater.Emulator.Valid.Rounds.{run_emulator_loop-IsValid}
use ben_eater.Main.{Opt, Arguments, World, irq_interval, Exit, failure, run, run_of, main}
use ben_eater.Main.Start.{Ready, Outcome, main-Outcome}

-- Of the state of a run, where main has come to one.
abbrev pub KeptExit : (State → Type 0) → Option Exit → Type 0
KeptExit P none = Unit
KeptExit P (some failure) = Unit
KeptExit P (some (run r)) = P (state_of r)

run_of-kept : (P : State → Type 0) (r : Option Run) → KeptRun P r → KeptExit P (run_of r)
run_of-kept P none h = tt
run_of-kept P (some r) h = h

module _ (core : Core) (max_irq_interval : Bool) (w : World) (cpu : Cpu) (P : State → Type 0) where
  Outcome-kept :
      (e : Option Exit)
      → ((a : Arguments) (s : State)
          → Ready core w cpu a s
          → KeptRun P (
              run_emulator_loop core w.files
                (irq_interval max_irq_interval)
                a.list_file_path
                w.rounds
                s))
      → Outcome core max_irq_interval w cpu e
      → KeptExit P e
  Outcome-kept e kept (a, inl (path, given, overrun, p)) = rw p tt
  Outcome-kept e kept (a, inr (inl p)) = rw p tt
  Outcome-kept e kept (a, inr (inr (s, ready, p))) = rw p (run_of-kept P _ (kept a s ready))

-- Whatever the options, the files, the keys, the commands and the program, the tables of breakpoints
-- and of monitored addresses are valid, the call stack and the trace history stay within their arrays,
-- behind every number of rounds and at the end of the run, wherever main comes to one.
pub main-IsValid :
    (core : Core) (max_irq_interval : Bool) (w : World) (opts : List Opt) (cpu : Cpu)
    → KeptExit IsValid (main core max_irq_interval w opts cpu)
main-IsValid core max_irq_interval w opts cpu =
    Outcome-kept core max_irq_interval w cpu IsValid (main core max_irq_interval w opts cpu)
      (λ a s ready.
        run_emulator_loop-IsValid core w.files (irq_interval max_irq_interval) a.list_file_path
          w.rounds s ready.valid)
      (main-Outcome core max_irq_interval w opts cpu)

-- Where SDL and its fonts make what they are asked for in every round, a run closes no font and
-- destroys no renderer and no window that it has not made or has freed already, whatever is typed
-- and whichever windows are opened and closed, behind every number of rounds and at the end of the
-- run, from any options, files and program, wherever main comes to a run.
pub main-FreesOnce :
    (core : Core) (max_irq_interval : Bool) (w : World) (opts : List Opt) (cpu : Cpu)
    → Each AllMake w.rounds
    → KeptExit FreesOnce (main core max_irq_interval w opts cpu)
main-FreesOnce core max_irq_interval w opts cpu makes =
    Outcome-kept core max_irq_interval w cpu FreesOnce (main core max_irq_interval w opts cpu)
      (λ a s ready.
        run_emulator_loop-FreesOnce core w.files (irq_interval max_irq_interval) a.list_file_path
          w.rounds s makes ready.unheld)
      (main-Outcome core max_irq_interval w opts cpu)
