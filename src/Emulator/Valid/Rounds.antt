-- ===== src/Emulator/Valid/Rounds.antt =====
-- Every round keeps the state valid, and so does the whole run.
use ben_eater.Common.{ℕ, Option, some, List, ◌++◌, Text, codes}
use ben_eater.Common.Chain.{◌>>=◌, IfSome, IfSome-bind, IfSome-then}
use ben_eater.Inspect.{print_cpu_state_to_stream, dump_memory_range}
use ben_eater.Tracer.Window.{cleanup_tracer}
use ben_eater.Emulator.{Core, State, Round, printed, logged}
use ben_eater.Emulator.Invariant.{state_of, KeptRun, rounds-kept}
use ben_eater.Emulator.Loop.{
  rounds, Run, running, ended, finish, finished, cleaned_up, shown_end, dump_heading, totals,
  started, run_emulator_loop,
}
use ben_eater.Emulator.Valid.{IsValid}
use ben_eater.Emulator.Valid.Execute.{execute-IsValid}
use ben_eater.Emulator.Valid.Debug.{debug-IsValid}

cleaned_up-IsValid : (s : State) → IsValid s → IsValid (cleaned_up s)
unfolding cleanup_tracer
cleaned_up-IsValid s v = record {
  breakpoints = v.breakpoints;
  monitored = v.monitored;
  call_stack = v.call_stack;
  history = record { valid = λ e. cc; within = v.history.within };
}

shown_end-IsValid : (dump out : Text) (s : State) → IsValid s → IsValid (shown_end dump out s)
shown_end-IsValid dump out s v =
    cleaned_up-IsValid
      (printed (dump_heading ++ out)
        (logged (codes "--- Simulation Finished ---\n" ++ dump ++ totals s) s))
      v

finish-IsValid : (s : State) → IsValid s → IfSome IsValid (finish s)
unfolding finish
finish-IsValid s v =
    IfSome-then IsValid (dump_memory_range 65537 s.machine.ram 0xBB00 0xCFFF)
      (λ dump. print_cpu_state_to_stream s.cpu s.monitors s.machine.ram >>= λ out.
        some (shown_end dump out s))
      (λ dump.
        IfSome-then IsValid (print_cpu_state_to_stream s.cpu s.monitors s.machine.ram)
          (λ out. some (shown_end dump out s)) (λ out. shown_end-IsValid dump out s v))

finished-IsValid : (r : Run) → IsValid (state_of r) → KeptRun IsValid (finished r)
finished-IsValid (running s) v = v
finished-IsValid (ended s) v =
    IfSome-bind IsValid (λ r. IsValid (state_of r)) (finish s) (λ s'. some (ended s'))
      (finish-IsValid s v) (λ s' w. w)

pub run_emulator_loop-IsValid :
    (core : Core) (files : Text → Option Text) (irq_interval : ℕ) (list_file : Option Text)
    (rs : List Round) (s : State)
    → IsValid s
    → KeptRun IsValid (run_emulator_loop core files irq_interval list_file rs s)
unfolding run_emulator_loop
run_emulator_loop-IsValid core files irq_interval list_file rs s v =
    IfSome-bind (λ r. IsValid (state_of r)) (λ r. IsValid (state_of r))
      (rounds core files irq_interval list_file rs (started s)) finished
      (rounds-kept Unit IsValid core files irq_interval list_file (λ s w. w)
        (debug-IsValid files list_file) (execute-IsValid core irq_interval) rs (started s) v)
      finished-IsValid
