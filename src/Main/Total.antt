-- ===== src/Main/Total.antt =====
-- Without a list file and without `u` and `v`, main comes to a result.
use ben_eater.Common.{◌≡◌, refl, Bool, Option, none, some, List, [], fgets_lines, inl, inr}
use ben_eater.Common.Chain.{IsSome, OrElse-bind}
use ben_eater.Inspect.{Cpu}
use ben_eater.Emulator.{Core}
use ben_eater.Emulator.Loop.{run_emulator_loop}
use ben_eater.Emulator.Windowless.{AllHarmless}
use ben_eater.Emulator.Windowless.Run.{run_emulator_loop-IsSome}
use ben_eater.Main.{
  Opt, Arguments, World, irq_interval, Exit, failure, run, with_arguments, globals, main,
}
use ben_eater.Emulator.Invariant.{state_of}
use ben_eater.Emulator.Valid.{IsValid}
use ben_eater.Main.Runs.{KeptExit, main-IsValid}
use ben_eater.Main.Options.{given, list_argument, arguments_of, parse_options_lem}
use ben_eater.Main.Before.{globals-AtStart}
use ben_eater.Main.Start.{Started, with_arguments-Started}

Started-comes :
    (core : Core) (max_irq_interval : Bool) (w : World) (cpu : Cpu) (a : Arguments)
    (e : Option Exit)
    → a.list_file_path ≡ none
    → AllHarmless (fgets_lines 59 59 w.terminal)
    → Started core max_irq_interval w cpu a e
    → IsSome (λ x. Unit) e
Started-comes core max_irq_interval w cpu a e no_list harmless (inl p) = rw p tt
Started-comes core max_irq_interval w cpu a e no_list harmless (inr (s, ready, p)) =
    rw (p, no_list)
      (OrElse-bind ⊥ (λ r. Unit) (λ x. Unit)
        (run_emulator_loop core w.files (irq_interval max_irq_interval) none w.rounds s)
        (λ end. some (run end))
        (run_emulator_loop-IsSome core w.files (irq_interval max_irq_interval) none w.rounds s refl
          ((ready.closed, rw ready.typed harmless)))
        (λ r h. tt))

main-comes :
    (core : Core) (max_irq_interval : Bool) (w : World) (opts : List Opt) (cpu : Cpu)
    → given list_argument opts ≡ []
    → AllHarmless (fgets_lines 59 59 w.terminal)
    → IsSome (λ e. Unit) (main core max_irq_interval w opts cpu)
unfolding main with_arguments
main-comes core max_irq_interval w opts cpu no_list harmless = elim (parse_options_lem opts) [
  | inl (known, out, p) ↦
      let no_file : (arguments_of opts).list_file_path ≡ none = rw no_list refl in
      rw p (
        Started-comes core max_irq_interval w cpu (arguments_of opts) _ no_file harmless (
          with_arguments-Started core max_irq_interval w cpu (arguments_of opts) out
            (globals cpu w.terminal) no_file (globals-AtStart w cpu)))
  | inr (unknown, p) ↦ rw p tt
]

-- A failure, or a run that has kept its tables within their arrays.
abbrev pub IsSound : Exit → Type 0
IsSound failure = Unit
IsSound (run r) = IsValid (state_of r)

sound : (e : Option Exit) → IsSome (λ e. Unit {0}) e → KeptExit IsValid e → IsSome IsSound e
sound none h v = h
sound (some failure) h v = tt
sound (some (run r)) h v = v

-- Where no list file is given and no line of the terminal begins with `u` or `v`, main comes to a
-- result behind every number of rounds, the end of the run included: to a failure, or to a run in
-- which the breakpoints, the monitored addresses, the call stack and the trace history are within
-- their arrays, whatever the program, the hex file, the keys and the other commands are.
pub main-IsSome :
    (core : Core) (max_irq_interval : Bool) (w : World) (opts : List Opt) (cpu : Cpu)
    → given list_argument opts ≡ []
    → AllHarmless (fgets_lines 59 59 w.terminal)
    → IsSome IsSound (main core max_irq_interval w opts cpu)
main-IsSome core max_irq_interval w opts cpu no_list harmless =
    sound (main core max_irq_interval w opts cpu)
      (main-comes core max_irq_interval w opts cpu no_list harmless)
      (main-IsValid core max_irq_interval w opts cpu)
