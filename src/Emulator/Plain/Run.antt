-- ===== src/Emulator/Plain/Run.antt =====
-- A whole run refines the reference.
use ben_eater.Common.{
  ℕ, ◌≡◌, refl, sym, ◌∙◌, false, ◌||◌, Option, some, List, [], ◌∷◌, Text, inl, inr, Bool-cases,
}
use ben_eater.Common.Chain.{◌>>=◌, IfSome, IfSome-then, IsSome, IsSome-both, OrElse-bind}
use ben_eater.Inspect.{print_cpu_state_to_stream, dump_memory_range}
use ben_eater.Emulator.{Core, Round, State, After, next_round, go_on, end_loop}
use ben_eater.Emulator.Invariant.{state_of}
use ben_eater.Emulator.Loop.{
  rounds, later, Run, running, ended, shown_end, finish, finished, started, run_emulator_loop,
}
use ben_eater.Emulator.Plain.{plain_later, plain_rounds}
use ben_eater.Emulator.Plain.Rounds.{round-given}
use ben_eater.Emulator.Commands.{is_named}
use ben_eater.Emulator.Windowless.{NoWindow}
use ben_eater.Emulator.Windowless.Run.{finish-IsSome}
use ben_eater.Emulator.View.{Program, program_of, Shows}

-- Of what the rounds have come to, and that they come to something.
abbrev RunGives : Program → Option Run → Type 0
RunGives p = IsSome (λ r. Shows p (state_of r))

module _ (core : Core) (files : Text → Option Text) (irq_interval : ℕ) (list_file : Option Text)
    (no_file : is_named list_file ≡ false) where
  later-Gives :
      (rs : List Round) (after : After) (s : State) (m : Option Run)
      → RunGives (plain_rounds core irq_interval rs (program_of s)) m
      → RunGives
          (plain_later core irq_interval (after, program_of s) (plain_rounds core irq_interval rs))
          (later after s m)
  later-Gives rs end_loop s m h = refl
  later-Gives rs next_round s m h = h
  later-Gives rs go_on s m h = h

  rounds-Gives :
      (rs : List Round) (s : State)
      → NoWindow s
      → RunGives
          (plain_rounds core irq_interval rs (program_of s))
          (rounds core files irq_interval list_file rs s)
  unfolding rounds plain_rounds
  rounds-Gives [] s h = refl
  rounds-Gives (r ∷ rs) s h = elim (Bool-cases (s.break_loop || r.quit_flag)) [
    | inl e ↦ rw (e, rounds) refl
    | inr e ↦
        let ((after, s'), p, k, given) =
          round-given core files irq_interval list_file r s _ no_file h refl in
        rw (e, rounds)
          (rw (p, sym given)
            (later-Gives rs after s' (rounds core files irq_interval list_file rs s')
              (rounds-Gives rs s' k)))
  ]

pub finish-Shows : (s : State) → IfSome (Shows (program_of s)) (finish s)
unfolding finish
finish-Shows s =
    IfSome-then (Shows (program_of s)) (dump_memory_range 65537 s.machine.ram 0xBB00 0xCFFF)
      (λ dump. print_cpu_state_to_stream s.cpu s.monitors s.machine.ram >>= λ out.
        some (shown_end dump out s))
      (λ dump.
        IfSome-then (Shows (program_of s))
          (print_cpu_state_to_stream s.cpu s.monitors s.machine.ram)
          (λ out. some (shown_end dump out s)) (λ out. refl))

pub finish-given :
    (s : State) → (t : State) × (finish s ≡ some t) × Unit {0} × (program_of t ≡ program_of s)
finish-given s =
    IsSome-both (λ t. Unit) (λ t. program_of t ≡ program_of s) (finish s) (finish-IsSome s)
      (finish-Shows s)

finished-Gives : (p : Program) (r : Run) → Shows p (state_of r) → RunGives p (finished r)
finished-Gives p (running s) h = h
finished-Gives p (ended s) h = let (t, q, u, same) = finish-given s in rw q (same ∙ h)

-- Where no window is open, no list file is named and no line that is left begins with `u` or `v`, the
-- loop refines a reference that has no window, no history, no texts and no files. Behind every number
-- of rounds and at the end of a run it comes to a result, and the registers, the memory, the LCD, the
-- symbols, the breakpoints, the call stack, the monitored addresses, the queue of SDL, the lines left
-- to read, the two flags and the clocks are those of the reference, which gets the signal and the
-- events of each round and what is typed.
pub run_emulator_loop-plain_rounds :
    (core : Core) (files : Text → Option Text) (irq_interval : ℕ) (list_file : Option Text)
    (rs : List Round) (s : State)
    → is_named list_file ≡ false
    → NoWindow s
    → IsSome
        (λ r. program_of (state_of r) ≡ plain_rounds core irq_interval rs (program_of (started s)))
        (run_emulator_loop core files irq_interval list_file rs s)
unfolding run_emulator_loop
run_emulator_loop-plain_rounds core files irq_interval list_file rs s no_file h =
    let p = plain_rounds core irq_interval rs (program_of (started s)) in
    OrElse-bind ⊥ (λ r. Shows p (state_of r)) (λ r. Shows p (state_of r))
      (rounds core files irq_interval list_file rs (started s)) finished
      (rounds-Gives core files irq_interval list_file no_file rs (started s) h) (finished-Gives p)
