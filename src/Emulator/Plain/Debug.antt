-- ===== src/Emulator/Plain/Debug.antt =====
-- The debugger refines that of the reference.
use ben_eater.Common.{
  ◌≡◌, refl, ap, Option, none, some, List, [], ◌∷◌, Text, inl, inr, Option-cases,
}
use ben_eater.Common.Chain.{◌>>=◌, IfSome, IfSome-bind, IfSome-then}
use ben_eater.CallStack.{handle_up_command}
use ben_eater.Inspect.{print_call_stack}
use ben_eater.Emulator.{State, Round, After, next_round, go_on, end_loop, printed}
use ben_eater.Emulator.Commands.{
  Letter, up, stack, tracer, scroll_up, scroll_down, letter, cut_newline, then_next, then_on,
  toggle_tracer, enter, scroll_up_command, scroll_down_command, up_command, run_letter, command,
  read_command, auto_open, prompted, debug,
}
use ben_eater.Emulator.View.{
  Program, program_of, Shows, enter-Shows, scroll_up_command-Shows, scroll_down_command-Shows,
  toggle_tracer-Shows, auto_open-Shows,
}
use ben_eater.Emulator.Plain.{plain_letter, plain_command, plain_read, plain_debug}

-- A part of a round ends as the reference does, on a state that shows the same program.
abbrev pub Gives : After × Program → Option (After × State) → Type 0
Gives q = IfSome (λ (r : After × State). (r.0, program_of r.1) ≡ q)

then_next-Gives :
    (p : Program) (m : Option State) → IfSome (Shows p) m → Gives (next_round, p) (then_next m)
then_next-Gives p none h = tt
then_next-Gives p (some s) h = ap (λ (q : Program). (next_round, q)) h

then_on-Gives : (p : Program) (m : Option State) → IfSome (Shows p) m → Gives (go_on, p) (then_on m)
then_on-Gives p none h = tt
then_on-Gives p (some s) h = ap (λ (q : Program). (go_on, q)) h

module _ (files : Text → Option Text) (r : Round) where
  run_letter-Gives :
      (l : Letter) (input : Text) (s : State)
      → Gives (plain_letter l input (program_of s)) (run_letter files l r input s)
  unfolding run_letter plain_letter up_command
  run_letter-Gives up input s =
      elim (Option-cases (handle_up_command s.symbol_list s.cpu.sp s.call_stack s.breakpoints)) [
        | inl e ↦ rw (e, plain_letter) tt
        | inr (t, e) ↦ rw (e, plain_letter) refl
      ]
  run_letter-Gives stack input s =
      then_next-Gives (program_of s)
        (print_call_stack s.symbol_list s.call_stack s.cpu s.monitors s.machine.ram >>= λ out.
          some (printed out s))
        (IfSome-then (Shows (program_of s))
          (print_call_stack s.symbol_list s.call_stack s.cpu s.monitors s.machine.ram)
          (λ out. some (printed out s)) (λ out. refl))
  run_letter-Gives tracer input s =
      then_next-Gives (program_of s) (toggle_tracer files r input s)
        (toggle_tracer-Shows (program_of s) files r input s refl)
  run_letter-Gives scroll_up input s =
      then_next-Gives (program_of s) (scroll_up_command r s)
        (scroll_up_command-Shows (program_of s) r s refl)
  run_letter-Gives scroll_down input s =
      then_next-Gives (program_of s) (scroll_down_command r s)
        (scroll_down_command-Shows (program_of s) r s refl)
  run_letter-Gives _ input s = refl

  command-Gives :
      (input : Text) (s : State)
      → Gives (plain_command input (program_of s)) (command files r input s)
  unfolding command
  command-Gives [] s =
      then_on-Gives (program_of s) (enter r s) (enter-Shows (program_of s) r s refl)
  command-Gives (c ∷ rest) s = run_letter-Gives (letter c) (c ∷ rest) s

  read_command-Gives : (s : State) → Gives (plain_debug (program_of s)) (read_command files r s)
  unfolding read_command
  read_command-Gives s = go s.stdin
    where
      go :
          (lines : List Text)
          → Gives (plain_read lines (program_of s)) (elim lines [
            | [] ↦ some (end_loop, s)
            | line ∷ rest ↦ command files r (cut_newline line) (record s { stdin = rest })
          ])
      go [] = refl
      go (line ∷ rest) = command-Gives (cut_newline line) (record s { stdin = rest })

  prompted-Gives :
      (p : Program) (s : State)
      → Shows p s
      → Gives (plain_debug p) (read_command files r (prompted s))
  prompted-Gives p s h = rw (← h) (read_command-Gives (prompted s))

  pub debug-Gives :
      (list_file : Option Text) (s : State)
      → Gives (plain_debug (program_of s)) (debug files list_file r s)
  unfolding debug
  debug-Gives list_file s =
      IfSome-bind (Shows (program_of s))
        (λ (t : After × State). (t.0, program_of t.1) ≡ plain_debug (program_of s))
        (auto_open files list_file r s) (λ s'. read_command files r (prompted s'))
        (auto_open-Shows (program_of s) files list_file r s refl)
        (λ s' h. prompted-Gives (program_of s) s' h)
