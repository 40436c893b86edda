-- ===== src/Emulator/Valid/Debug.antt =====
-- Every command of the debugger keeps the state valid.
use ben_eater.Common.{
  true, ◌&&◌, not, Option, none, some, List, [], ◌∷◌, Text, inl, inr, Bool-cases,
}
use ben_eater.Common.Chain.{◌>>=◌, IfSome, IfSome-bind}
use ben_eater.Breakpoints.Command.{handle_breakpoint_command-IsValid}
use ben_eater.Monitors.Toggle.{handle_memory_monitor_command-IsValid}
use ben_eater.Inspect.{print_call_stack}
use ben_eater.Tracer.Window.{init_tracer_window}
use ben_eater.Emulator.{State, After, Round, end_loop, printed, show_pc}
use ben_eater.Emulator.Commands.{
  Letter, help, resume, read, write, up, stack, breakpoint, search, monitor, tracer, scroll_up,
  scroll_down, unknown, letter, cut_newline, then_next, then_on, toggle_tracer, enter,
  scroll_up_command, scroll_down_command, up_command, run_letter, command, read_command,
  open_list_file, auto_open, is_named, name_of, prompted, debug,
}
use ben_eater.Emulator.Valid.{
  IsValid, show_pc-IsValid, after_setup-IsValid, toggle_tracer-IsValid, enter-IsValid,
  scroll_up_command-IsValid, scroll_down_command-IsValid, up_command-IsValid,
}

-- Of the state that a part of a round leaves.
abbrev pub IsValidAfter : Option (After × State) → Type 0
IsValidAfter = IfSome (λ (r : After × State). IsValid r.1)

then_next-IsValid : (m : Option State) → IfSome IsValid m → IsValidAfter (then_next m)
then_next-IsValid none v = tt
then_next-IsValid (some s) v = v

then_on-IsValid : (m : Option State) → IfSome IsValid m → IsValidAfter (then_on m)
then_on-IsValid none v = tt
then_on-IsValid (some s) v = v

print_call_stack-IsValid :
    (m : Option Text) (s : State)
    → IsValid s
    → IsValidAfter (then_next (m >>= λ out. some (printed out s)))
print_call_stack-IsValid none s v = tt
print_call_stack-IsValid (some out) s v = v

module _ (files : Text → Option Text) where
  run_letter-IsValid :
      (l : Letter) (r : Round) (input : Text) (s : State)
      → IsValid s
      → IsValidAfter (run_letter files l r input s)
  unfolding run_letter
  run_letter-IsValid help r input s v = v
  run_letter-IsValid resume r input s v = v
  run_letter-IsValid read r input s v = v
  run_letter-IsValid write r input s v = v
  run_letter-IsValid up r input s v = then_on-IsValid (up_command s) (up_command-IsValid files s v)
  run_letter-IsValid stack r input s v =
      print_call_stack-IsValid
        (print_call_stack s.symbol_list s.call_stack s.cpu s.monitors s.machine.ram) s v
  run_letter-IsValid breakpoint r input s v = record {
    breakpoints = handle_breakpoint_command-IsValid s.symbol_list input s.breakpoints v.breakpoints;
    monitored = v.monitored;
    call_stack = v.call_stack;
    history = v.history;
  }
  run_letter-IsValid search r input s v = v
  run_letter-IsValid monitor r input s v = record {
    breakpoints = v.breakpoints;
    monitored = handle_memory_monitor_command-IsValid input s.monitors v.monitored;
    call_stack = v.call_stack;
    history = v.history;
  }
  run_letter-IsValid tracer r input s v =
      then_next-IsValid (toggle_tracer files r input s) (toggle_tracer-IsValid files r input s v)
  run_letter-IsValid scroll_up r input s v =
      then_next-IsValid (scroll_up_command r s) (scroll_up_command-IsValid files r s v)
  run_letter-IsValid scroll_down r input s v =
      then_next-IsValid (scroll_down_command r s) (scroll_down_command-IsValid files r s v)
  run_letter-IsValid unknown r input s v = v

  command-IsValid :
      (r : Round) (input : Text) (s : State) → IsValid s → IsValidAfter (command files r input s)
  unfolding command
  command-IsValid r [] s v = then_on-IsValid (enter r s) (enter-IsValid files r s v)
  command-IsValid r (c ∷ rest) s v = run_letter-IsValid (letter c) r (c ∷ rest) s v

  read_command-IsValid : (r : Round) (s : State) → IsValid s → IsValidAfter (read_command files r s)
  unfolding read_command
  read_command-IsValid r s v = go s.stdin
    where
      go :
          (lines : List Text)
          → IsValidAfter (elim lines [
            | [] ↦ some (end_loop, s)
            | line ∷ rest ↦ command files r (cut_newline line) (record s { stdin = rest })
          ])
      go [] = v
      go (line ∷ rest) = command-IsValid r (cut_newline line) (record s { stdin = rest }) v

  open_list_file-IsValid :
      (name : Text) (r : Round) (s : State)
      → IsValid s
      → IfSome IsValid (open_list_file files name r s)
  unfolding open_list_file
  open_list_file-IsValid name r s v =
      let v' = after_setup-IsValid files r name s v in
      elim (Bool-cases ((init_tracer_window r.sdl (files name) s.setup).2)) [
        | inl e ↦ simp e (
            IfSome-bind IsValid IsValid (show_pc r.window_height _)
              (λ s'. some (record s' { auto_tracer_opened = true }))
              (show_pc-IsValid r.window_height _ v') (λ s' w. w))
        | inr e ↦ simp e v'
      ]

  auto_open-IsValid :
      (list_file : Option Text) (r : Round) (s : State)
      → IsValid s
      → IfSome IsValid (auto_open files list_file r s)
  unfolding auto_open
  auto_open-IsValid list_file r s v =
      elim (Bool-cases (not s.auto_tracer_opened && is_named list_file)) [
        | inl e ↦ simp e (open_list_file-IsValid (name_of list_file) r s v)
        | inr e ↦ simp e v
      ]

  pub debug-IsValid :
      (list_file : Option Text) (r : Round) (s : State)
      → IsValid s
      → IsValidAfter (debug files list_file r s)
  unfolding debug
  debug-IsValid list_file r s v =
      IfSome-bind IsValid (λ (t : After × State). IsValid t.1) (auto_open files list_file r s)
        (λ s'. read_command files r (prompted s')) (auto_open-IsValid list_file r s v)
        (λ s' w. read_command-IsValid r (prompted s') w)
