-- ===== src/Emulator/Windowless.antt =====
-- The debugger without the tracer's window: its commands come to a result.
pub mod Run
use ben_eater.Common.{
  [], ℕ, ◌-◌, ◌≡◌, refl, Bool, true, false, ◌&&◌, not, Option, none, some, List, ◌∷◌, Text, ◌==◌,
  inl, inr, Bool-cases,
}
use ben_eater.Common.Chain.{◌>>=◌, IsSome, OrElse-bind}
use ben_eater.Bus.{Ram}
use ben_eater.Symbols.{SymbolEntry}
use ben_eater.CallStack.{CallStack}
use ben_eater.Monitors.{Monitors}
use ben_eater.Inspect.{Cpu, print_call_stack}
use ben_eater.Inspect.Dump.{print_cpu_state_to_stream-tables}
use ben_eater.Trace.{Trace, handle_trace_scroll_up, handle_trace_scroll_down}
use ben_eater.Trace.Closed.{handle_trace_scroll_up-closed, handle_trace_scroll_down-closed}
use ben_eater.Tracer.{Tracer}
use ben_eater.Emulator.{
  State, After, Round, end_loop, printed, with_tracer, with_trace, show_if_active,
}
use ben_eater.Emulator.Commands.{
  Letter, help, resume, read, write, up, stack, breakpoint, search, monitor, tracer, scroll_up,
  scroll_down, unknown, letter, cut_newline, then_next, then_on, enter, scroll_up_command,
  after_scroll_down, scroll_down_command, run_letter, command, read_command, auto_open, is_named,
  prompted, debug,
}

-- The commands other than `u` and `v`.
abbrev pub is_harmless_letter : Letter → Bool
is_harmless_letter help = true
is_harmless_letter resume = true
is_harmless_letter read = true
is_harmless_letter write = true
is_harmless_letter up = false
is_harmless_letter stack = true
is_harmless_letter breakpoint = true
is_harmless_letter search = true
is_harmless_letter monitor = true
is_harmless_letter tracer = false
is_harmless_letter scroll_up = true
is_harmless_letter scroll_down = true
is_harmless_letter unknown = true

abbrev pub is_harmless : Text → Bool
is_harmless [] = true
is_harmless (c ∷ rest) = is_harmless_letter (letter c)

abbrev pub AllHarmless : List Text → Type 0
AllHarmless [] = Unit
AllHarmless (line ∷ lines) = (is_harmless (cut_newline line) ≡ true) × AllHarmless lines

-- No window is open, and no line that is left can open one or go up the call stack.
abbrev pub NoWindow : State → Type 0
NoWindow s = (s.setup.tracer.is_active ≡ false) × AllHarmless s.stdin

pub show_if_active-closed :
    (window_height : ℕ) (s : State)
    → s.setup.tracer.is_active ≡ false
    → show_if_active window_height s ≡ some s
unfolding show_if_active
show_if_active-closed window_height s closed = simp closed refl

show_closed :
    (window_height : ℕ) (s : State) → NoWindow s → IsSome NoWindow (show_if_active window_height s)
show_closed window_height s h = rw (show_if_active-closed window_height s h.0) h

enter-closed : (r : Round) (s : State) → NoWindow s → IsSome NoWindow (enter r s)
unfolding enter
enter-closed r s h = elim (Bool-cases (s.setup.trace.scroll_mode)) [
  | inl e ↦ simp e (show_closed r.window_height _ h)
  | inr e ↦ simp e h
]

scroll_up_command-closed :
    (r : Round) (s : State) → NoWindow s → IsSome NoWindow (scroll_up_command r s)
unfolding scroll_up_command
scroll_up_command-closed r s (closed, lines) =
    OrElse-bind ⊥ (λ (t : Trace × Tracer × Text). t.1.is_active ≡ false) NoWindow
      (handle_trace_scroll_up r.window_height s.setup.trace s.setup.tracer)
      (λ t. some (printed t.2 (with_tracer t.1 (with_trace t.0 s))))
      (handle_trace_scroll_up-closed r.window_height s.setup.tracer closed s.setup.trace)
      (λ t h. (h, lines))

after_scroll_down-closed :
    (r : Round) (s : State) (t : Trace × Tracer × Text × Bool)
    → t.1.is_active ≡ false
    → AllHarmless s.stdin
    → IsSome NoWindow (after_scroll_down r s t)
unfolding after_scroll_down
after_scroll_down-closed r s (trace, shown, out, left) h lines = elim (Bool-cases left) [
  | inl e ↦ rw e (
      show_closed r.window_height (printed out (with_tracer shown (with_trace trace s))) (h, lines))
  | inr e ↦ rw e (h, lines)
]

scroll_down_command-closed :
    (r : Round) (s : State) → NoWindow s → IsSome NoWindow (scroll_down_command r s)
unfolding scroll_down_command
scroll_down_command-closed r s (closed, lines) =
    OrElse-bind ⊥ (λ (t : Trace × Tracer × Text × Bool). t.1.is_active ≡ false) NoWindow
      (handle_trace_scroll_down r.window_height s.setup.trace s.setup.tracer)
      (after_scroll_down r s)
      (handle_trace_scroll_down-closed r.window_height s.setup.tracer closed s.setup.trace)
      (λ t h. after_scroll_down-closed r s t h lines)

-- Of what a command comes to, and that it comes to something.
abbrev pub IsDone : Option (After × State) → Type 0
IsDone = IsSome (λ (r : After × State). NoWindow r.1)

then_next-closed : (m : Option State) → IsSome NoWindow m → IsDone (then_next m)
then_next-closed none h = h
then_next-closed (some s) h = h

then_on-closed : (m : Option State) → IsSome NoWindow m → IsDone (then_on m)
then_on-closed none h = h
then_on-closed (some s) h = h

print_call_stack-prints :
    (symbol_list : List SymbolEntry) (calls : CallStack) (cpu : Cpu) (monitors : Monitors)
    (ram : Ram)
    → IsSome (λ out. Unit) (print_call_stack symbol_list calls cpu monitors ram)
unfolding print_call_stack
print_call_stack-prints symbol_list calls cpu monitors ram =
    elim (Bool-cases (calls.call_stack_depth == 0)) [
      | inl e ↦ rw e tt
      | inr e ↦ rw (e, print_cpu_state_to_stream-tables cpu monitors ram) tt
    ]

print_call_stack-IsDone :
    (m : Option Text) (s : State)
    → IsSome (λ out. Unit) m
    → NoWindow s
    → IsDone (then_next (m >>= λ out. some (printed out s)))
print_call_stack-IsDone (some out) s p h = h
print_call_stack-IsDone none s p h = p

not_opening : (opened named : Bool) → named ≡ false → (not opened && named) ≡ false
not_opening true named e = refl
not_opening false named e = e

module _ (files : Text → Option Text) where
  run_letter-IsDone :
      (l : Letter) (r : Round) (input : Text) (s : State)
      → is_harmless_letter l ≡ true
      → NoWindow s
      → IsDone (run_letter files l r input s)
  unfolding run_letter
  run_letter-IsDone help r input s e h = h
  run_letter-IsDone resume r input s e h = h
  run_letter-IsDone read r input s e h = h
  run_letter-IsDone write r input s e h = h
  run_letter-IsDone up r input s e h = cc
  run_letter-IsDone stack r input s e h =
      print_call_stack-IsDone
        (print_call_stack s.symbol_list s.call_stack s.cpu s.monitors s.machine.ram) s
        (print_call_stack-prints s.symbol_list s.call_stack s.cpu s.monitors s.machine.ram) h
  run_letter-IsDone breakpoint r input s e h = h
  run_letter-IsDone search r input s e h = h
  run_letter-IsDone monitor r input s e h = h
  run_letter-IsDone tracer r input s e h = cc
  run_letter-IsDone scroll_up r input s e h =
      then_next-closed (scroll_up_command r s) (scroll_up_command-closed r s h)
  run_letter-IsDone scroll_down r input s e h =
      then_next-closed (scroll_down_command r s) (scroll_down_command-closed r s h)
  run_letter-IsDone unknown r input s e h = h

  command-IsDone :
      (r : Round) (input : Text) (s : State)
      → is_harmless input ≡ true
      → NoWindow s
      → IsDone (command files r input s)
  unfolding command
  command-IsDone r [] s e h = then_on-closed (enter r s) (enter-closed r s h)
  command-IsDone r (c ∷ rest) s e h = run_letter-IsDone (letter c) r (c ∷ rest) s e h

  read_command-IsDone : (r : Round) (s : State) → NoWindow s → IsDone (read_command files r s)
  unfolding read_command
  read_command-IsDone r s (closed, harmless) = go s.stdin harmless
    where
      go :
          (lines : List Text)
          → AllHarmless lines
          → IsDone (elim lines [
            | [] ↦ some (end_loop, s)
            | line ∷ rest ↦ command files r (cut_newline line) (record s { stdin = rest })
          ])
      go [] h = (closed, harmless)
      go (line ∷ rest) (h, hs) =
          command-IsDone r (cut_newline line) (record s { stdin = rest }) h (closed, hs)

  pub debug-IsDone :
      (list_file : Option Text) (r : Round) (s : State)
      → is_named list_file ≡ false
      → NoWindow s
      → IsDone (debug files list_file r s)
  unfolding debug auto_open
  debug-IsDone list_file r s no_file h =
      simp (not_opening s.auto_tracer_opened (is_named list_file) no_file)
        (read_command-IsDone r (prompted s) h)
