-- ===== src/Emulator/Handles/Debug.antt =====
-- The commands of the debugger free nothing that is not there.
use ben_eater.Common.{
  ℕ, refl, Bool, true, false, ◌&&◌, not, Option, none, some, List, [], ◌∷◌, Text, length, drop, ltb,
  inl, inr, Bool-cases,
}
use ben_eater.Common.Chain.{◌>>=◌, IfSome, IfSome-bind, IfSome-then}
use ben_eater.CallStack.{handle_up_command}
use ben_eater.Inspect.{print_call_stack}
use ben_eater.Trace.{Trace, handle_trace_scroll_up, handle_trace_scroll_down}
use ben_eater.Tracer.{Tracer, update_tracer_display, render_tracer_window}
use ben_eater.Tracer.Window.{init_tracer_window}
use ben_eater.Emulator.{
  Round, State, After, end_loop, printed, with_tracer, with_trace, show_pc, show_if_active,
}
use ben_eater.Emulator.Commands.{
  Letter, up, stack, tracer, scroll_up, scroll_down, letter, cut_newline, then_next, then_on,
  open_tracer, toggle_tracer, enter, after_scroll_down, scroll_up_command, scroll_down_command,
  up_command, run_letter, command, read_command, open_list_file, auto_open, is_named, name_of,
  prompted, debug,
}
use ben_eater.Emulator.Handles.{
  AllMake, IsHeld, same-Holds, after_setup-IsHeld, close_tracer-IsHeld,
}

-- Only the tracer and the history are others.
pub with_tracer-IsHeld : (s : State) (t : Tracer) → IsHeld s → IsHeld (with_tracer t s)
with_tracer-IsHeld s t = same-Holds s.setup _ s.sdl_calls refl refl refl

pub with_trace-IsHeld : (s : State) (t : Trace) → IsHeld s → IsHeld (with_trace t s)
with_trace-IsHeld s t = same-Holds s.setup _ s.sdl_calls refl refl refl

show_pc-IsHeld :
    (window_height : ℕ) (s : State) → IsHeld s → IfSome IsHeld (show_pc window_height s)
unfolding show_pc
show_pc-IsHeld window_height s h =
    IfSome-then IsHeld
      (render_tracer_window window_height (update_tracer_display s.cpu.pc s.setup.tracer))
      (λ r. some (with_tracer r.0 s)) (λ r. with_tracer-IsHeld s r.0 h)

pub show_if_active-IsHeld :
    (window_height : ℕ) (s : State) → IsHeld s → IfSome IsHeld (show_if_active window_height s)
unfolding show_if_active
show_if_active-IsHeld window_height s h = elim (Bool-cases (s.setup.tracer.is_active)) [
  | inl e ↦ simp e (show_pc-IsHeld window_height s h)
  | inr e ↦ simp e h
]

enter-IsHeld : (r : Round) (s : State) → IsHeld s → IfSome IsHeld (enter r s)
unfolding enter
enter-IsHeld r s h = elim (Bool-cases (s.setup.trace.scroll_mode)) [
  | inl e ↦ simp e (show_if_active-IsHeld r.window_height _ (with_trace-IsHeld s _ h))
  | inr e ↦ simp e h
]

scroll_up_command-IsHeld :
    (r : Round) (s : State) → IsHeld s → IfSome IsHeld (scroll_up_command r s)
unfolding scroll_up_command
scroll_up_command-IsHeld r s h =
    IfSome-then IsHeld (handle_trace_scroll_up r.window_height s.setup.trace s.setup.tracer)
      (λ t. some (printed t.2 (with_tracer t.1 (with_trace t.0 s))))
      (λ t. with_tracer-IsHeld (with_trace t.0 s) t.1 (with_trace-IsHeld s t.0 h))

after_scroll_down-IsHeld :
    (r : Round) (s : State) (t : Trace × Tracer × Text × Bool)
    → IsHeld s
    → IfSome IsHeld (after_scroll_down r s t)
unfolding after_scroll_down
after_scroll_down-IsHeld r s (trace, shown, out, left) h =
    let h' = with_tracer-IsHeld (with_trace trace s) shown (with_trace-IsHeld s trace h) in
    elim (Bool-cases left) [
      | inl e ↦ rw e (
          show_if_active-IsHeld r.window_height
            (printed out (with_tracer shown (with_trace trace s))) h')
      | inr e ↦ rw e h'
    ]

scroll_down_command-IsHeld :
    (r : Round) (s : State) → IsHeld s → IfSome IsHeld (scroll_down_command r s)
unfolding scroll_down_command
scroll_down_command-IsHeld r s h =
    IfSome-then IsHeld (handle_trace_scroll_down r.window_height s.setup.trace s.setup.tracer)
      (after_scroll_down r s) (λ t. after_scroll_down-IsHeld r s t h)

up_command-IsHeld : (s : State) → IsHeld s → IfSome IsHeld (up_command s)
unfolding up_command
up_command-IsHeld s h =
    IfSome-then IsHeld (handle_up_command s.symbol_list s.cpu.sp s.call_stack s.breakpoints)
      (λ r. some (printed r.1 (record s { breakpoints = r.0; step_enabled = false }))) (λ r. h)

-- Of what a command comes to.
abbrev pub IsHeldAfter : Option (After × State) → Type 0
IsHeldAfter = IfSome (λ (t : After × State). IsHeld t.1)

then_next-IsHeld : (m : Option State) → IfSome IsHeld m → IsHeldAfter (then_next m)
then_next-IsHeld none h = tt
then_next-IsHeld (some s) h = h

then_on-IsHeld : (m : Option State) → IfSome IsHeld m → IsHeldAfter (then_on m)
then_on-IsHeld none h = tt
then_on-IsHeld (some s) h = h

module _ (files : Text → Option Text) (r : Round) (makes : AllMake r) where
  open_tracer-IsHeld :
      (name : Text) (s : State) → IsHeld s → IfSome IsHeld (open_tracer files r name s)
  unfolding open_tracer
  open_tracer-IsHeld name s h =
      let h' = after_setup-IsHeld r.sdl (files name) s makes h in
      elim (Bool-cases ((init_tracer_window r.sdl (files name) s.setup).2)) [
        | inl e ↦ simp e (show_pc-IsHeld r.window_height _ h')
        | inr e ↦ simp e h'
      ]

  toggle_tracer-IsHeld :
      (input : Text) (s : State) → IsHeld s → IfSome IsHeld (toggle_tracer files r input s)
  unfolding toggle_tracer
  toggle_tracer-IsHeld input s h = elim (Bool-cases (s.setup.tracer.is_active)) [
    | inl e ↦ simp e (close_tracer-IsHeld s h)
    | inr e ↦ elim (Bool-cases (ltb 2 (length input))) [
      | inl f ↦ simp (e, f) (open_tracer-IsHeld (drop 2 input) s h)
      | inr f ↦ simp (e, f) h
    ]
  ]

  run_letter-IsHeld :
      (l : Letter) (input : Text) (s : State)
      → IsHeld s
      → IsHeldAfter (run_letter files l r input s)
  unfolding run_letter
  run_letter-IsHeld up input s h = then_on-IsHeld (up_command s) (up_command-IsHeld s h)
  run_letter-IsHeld stack input s h =
      then_next-IsHeld
        (print_call_stack s.symbol_list s.call_stack s.cpu s.monitors s.machine.ram >>= λ out.
          some (printed out s))
        (IfSome-then IsHeld
          (print_call_stack s.symbol_list s.call_stack s.cpu s.monitors s.machine.ram)
          (λ out. some (printed out s)) (λ out. h))
  run_letter-IsHeld tracer input s h =
      then_next-IsHeld (toggle_tracer files r input s) (toggle_tracer-IsHeld input s h)
  run_letter-IsHeld scroll_up input s h =
      then_next-IsHeld (scroll_up_command r s) (scroll_up_command-IsHeld r s h)
  run_letter-IsHeld scroll_down input s h =
      then_next-IsHeld (scroll_down_command r s) (scroll_down_command-IsHeld r s h)
  run_letter-IsHeld _ input s h = h

  command-IsHeld : (input : Text) (s : State) → IsHeld s → IsHeldAfter (command files r input s)
  unfolding command
  command-IsHeld [] s h = then_on-IsHeld (enter r s) (enter-IsHeld r s h)
  command-IsHeld (c ∷ rest) s h = run_letter-IsHeld (letter c) (c ∷ rest) s h

  read_command-IsHeld : (s : State) → IsHeld s → IsHeldAfter (read_command files r s)
  unfolding read_command
  read_command-IsHeld s h = go s.stdin
    where
      go :
          (lines : List Text)
          → IsHeldAfter (elim lines [
            | [] ↦ some (end_loop, s)
            | line ∷ rest ↦ command files r (cut_newline line) (record s { stdin = rest })
          ])
      go [] = h
      go (line ∷ rest) = command-IsHeld (cut_newline line) (record s { stdin = rest }) h

  open_list_file-IsHeld :
      (name : Text) (s : State) → IsHeld s → IfSome IsHeld (open_list_file files name r s)
  unfolding open_list_file
  open_list_file-IsHeld name s h =
      let h' = after_setup-IsHeld r.sdl (files name) s makes h in
      elim (Bool-cases ((init_tracer_window r.sdl (files name) s.setup).2)) [
        | inl e ↦ simp e (
            IfSome-bind IsHeld IsHeld (show_pc r.window_height _)
              (λ s'. some (record s' { auto_tracer_opened = true }))
              (show_pc-IsHeld r.window_height _ h') (λ s' w. w))
        | inr e ↦ simp e h'
      ]

  auto_open-IsHeld :
      (list_file : Option Text) (s : State)
      → IsHeld s
      → IfSome IsHeld (auto_open files list_file r s)
  unfolding auto_open
  auto_open-IsHeld list_file s h =
      elim (Bool-cases (not s.auto_tracer_opened && is_named list_file)) [
        | inl e ↦ simp e (open_list_file-IsHeld (name_of list_file) s h)
        | inr e ↦ simp e h
      ]

  pub debug-IsHeld :
      (list_file : Option Text) (s : State) → IsHeld s → IsHeldAfter (debug files list_file r s)
  unfolding debug
  debug-IsHeld list_file s h =
      IfSome-bind IsHeld (λ (t : After × State). IsHeld t.1) (auto_open files list_file r s)
        (λ s'. read_command files r (prompted s')) (auto_open-IsHeld list_file s h)
        (λ s' w. read_command-IsHeld (prompted s') w)
