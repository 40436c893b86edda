-- ===== src/Emulator/Valid.antt =====
-- What holds in every round of the loop: the tables and the history of all the parts are valid.
pub mod Debug
pub mod Execute
pub mod Rounds
use ben_eater.Common.{
  ℕ, ◌-◌, ◌≤◌, Bool, false, Option, some, List, Text, length, drop, leb, ltb, ◌==◌, inl, inr,
  Bool-cases, Option-cases,
}
use ben_eater.Common.Chain.{IfSome, IfSome-bind, IfSome-then}
use ben_eater.Symbols.{SymbolEntry}
use ben_eater.Breakpoints.{Breakpoints}
use ben_eater.Breakpoints.Toggle
use ben_eater.Monitors.{Monitors}
use ben_eater.Monitors.Toggle as Monitored
use ben_eater.CallStack.{CallStack, max_call_stack, handle_up_command}
use ben_eater.Trace.{Trace, handle_trace_scroll_up, handle_trace_scroll_down}
use ben_eater.Trace.Scroll.{
  InHistory, init_trace_history-InHistory, leave_scroll_mode-InHistory,
  handle_trace_scroll_up-InHistory, handle_trace_scroll_down-InHistory,
}
use ben_eater.Tracer.Window.{Sdl, Setup, open_window, any_font, init_tracer_window, cleanup_tracer}
use ben_eater.Tracer.{Tracer, load_list_file, update_tracer_display, render_tracer_window}
use ben_eater.Emulator.{State, Round, printed, with_tracer, with_trace, show_pc, show_if_active}
use ben_eater.Emulator.Commands.{
  after_setup, open_tracer, close_tracer, toggle_tracer, enter, scroll_up_command,
  scroll_down_command, after_scroll_down, up_command,
}

-- The parts of the state that have an invariant.
pub record Valid (table : Breakpoints) (monitors : Monitors) (calls : CallStack) (trace : Trace)
    : Type 0 where
  pub breakpoints : Toggle.IsValid table
  pub monitored : Monitored.IsValid monitors
  pub call_stack : calls.call_stack_depth ≤ max_call_stack
  pub history : InHistory trace

abbrev pub IsValid : State → Type 0
IsValid s = Valid s.breakpoints s.monitors s.call_stack s.setup.trace

pub show_pc-IsValid :
    (window_height : ℕ) (s : State) → IsValid s → IfSome IsValid (show_pc window_height s)
unfolding show_pc
show_pc-IsValid window_height s v =
    IfSome-then IsValid
      (render_tracer_window window_height (update_tracer_display s.cpu.pc s.setup.tracer))
      (λ r. some (with_tracer r.0 s)) (λ _. v)

pub show_if_active-IsValid :
    (window_height : ℕ) (s : State) → IsValid s → IfSome IsValid (show_if_active window_height s)
unfolding show_if_active
show_if_active-IsValid window_height s v = elim (Bool-cases (s.setup.tracer.is_active)) [
  | inl e ↦ simp e (show_pc-IsValid window_height s v)
  | inr e ↦ simp e v
]

handle_up_command-IsValid :
    (symbol_list : List SymbolEntry) (sp : ℕ) (calls : CallStack) (table : Breakpoints)
    → Toggle.IsValid table
    → IfSome
        (λ (r : Breakpoints × Text). Toggle.IsValid r.0)
        (handle_up_command symbol_list sp calls table)
unfolding handle_up_command
handle_up_command-IsValid symbol_list sp calls table v = elim (Bool-cases (leb 255 sp)) [
  | inl e ↦ rw e v
  | inr e ↦ elim (Bool-cases (calls.call_stack_depth == 0)) [
    | inl f ↦ rw (e, f) tt
    | inr f ↦ rw (e, f) (Toggle.add_breakpoint-IsValid symbol_list _ _ table v)
  ]
]

open_window-InHistory :
    (sdl : Sdl) (setup : Setup) → InHistory setup.trace → InHistory (open_window sdl setup).0.trace
unfolding open_window
open_window-InHistory sdl setup h = elim (Bool-cases (sdl.ttf_init)) [
  | inr failed ↦ rw failed h
  | inl ttf ↦ elim (Bool-cases (sdl.create_window)) [
    | inr failed ↦ rw (ttf, failed) h
    | inl window ↦ elim (Bool-cases (sdl.create_renderer)) [
      | inr failed ↦ rw (ttf, window, failed) h
      | inl renderer ↦ elim (Bool-cases (any_font sdl)) [
        | inr failed ↦ rw (ttf, window, renderer, failed) h
        | inl font ↦ rw (ttf, window, renderer, font) (init_trace_history-InHistory setup.trace)
      ]
    ]
  ]
]

pub init_tracer_window-InHistory :
    (sdl : Sdl) (file : Option Text) (setup : Setup)
    → InHistory setup.trace
    → InHistory (init_tracer_window sdl file setup).0.trace
unfolding init_tracer_window
init_tracer_window-InHistory sdl file setup h =
    elim (Option-cases (load_list_file file setup.tracer)) [
      | inl e ↦ rw (e, init_tracer_window) h
      | inr (t, e) ↦
          rw (e, init_tracer_window) (open_window-InHistory sdl (record setup { tracer = t }) h)
    ]

pub with_history :
    (s : State) (t : Trace)
    → IsValid s
    → InHistory t
    → Valid s.breakpoints s.monitors s.call_stack t
with_history s t v h = record {
  breakpoints = v.breakpoints;
  monitored = v.monitored;
  call_stack = v.call_stack;
  history = h;
}

module _ (files : Text → Option Text) where
  pub after_setup-IsValid :
      (r : Round) (name : Text) (s : State)
      → IsValid s
      → IsValid (after_setup (init_tracer_window r.sdl (files name) s.setup) s)
  after_setup-IsValid r name s v = record {
    breakpoints = v.breakpoints;
    monitored = v.monitored;
    call_stack = v.call_stack;
    history = init_tracer_window-InHistory r.sdl (files name) s.setup v.history;
  }

  open_tracer-IsValid :
      (r : Round) (name : Text) (s : State)
      → IsValid s
      → IfSome IsValid (open_tracer files r name s)
  unfolding open_tracer
  open_tracer-IsValid r name s v =
      let v' = after_setup-IsValid r name s v in
      elim (Bool-cases ((init_tracer_window r.sdl (files name) s.setup).2)) [
        | inl e ↦ simp e (show_pc-IsValid r.window_height _ v')
        | inr e ↦ simp e v'
      ]

  close_tracer-IsValid : (s : State) → IsValid s → IsValid (close_tracer s)
  unfolding close_tracer cleanup_tracer
  close_tracer-IsValid s v = record {
    breakpoints = v.breakpoints;
    monitored = v.monitored;
    call_stack = v.call_stack;
    history = record { valid = λ e. cc; within = v.history.within };
  }

  pub toggle_tracer-IsValid :
      (r : Round) (input : Text) (s : State)
      → IsValid s
      → IfSome IsValid (toggle_tracer files r input s)
  unfolding toggle_tracer
  toggle_tracer-IsValid r input s v = elim (Bool-cases (s.setup.tracer.is_active)) [
    | inl e ↦ simp e (close_tracer-IsValid s v)
    | inr e ↦ elim (Bool-cases (ltb 2 (length input))) [
      | inl f ↦ simp (e, f) (open_tracer-IsValid r (drop 2 input) s v)
      | inr f ↦ simp (e, f) v
    ]
  ]

  pub enter-IsValid : (r : Round) (s : State) → IsValid s → IfSome IsValid (enter r s)
  unfolding enter
  enter-IsValid r s v = elim (Bool-cases (s.setup.trace.scroll_mode)) [
    | inl e ↦ simp e (
        show_if_active-IsValid r.window_height _ (record {
          breakpoints = v.breakpoints;
          monitored = v.monitored;
          call_stack = v.call_stack;
          history = leave_scroll_mode-InHistory s.setup.trace v.history;
        }))
    | inr e ↦ simp e v
  ]

  pub scroll_up_command-IsValid :
      (r : Round) (s : State) → IsValid s → IfSome IsValid (scroll_up_command r s)
  unfolding scroll_up_command
  scroll_up_command-IsValid r s v =
      IfSome-bind (λ (t : Trace × Tracer × Text). InHistory t.0) IsValid
        (handle_trace_scroll_up r.window_height s.setup.trace s.setup.tracer)
        (λ t. some (printed t.2 (with_tracer t.1 (with_trace t.0 s))))
        (handle_trace_scroll_up-InHistory r.window_height s.setup.trace s.setup.tracer v.history)
        (λ t h. with_history s t.0 v h)

  after_scroll_down-IsValid :
      (r : Round) (t : Trace × Tracer × Text × Bool) (s : State)
      → IsValid s
      → InHistory t.0
      → IfSome IsValid (after_scroll_down r s t)
  unfolding after_scroll_down
  after_scroll_down-IsValid r (trace, shown, out, left) s v h = elim (Bool-cases left) [
    | inl e ↦ rw e (
        show_if_active-IsValid r.window_height
          (printed out (with_tracer shown (with_trace trace s))) (with_history s trace v h))
    | inr e ↦ rw e (with_history s trace v h)
  ]

  pub scroll_down_command-IsValid :
      (r : Round) (s : State) → IsValid s → IfSome IsValid (scroll_down_command r s)
  unfolding scroll_down_command
  scroll_down_command-IsValid r s v =
      IfSome-bind (λ (t : Trace × Tracer × Text × Bool). InHistory t.0) IsValid
        (handle_trace_scroll_down r.window_height s.setup.trace s.setup.tracer)
        (after_scroll_down r s)
        (handle_trace_scroll_down-InHistory r.window_height s.setup.trace s.setup.tracer v.history)
        (λ t h. after_scroll_down-IsValid r t s v h)

  pub up_command-IsValid : (s : State) → IsValid s → IfSome IsValid (up_command s)
  unfolding up_command
  up_command-IsValid s v =
      IfSome-bind (λ (r : Breakpoints × Text). Toggle.IsValid r.0) IsValid
        (handle_up_command s.symbol_list s.cpu.sp s.call_stack s.breakpoints)
        (λ r. some (printed r.1 (record s { breakpoints = r.0; step_enabled = false })))
        (handle_up_command-IsValid s.symbol_list s.cpu.sp s.call_stack s.breakpoints v.breakpoints)
        (λ r h. record {
          breakpoints = h;
          monitored = v.monitored;
          call_stack = v.call_stack;
          history = v.history;
        })
