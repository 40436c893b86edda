-- ===== src/Emulator/View.antt =====
-- What only changes the view of the program that runs: the tracer's window, the history and the texts.
use ben_eater.Common.{
  ℕ, ◌≡◌, Bool, true, ◌&&◌, ◌||◌, not, Option, some, List, Text, length, drop, ltb, if_both,
  if◌then◌else◌,
}
use ben_eater.Common.Chain.{IfSome, IfSome-bind, IfSome-then}
use ben_eater.Bus.{Machine}
use ben_eater.Symbols.{SymbolEntry}
use ben_eater.Breakpoints.{Breakpoints}
use ben_eater.CallStack.{CallStack}
use ben_eater.Monitors.{Monitors}
use ben_eater.Inspect.{Cpu, print_cpu_state_to_stream}
use ben_eater.Trace.{Trace, handle_trace_scroll_up, handle_trace_scroll_down}
use ben_eater.Tracer.{Tracer, update_tracer_display, render_tracer_window}
use ben_eater.Tracer.Window.{init_tracer_window}
use ben_eater.Emulator.{
  SdlEvent, Round, State, printed, logged, with_tracer, with_trace, show_pc, show_if_active,
}
use ben_eater.Emulator.Commands.{
  open_tracer, close_tracer, toggle_tracer, enter, scroll_up_command, after_scroll_down,
  scroll_down_command, open_list_file, auto_open, is_named, name_of,
}
use ben_eater.Emulator.Execute.{record_trace, report_state}

-- The state of the loop without the view: no window, no history, and nothing that is printed;
-- `queue` is what SDL still holds.
pub record Program : Type 0 where
  pub cpu : Cpu
  pub machine : Machine
  pub symbol_list : List SymbolEntry
  pub breakpoints : Breakpoints
  pub call_stack : CallStack
  pub monitors : Monitors
  pub queue : List SdlEvent
  pub stdin : List Text
  pub step_enabled : Bool
  pub break_loop : Bool
  pub loop_cnt : ℕ
  pub last_irq : ℕ
  pub total_cycles : ℕ
  pub irq_count : ℕ

abbrev pub program_of : State → Program
program_of s = record {
  cpu = s.cpu;
  machine = s.machine;
  symbol_list = s.symbol_list;
  breakpoints = s.breakpoints;
  call_stack = s.call_stack;
  monitors = s.monitors;
  queue = s.queue;
  stdin = s.stdin;
  step_enabled = s.step_enabled;
  break_loop = s.break_loop;
  loop_cnt = s.loop_cnt;
  last_irq = s.last_irq;
  total_cycles = s.total_cycles;
  irq_count = s.irq_count;
}

module _ (p : Program) where
  -- A state shows the program.
  abbrev pub Shows : State → Type 0
  Shows s = program_of s ≡ p

  show_pc-Shows : (window_height : ℕ) (s : State) → Shows s → IfSome Shows (show_pc window_height s)
  unfolding show_pc
  show_pc-Shows window_height s h =
      IfSome-then Shows
        (render_tracer_window window_height (update_tracer_display s.cpu.pc s.setup.tracer))
        (λ r. some (with_tracer r.0 s)) (λ r. h)

  pub show_if_active-Shows :
      (window_height : ℕ) (s : State) → Shows s → IfSome Shows (show_if_active window_height s)
  unfolding show_if_active
  show_if_active-Shows window_height s h =
      if_both (IfSome Shows) s.setup.tracer.is_active (show_pc window_height s) (some s)
        (show_pc-Shows window_height s h) h

  pub enter-Shows : (r : Round) (s : State) → Shows s → IfSome Shows (enter r s)
  unfolding enter
  enter-Shows r s h =
      if_both (IfSome Shows) s.setup.trace.scroll_mode _ (some s)
        (show_if_active-Shows r.window_height _ h) h

  pub scroll_up_command-Shows :
      (r : Round) (s : State) → Shows s → IfSome Shows (scroll_up_command r s)
  unfolding scroll_up_command
  scroll_up_command-Shows r s h =
      IfSome-then Shows (handle_trace_scroll_up r.window_height s.setup.trace s.setup.tracer)
        (λ t. some (printed t.2 (with_tracer t.1 (with_trace t.0 s)))) (λ t. h)

  after_scroll_down-Shows :
      (r : Round) (s : State) (t : Trace × Tracer × Text × Bool)
      → Shows s
      → IfSome Shows (after_scroll_down r s t)
  unfolding after_scroll_down
  after_scroll_down-Shows r s (trace, shown, out, left) h =
      let s' = printed out (with_tracer shown (with_trace trace s)) in
      if_both (IfSome Shows) left (show_if_active r.window_height s') (some s')
        (show_if_active-Shows r.window_height s' h) h

  pub scroll_down_command-Shows :
      (r : Round) (s : State) → Shows s → IfSome Shows (scroll_down_command r s)
  unfolding scroll_down_command
  scroll_down_command-Shows r s h =
      IfSome-then Shows (handle_trace_scroll_down r.window_height s.setup.trace s.setup.tracer)
        (after_scroll_down r s) (λ t. after_scroll_down-Shows r s t h)

  module _ (files : Text → Option Text) where
    open_tracer-Shows :
        (r : Round) (name : Text) (s : State) → Shows s → IfSome Shows (open_tracer files r name s)
    unfolding open_tracer
    open_tracer-Shows r name s h =
        if_both (IfSome Shows) ((init_tracer_window r.sdl (files name) s.setup).2) _ _
          (show_pc-Shows r.window_height _ h) h

    pub toggle_tracer-Shows :
        (r : Round) (input : Text) (s : State)
        → Shows s
        → IfSome Shows (toggle_tracer files r input s)
    unfolding toggle_tracer close_tracer
    toggle_tracer-Shows r input s h = if_both (IfSome Shows) s.setup.tracer.is_active _ _ h (
        if_both (IfSome Shows) (ltb 2 (length input)) _ _ (open_tracer-Shows r (drop 2 input) s h)
          h)

    open_list_file-Shows :
        (name : Text) (r : Round) (s : State)
        → Shows s
        → IfSome Shows (open_list_file files name r s)
    unfolding open_list_file
    open_list_file-Shows name r s h =
        if_both (IfSome Shows) (not (init_tracer_window r.sdl (files name) s.setup).2) _ _ h (
          IfSome-bind Shows Shows (show_pc r.window_height _)
            (λ s'. some (record s' { auto_tracer_opened = true }))
            (show_pc-Shows r.window_height _ h) (λ s' w. w))

    pub auto_open-Shows :
        (list_file : Option Text) (r : Round) (s : State)
        → Shows s
        → IfSome Shows (auto_open files list_file r s)
    unfolding auto_open
    auto_open-Shows list_file r s h =
        if_both (IfSome Shows) (not s.auto_tracer_opened && is_named list_file) _ (some s)
          (open_list_file-Shows (name_of list_file) r s h) h

  pub record_trace-Shows : (s : State) → Shows s → Shows (record_trace s)
  unfolding record_trace
  record_trace-Shows s h = if_both Shows (s.step_enabled || s.setup.trace.scroll_mode) _ s h h

  pub report_state-Shows : (s : State) → Shows s → IfSome Shows (report_state s)
  unfolding report_state
  report_state-Shows s h =
      IfSome-then Shows (print_cpu_state_to_stream s.cpu s.monitors s.machine.ram)
        (λ out. some (logged out (if s.step_enabled then printed out s else s)))
        (λ out. if_both (λ t. Shows (logged out t)) s.step_enabled (printed out s) s h h)
