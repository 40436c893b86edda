-- ===== src/Emulator.antt =====
-- tools/benEater_simulator/simulator.c: `run_emulator_loop`, over all the parts of the simulator. The
-- CPU core is a library and SDL, the terminal and the file system are the world: what they do is an
-- argument. `none` is a read or a write outside an array of the program.
pub mod Commands
pub mod Execute
pub mod Loop
pub mod Invariant
pub mod Program
pub mod Steps
pub mod Valid
pub mod Windowless
pub mod Toy
pub mod Timing
pub mod Rate
pub mod Calls
pub mod Handles
pub mod View
pub mod Plain
pub mod Free
pub mod Paused
pub mod Stops
mod Samples
use ben_eater.Common.{[], ℕ, ◌+◌, Bool, Option, some, List, ◌∷◌, ◌++◌, Text, ◌==◌, if◌then◌else◌}
use ben_eater.Common.Chain.{◌>>=◌}
use ben_eater.Bus.{Machine}
use ben_eater.Symbols.{SymbolEntry}
use ben_eater.Breakpoints.{Breakpoints}
use ben_eater.CallStack.{CallStack}
use ben_eater.Monitors.{Monitors}
use ben_eater.Inspect.{Cpu}
use ben_eater.Tracer.{Tracer, update_tracer_display, render_tracer_window}
use ben_eater.Trace.{Trace}
use ben_eater.Tracer.Scroll.{
  TracerEvent, quit, resized, key_up, key_down, key_page_up, key_page_down, other,
}
use ben_eater.Tracer.Window.{Sdl, SdlCall, Setup}

-- The functions of the CPU core that the simulator calls, on the registers and on what read6502 and
-- write6502 reach. `exec6502` is its call with one tick, with `clockticks6502` as it leaves it.
pub record Core : Type 0 where
  pub exec6502 : Cpu → Machine → Cpu × Machine × ℕ
  pub irq6502 : Cpu → Machine → Cpu × Machine
  pub reset6502 : Cpu → Machine → Cpu × Machine

-- An event of SDL: for a key its code, and whether it came with KMOD_CTRL.
pub data SdlEvent : Type 0 where
  sdl_quit window_resized sdl_other : SdlEvent
  key_down_event : ℕ → Bool → SdlEvent

-- How `handle_tracer_events` takes an event, by the codes SDLK_UP, SDLK_DOWN, SDLK_PAGEUP and
-- SDLK_PAGEDOWN.
abbrev pub tracer_event : SdlEvent → TracerEvent
tracer_event sdl_quit = quit
tracer_event window_resized = resized
tracer_event sdl_other = other
tracer_event (key_down_event key ctrl) =
    if key == 0x40000052
    then key_up
    else if key == 0x40000051
    then key_down
    else if key == 0x4000004B
    then key_page_up
    else if key == 0x4000004E
    then key_page_down
    else other

abbrev pub tracer_events : List SdlEvent → List TracerEvent
tracer_events [] = []
tracer_events (e ∷ es) = tracer_event e ∷ tracer_events es

-- What the world does in a round of the loop: whether a signal has set `quit_flag` before it, the
-- events that come to SDL's queue until the first loop over SDL_PollEvent (in a round that gets there),
-- those that come until the second one, the height of the tracer's window, and how SDL answers when that window is made.
pub record Round : Type 0 where
  pub quit_flag : Bool
  pub polled : List SdlEvent
  pub arrived : List SdlEvent
  pub window_height : ℕ
  pub sdl : Sdl

-- The globals and the variables of the loop. `queue` holds the events that SDL still has, `stdin` holds what each call of fgets will give, and
-- `sdl_calls` the calls that make and free the tracer's window.
pub record State : Type 0 where
  pub cpu : Cpu
  pub machine : Machine
  pub symbol_list : List SymbolEntry
  pub breakpoints : Breakpoints
  pub call_stack : CallStack
  pub monitors : Monitors
  pub setup : Setup
  pub queue : List SdlEvent
  pub sdl_calls : List SdlCall
  pub stdin : List Text
  pub stdout : Text
  pub log_file : Text
  pub step_enabled : Bool
  pub break_loop : Bool
  pub auto_tracer_opened : Bool
  pub loop_cnt : ℕ
  pub last_irq : ℕ
  pub total_cycles : ℕ
  pub irq_count : ℕ

-- How a part of a round ends: the next round begins (`continue`), the round goes on, or the loop ends.
pub data After : Type 0 where
  next_round go_on end_loop : After

abbrev pub printed : Text → State → State
printed out s = record s { stdout = s.stdout ++ out }

abbrev pub logged : Text → State → State
logged out s = record s { log_file = s.log_file ++ out }

abbrev pub with_tracer : Tracer → State → State
with_tracer tracer s = record s { setup = record s.setup { tracer = tracer } }

abbrev pub with_trace : Trace → State → State
with_trace trace s = record s { setup = record s.setup { trace = trace } }

-- update_tracer_display(pc); render_tracer_window();
unfoldable pub show_pc : ℕ → State → Option State
show_pc window_height s = do
  (tracer, rows) ←
      render_tracer_window window_height (update_tracer_display s.cpu.pc s.setup.tracer)
  some (with_tracer tracer s)

-- The same behind `if (tracer.is_active)`.
unfoldable pub show_if_active : ℕ → State → Option State
unfolding show_pc
show_if_active window_height s =
    if s.setup.tracer.is_active then show_pc window_height s else some s
