-- ===== src/Emulator/Commands.antt =====
-- tools/benEater_simulator/simulator.c: the commands of the debugger, as the loop reads them.
use ben_eater.Common.{
  ℕ, Bool, true, false, ◌&&◌, not, Option, none, some, List, [], ◌∷◌, ◌++◌, Text, codes, drop,
  length, ltb, ◌==◌, if◌then◌else◌,
}
use ben_eater.Common.Chain.{◌>>=◌}
use ben_eater.Symbols.{handle_symbol_search_command}
use ben_eater.Breakpoints.{handle_breakpoint_command}
use ben_eater.CallStack.{handle_up_command}
use ben_eater.Monitors.{handle_memory_monitor_command}
use ben_eater.Disasm.{disassemble_current_instruction}
use ben_eater.Inspect.{handle_read_command, handle_write_command, print_call_stack, print_gdb_help}
use ben_eater.Tracer.{Tracer}
use ben_eater.Trace.{Trace, leave_scroll_mode, handle_trace_scroll_up, handle_trace_scroll_down}
use ben_eater.Tracer.Window.{init_tracer_window, setup_text, cleanup_tracer, Setup, SdlCall}
use ben_eater.Emulator.{
  Round, State, After, next_round, go_on, end_loop, printed, with_tracer, with_trace, show_pc,
  show_if_active,
}

-- input_buffer[strcspn(input_buffer, "\n")] = 0
unfoldable pub cut_newline : Text → Text
cut_newline [] = []
cut_newline (c ∷ s) = let rest = cut_newline s in if c == 10 then [] else c ∷ rest

-- The tests on the first letter.
pub data Letter : Type 0 where
  help resume read write up stack breakpoint search monitor tracer scroll_up scroll_down unknown :
      Letter

unfoldable pub letter : ℕ → Letter
letter c =
    if c == b'h'
    then help
    else if c == b'c'
    then resume
    else if c == b'r'
    then read
    else if c == b'w'
    then write
    else if c == b'u'
    then up
    else if c == b't'
    then stack
    else if c == b'b'
    then breakpoint
    else if c == b's'
    then search
    else if c == b'm'
    then monitor
    else if c == b'v'
    then tracer
    else if c == b'['
    then scroll_up
    else if c == b']'
    then scroll_down
    else unknown

-- The handles, the calls of SDL and the flag that a set-up of the tracer's window leaves.
abbrev pub after_setup : Setup × List SdlCall × Bool → State → State
after_setup (setup, calls, done) s = record s { setup = setup; sdl_calls = s.sdl_calls ++ calls }

-- The text of the `v` command where the window was opened.
abbrev pub opened_text : Text → Text
opened_text filename = codes "Tracer window opened with file: " ++ filename ++ codes "\n"

abbrev pub unknown_text : Text
unknown_text =
    codes "Unknown command. Available: enter, c, r, w, u, t, b, s, v (toggle tracer), [, ]\n"

-- An empty line: one step, out of the scroll mode.
unfoldable pub enter : Round → State → Option State
enter r s =
    if s.setup.trace.scroll_mode
    then show_if_active r.window_height (
        printed (codes "Exiting trace scroll mode\n")
          (with_trace (leave_scroll_mode s.setup.trace) s))
    else some s

unfoldable pub scroll_up_command : Round → State → Option State
scroll_up_command r s = do
  (trace, shown, out) ← handle_trace_scroll_up r.window_height s.setup.trace s.setup.tracer
  some (printed out (with_tracer shown (with_trace trace s)))

unfoldable pub after_scroll_down : Round → State → Trace × Tracer × Text × Bool → Option State
after_scroll_down r s (trace, shown, out, left) =
    let s' = printed out (with_tracer shown (with_trace trace s)) in
    if left then show_if_active r.window_height s' else some s'

unfoldable pub scroll_down_command : Round → State → Option State
scroll_down_command r s =
    handle_trace_scroll_down r.window_height s.setup.trace s.setup.tracer >>= after_scroll_down r s

unfoldable pub up_command : State → Option State
up_command s = do
  (table, out) ← handle_up_command s.symbol_list s.cpu.sp s.call_stack s.breakpoints
  some (printed out (record s { breakpoints = table; step_enabled = false }))

unfoldable pub close_tracer : State → State
close_tracer s =
    let (setup, calls) = cleanup_tracer s.setup in
    printed (codes "Tracer window closed\n")
      (record s { setup = setup; sdl_calls = s.sdl_calls ++ calls })

abbrev pub then_next : Option State → Option (After × State)
then_next m = m >>= λ s. some (next_round, s)

abbrev pub then_on : Option State → Option (After × State)
then_on m = m >>= λ s. some (go_on, s)

-- Whether a list file was named.
abbrev pub is_named : Option Text → Bool
is_named none = false
is_named (some name) = not (length name == 0)

abbrev pub name_of : Option Text → Text
name_of none = []
name_of (some name) = name

abbrev pub prompted : State → State
prompted s =
    printed ((disassemble_current_instruction s.cpu.pc s.machine.ram).0 ++ codes "\nDEBUG> ") s

-- `files` is the file system: what fopen finds under a name.
module _ (files : Text → Option Text) where
  -- Where `v` names a file.
  unfoldable pub open_tracer : Round → Text → State → Option State
  open_tracer r filename s =
      let made = init_tracer_window r.sdl (files filename) s.setup in
      let told = printed (setup_text r.sdl filename (files filename) s.setup.tracer) s in
      if made.2
      then show_pc r.window_height (printed (opened_text filename) (after_setup made told))
      else some (printed (codes "Failed to open tracer window\n") (after_setup made told))

  unfoldable pub toggle_tracer : Round → Text → State → Option State
  toggle_tracer r input s =
      if s.setup.tracer.is_active
      then some (close_tracer s)
      else if ltb 2 (length input)
      then open_tracer r (drop 2 input) s
      else some (printed (codes "Usage: v <list_file_path> (or 'v' to close active tracer)\n") s)

  -- The branch of a letter, on the whole line.
  unfoldable pub run_letter : Letter → Round → Text → State → Option (After × State)
  run_letter help r input s = some (next_round, printed print_gdb_help s)
  run_letter resume r input s =
      some (go_on, printed (codes "Continuing execution...\n") (record s { step_enabled = false }))
  run_letter read r input s = some (next_round, printed (handle_read_command s.machine.ram input) s)
  run_letter write r input s =
      let (ram, out) = handle_write_command input s.machine.ram in
      some (next_round, printed out (record s { machine = record s.machine { ram = ram } }))
  run_letter up r input s = then_on (up_command s)
  run_letter stack r input s = then_next (do
    out ← print_call_stack s.symbol_list s.call_stack s.cpu s.monitors s.machine.ram
    some (printed out s))
  run_letter breakpoint r input s =
      let (table, out) = handle_breakpoint_command s.symbol_list input s.breakpoints in
      some (next_round, printed out (record s { breakpoints = table }))
  run_letter search r input s =
      some (next_round, printed (handle_symbol_search_command s.symbol_list input) s)
  run_letter monitor r input s =
      let (table, out) = handle_memory_monitor_command input s.monitors in
      some (next_round, printed out (record s { monitors = table }))
  run_letter tracer r input s = then_next (toggle_tracer r input s)
  run_letter scroll_up r input s = then_next (scroll_up_command r s)
  run_letter scroll_down r input s = then_next (scroll_down_command r s)
  run_letter unknown r input s = some (next_round, printed unknown_text s)

  unfoldable pub command : Round → Text → State → Option (After × State)
  command r [] s = then_on (enter r s)
  command r (c ∷ rest) s = run_letter (letter c) r (c ∷ rest) s

  -- fgets and what follows; the loop ends where there is no more input.
  unfoldable pub read_command : Round → State → Option (After × State)
  read_command r s = elim (s.stdin) [
    | [] ↦ some (end_loop, s)
    | line ∷ lines ↦ command r (cut_newline line) (record s { stdin = lines })
  ]

  unfoldable pub open_list_file : Text → Round → State → Option State
  open_list_file list_file r s =
      let made = init_tracer_window r.sdl (files list_file) s.setup in
      let told = printed (setup_text r.sdl list_file (files list_file) s.setup.tracer) s in
      if not made.2
      then some (printed (codes "Failed to auto-open tracer window\n") (after_setup made told))
      else (do
        s' ← show_pc r.window_height (
            printed (codes "Auto-opened tracer window with file: " ++ list_file ++ codes "\n")
              (after_setup made told))
        some (record s' { auto_tracer_opened = true }))

  -- The tracer's window opens by itself when the debugger is first entered.
  unfoldable pub auto_open : Option Text → Round → State → Option State
  auto_open list_file r s =
      if not s.auto_tracer_opened && is_named list_file
      then open_list_file (name_of list_file) r s
      else some s

  -- The part of a round under `if (step_enabled)`.
  unfoldable pub debug : Option Text → Round → State → Option (After × State)
  debug list_file r s = do s' ← auto_open list_file r s; read_command r (prompted s')
