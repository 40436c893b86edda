-- ===== src/Main.antt =====
-- tools/benEater_simulator/simulator.c: `main` and `initialize_sdl_and_lcd`. getopt_long is a library:
-- what it returns is a list of options. What goes to stderr is left out.
pub mod Before
pub mod Lookup
pub mod Options
pub mod Reached
pub mod Runs
pub mod Start
pub mod Total
mod Samples
use ben_eater.Common.{
  [], ℕ, ◌+◌, ◌%◌, ◌^◌, ◌-◌, Bool, true, false, not, Option, none, some, List, ◌∷◌, ◌++◌, Text,
  codes, hex4, fgets_lines, if◌then◌else◌,
}
use ben_eater.Common.Chain.{◌>>=◌}
use ben_eater.Common.Int.{pos}
use ben_eater.Bus.{Ram, LcdCall, draw, update_window, set_vectors}
use ben_eater.Symbols.{SymbolEntry}
use ben_eater.Symbols.Dictionary.{handle_symbol_lookup}
use ben_eater.Breakpoints.{Breakpoints}
use ben_eater.Inspect.{Cpu}
use ben_eater.Loader.{load_program_and_irq, cleared}
use ben_eater.Tracer.Window.{zeroed}
use ben_eater.Emulator.{Core, Round, State}
use ben_eater.Emulator.Loop.{Run, run_emulator_loop}

-- What getopt_long gives, with `optarg`.
pub data Opt : Type 0 where
  hex list break_symbol : Text → Opt
  question other : Opt

pub record Arguments : Type 0 where
  pub hex_file_path : Option Text
  pub list_file_path : Option Text
  pub break_symbol_name : Option Text

abbrev pub told : Text → Text → Text
told what optarg = what ++ codes " specified: " ++ optarg ++ codes "\n"

-- The loop over the options, with what it has printed; `none` is EXIT_FAILURE.
unfoldable pub parse_options : List Opt → Arguments → Text → Option (Arguments × Text)
parse_options [] a out = some (a, out)
parse_options (hex optarg ∷ opts) a out =
    parse_options opts (record a { hex_file_path = some optarg })
      (out ++ told (codes "Hex file") optarg)
parse_options (list optarg ∷ opts) a out =
    parse_options opts (record a { list_file_path = some optarg })
      (out ++ told (codes "List file") optarg)
parse_options (break_symbol optarg ∷ opts) a out =
    parse_options opts (record a { break_symbol_name = some optarg })
      (out ++ told (codes "Break symbol") optarg)
parse_options (question ∷ opts) a out = none
parse_options (other ∷ opts) a out = none

abbrev pub no_arguments : Arguments
no_arguments = record { hex_file_path = none; list_file_path = none; break_symbol_name = none }

-- Which calls for the LCD's window succeed: SDL_Init, SDL_CreateWindow, SDL_GetWindowSurface.
pub record LcdSdl : Type 0 where
  pub sdl_init : Bool
  pub create_window : Bool
  pub window_surface : Bool

pub data LcdSetup : Type 0 where
  started_sdl made_lcd_window made_lcd drew_lcd updated_window : LcdSetup
  quit_sdl destroyed_lcd_window : LcdSetup

unfoldable pub initialize_sdl_and_lcd : LcdSdl → List LcdSetup × Bool
initialize_sdl_and_lcd sdl =
    if not sdl.sdl_init
    then ([], false)
    else if not sdl.create_window
    then (started_sdl ∷ quit_sdl ∷ [], false)
    else if not sdl.window_surface
    then (started_sdl ∷ made_lcd_window ∷ destroyed_lcd_window ∷ quit_sdl ∷ [], false)
    else (started_sdl ∷ made_lcd_window ∷ made_lcd ∷ drew_lcd ∷ updated_window ∷ [], true)

-- What the LCD gets of these calls.
abbrev pub lcd_calls_of : List LcdSetup → List LcdCall
lcd_calls_of [] = []
lcd_calls_of (drew_lcd ∷ calls) = draw ∷ lcd_calls_of calls
lcd_calls_of (updated_window ∷ calls) = update_window ∷ lcd_calls_of calls
lcd_calls_of (_ ∷ calls) = lcd_calls_of calls

-- What surrounds a run: the files, whether the log opens, SDL, the terminal, and the rounds.
pub record World : Type 0 where
  pub files : Text → Option Text
  pub log_opens : Bool
  pub lcd_sdl : LcdSdl
  pub terminal : Text
  pub rounds : List Round

abbrev pub program_start_address : ℕ
program_start_address = 0x8000

abbrev pub irq_handler_address : ℕ
irq_handler_address = 0x0700

-- The argument `irq_cycle_interval` is an unsigned int, UINT_MAX where MAX_IRQ_INTERVAL is defined
-- and else 1000; the parameter of the loop has 16 bits.
abbrev pub irq_cycle_interval : Bool → ℕ
irq_cycle_interval max_irq_interval = if max_irq_interval then 2 ^ 32 - 1 else 1000

abbrev pub irq_interval : Bool → ℕ
irq_interval max_irq_interval = irq_cycle_interval max_irq_interval % 2 ^ 16

-- The globals before main, with the registers of the core as they are then.
abbrev pub globals : Cpu → Text → State
globals cpu terminal = record {
  cpu = cpu;
  machine = record { ram = cleared; lcd_calls = [] };
  symbol_list = [];
  breakpoints = record {
    breakpoints = λ i. record { address = 0; label = none };
    breakpoint_count = 0;
  };
  call_stack = record {
    call_stack = λ i. record { address = 0; label = none };
    call_stack_depth = 0;
  };
  monitors = record {
    monitor_addresses = λ i. record { address = 0; size = pos 0 };
    monitor_count = 0;
  };
  setup = record {
    tracer = zeroed;
    trace = record {
      is_allocated = false;
      trace_history =
          λ i. record { instruction = []; cpu_state = []; ram_state = []; pc_value = 0 };
      trace_history_size = 0;
      trace_history_capacity = 0;
      trace_scroll_index = none;
      scroll_mode = false;
    };
    window = false;
    renderer = false;
    font = false;
  };
  queue = [];
  sdl_calls = [];
  stdin = fgets_lines 59 59 terminal;
  stdout = [];
  log_file = [];
  step_enabled = false;
  break_loop = false;
  auto_tracer_opened = false;
  loop_cnt = 0;
  last_irq = 0;
  total_cycles = 0;
  irq_count = 0;
}

-- EXIT_FAILURE before the loop, or what the run of the loop comes to; behind it main returns
-- EXIT_SUCCESS.
pub data Exit : Type 0 where
  failure : Exit
  run : Run → Exit

abbrev pub found_list : (Text → Option Text) → Option Text → Option (Option Text)
found_list files none = none
found_list files (some path) = some (files path)

abbrev pub with_symbols : List SymbolEntry → Breakpoints → Text → State → State
with_symbols symbol_list table out s = record s {
  symbol_list = symbol_list;
  breakpoints = table;
  stdout = s.stdout ++ out;
}

abbrev pub lcd_set_up : LcdSdl → State → State
lcd_set_up sdl s =
    let calls = lcd_calls_of (initialize_sdl_and_lcd sdl).0 in
    record s { machine = record s.machine { lcd_calls = s.machine.lcd_calls ++ calls } }

-- What set_vectors writes to the log.
abbrev pub vectors_text : Text
vectors_text =
    codes "Vectors set: RESET = 0x"
    ++ hex4 program_start_address
    ++ codes ", IRQ = 0x"
    ++ hex4 irq_handler_address
    ++ codes "\n"

abbrev pub vectors_set : Ram → Ram
vectors_set = set_vectors program_start_address irq_handler_address

-- The vectors and the reset, on the memory that is loaded; `out` is what the loading has logged.
unfoldable pub reset_at : Core → Ram → Text → State → State
reset_at core ram out s =
    let (cpu, machine) = core.reset6502 s.cpu (record s.machine { ram = vectors_set ram }) in
    record s { cpu = cpu; machine = machine; log_file = s.log_file ++ out ++ vectors_text }

abbrev pub run_of : Option Run → Option Exit
run_of r = r >>= λ end. some (run end)

module _ (core : Core) (max_irq_interval : Bool) (w : World) where
  -- What main does with the result of load_program_and_irq.
  unfoldable pub run_loaded : Arguments → State → Ram × Text × Bool → Option Exit
  run_loaded a s (ram, out, loaded) =
      if not loaded
      then some failure
      else run_of (
          run_emulator_loop core w.files (irq_interval max_irq_interval) a.list_file_path w.rounds
            (reset_at core ram out s))

  unfoldable pub load_and_run : Text → Arguments → State → Option Exit
  load_and_run hex_file a s =
      load_program_and_irq w.log_opens (w.files hex_file) program_start_address irq_handler_address
      >>= run_loaded a s

  -- What main does with the result of handle_symbol_lookup.
  unfoldable pub run_with_symbols :
      Text → Arguments → State → List SymbolEntry × Breakpoints × Text × Bool → Option Exit
  run_with_symbols hex_file a s (symbol_list, table, out, found) =
      if not found
      then some failure
      else if not (initialize_sdl_and_lcd w.lcd_sdl).1
      then some failure
      else load_and_run hex_file a (lcd_set_up w.lcd_sdl (with_symbols symbol_list table out s))

  unfoldable pub set_up : Text → Arguments → State → Option Exit
  set_up hex_file a s =
      handle_symbol_lookup (found_list w.files a.list_file_path) a.break_symbol_name s.symbol_list
        s.breakpoints
      >>= run_with_symbols hex_file a s

  unfoldable pub with_arguments : Option (Arguments × Text) → State → Option Exit
  with_arguments none s = some failure
  with_arguments (some (a, out)) s = elim (a.hex_file_path) [
    | none ↦ some failure
    | some hex_file ↦ set_up hex_file a (record s { stdout = s.stdout ++ out })
  ]

  unfoldable pub main : List Opt → Cpu → Option Exit
  main opts cpu = with_arguments (parse_options opts no_arguments []) (globals cpu w.terminal)
