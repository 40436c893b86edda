-- ===== src/Main/Start.antt =====
-- How main comes to the loop, and with what.
use ben_eater.Common.{
  ◌≡◌, ◌⊎◌, refl, fgets_lines, Bool, true, false, Option, none, some, List, [], ◌∷◌, Text, arith,
  inl, inr, Bool-cases, Option-cases,
}
use ben_eater.Bus.{Ram, draw, update_window}
use ben_eater.HexFile.{load_hex_file}
use ben_eater.Symbols.{SymbolEntry}
use ben_eater.Symbols.Dictionary.{create_symbol_dictionary, handle_symbol_lookup}
use ben_eater.Breakpoints.{Breakpoints}
use ben_eater.Breakpoints.Toggle
use ben_eater.Inspect.{Cpu}
use ben_eater.Loader.{cleared, load_program_and_irq}
use ben_eater.Loader.Memory.{Filled, load_program_and_irq-Filled}
use ben_eater.Emulator.{Core, State, printed}
use ben_eater.Emulator.Loop.{run_emulator_loop}
use ben_eater.Emulator.Handles.Run.{Unheld}
use ben_eater.Emulator.Valid.{IsValid}
use ben_eater.Main.Before.{
  AtStart, lcd_calls_of-initialize, globals-AtStart, printed-AtStart, with_symbols-AtStart,
}
use ben_eater.Main.Lookup.{handle_symbol_lookup-IsValid, overrun_file, nothing_read}
use ben_eater.Main.{
  Opt, Arguments, World, lcd_set_up, initialize_sdl_and_lcd, program_start_address,
  irq_handler_address, irq_interval, globals, Exit, failure, found_list, with_symbols, vectors_set,
  reset_at, run_of, run_loaded, load_and_run, run_with_symbols, set_up, with_arguments,
  parse_options, no_arguments, main,
}

-- What is settled when the loop begins: the arguments, the state, and how they came about.
pub record Ready (core : Core) (w : World) (cpu : Cpu) (a : Arguments) (s : State) : Type 0 where
  pub path : Text
  pub named : a.hex_file_path ≡ some path
  pub file : Text
  pub found : w.files path ≡ some file
  pub log_opens : w.log_opens ≡ true
  pub lcd : (initialize_sdl_and_lcd w.lcd_sdl).1 ≡ true
  pub valid : IsValid s
  pub closed : s.setup.tracer.is_active ≡ false
  pub unheld : Unheld s
  pub typed : s.stdin ≡ fgets_lines 59 59 w.terminal
  pub ram : Ram
  pub filled : Filled file program_start_address irq_handler_address ram
  pub reset :
      (s.cpu, s.machine)
      ≡ core.reset6502 cpu (record { ram = vectors_set ram; lcd_calls = draw ∷ update_window ∷ [] })

not_loaded :
    (log_opens : Bool) (file : Option Text)
    → (log_opens ≡ false) ⊎ (file ≡ none)
    → load_program_and_irq log_opens file program_start_address irq_handler_address
      ≡ some (cleared, [], false)
unfolding load_program_and_irq load_hex_file
not_loaded false file h = refl
not_loaded true none h = refl
not_loaded true (some file) (inl e) = cc
not_loaded true (some file) (inr p) = cc

abbrev pub loop_run : Core → Bool → World → Arguments → State → Option Exit
loop_run core max_irq_interval w a s =
    run_of
      (run_emulator_loop core w.files (irq_interval max_irq_interval) a.list_file_path w.rounds s)

module _ (core : Core) (max_irq_interval : Bool) (w : World) (cpu : Cpu) where
  -- What main comes to behind the symbols: a failure, or the loop.
  abbrev pub Started : Arguments → Option Exit → Type 0
  Started a e =
      (e ≡ some failure)
      ⊎ ((s : State) × Ready core w cpu a s × (e ≡ loop_run core max_irq_interval w a s))

  -- A name of the list file runs over its buffer while main reads the symbols.
  abbrev pub Overrun : Arguments → Option Exit → Type 0
  Overrun a e =
      (path : Text) × (a.list_file_path ≡ some path)
      × (create_symbol_dictionary (w.files path) ≡ none)
      × (e ≡ none)

  -- What main comes to: such a write outside an array, a failure, or the loop.
  abbrev pub Outcome : Option Exit → Type 0
  Outcome e = (a : Arguments) × (Overrun a e ⊎ Started a e)

  load_and_run-Started :
      (path : Text) (a : Arguments) (s : State)
      → a.hex_file_path ≡ some path
      → (initialize_sdl_and_lcd w.lcd_sdl).1 ≡ true
      → AtStart w cpu s
      → Started a (load_and_run core max_irq_interval w path a (lcd_set_up w.lcd_sdl s))
  unfolding load_and_run run_loaded reset_at
  load_and_run-Started path a s named lcd v = elim (Bool-cases w.log_opens) [
    | inl e ↦ elim (Option-cases (w.files path)) [
      | inl p ↦ inl (rw (not_loaded w.log_opens (w.files path) (inr p)) refl)
      | inr (file, p) ↦
          let (ram, out, loads, filled) =
            load_program_and_irq-Filled file program_start_address irq_handler_address (omega arith)
              (omega arith) in
          inr (
            reset_at core ram out (lcd_set_up w.lcd_sdl s),
            record {
              path = path;
              named = named;
              file = file;
              found = p;
              log_opens = e;
              lcd = lcd;
              valid = v.valid;
              closed = v.closed;
              unheld = record {
                window = v.unheld.window;
                renderer = v.unheld.renderer;
                font = v.unheld.font;
                no_calls = v.unheld.no_calls;
              };
              typed = v.typed;
              ram = ram;
              filled = filled;
              reset = rw (v.no_calls, v.registers, lcd_calls_of-initialize w.lcd_sdl lcd) refl;
            },
            rw (e, p, loads) refl,
          )
    ]
    | inr e ↦ inl (rw (not_loaded w.log_opens (w.files path) (inl e)) refl)
  ]

  run_with_symbols-Started :
      (path : Text) (a : Arguments) (s : State) (r : List SymbolEntry × Breakpoints × Text × Bool)
      → a.hex_file_path ≡ some path
      → AtStart w cpu s
      → Toggle.IsValid r.1
      → Started a (run_with_symbols core max_irq_interval w path a s r)
  unfolding run_with_symbols
  run_with_symbols-Started path a s (symbol_list, table, out, found) named v t =
      elim (Bool-cases found) [
        | inr e ↦ inl (rw e refl)
        | inl e ↦ elim (Bool-cases ((initialize_sdl_and_lcd w.lcd_sdl).1)) [
          | inr f ↦ inl (rw (e, f) refl)
          | inl f ↦
              rw (e, f)
                (load_and_run-Started path a (with_symbols symbol_list table out s) named f
                  (with_symbols-AtStart w cpu s symbol_list table out v t))
        ]
      ]

  set_up-Outcome :
      (path : Text) (a : Arguments) (s : State)
      → a.hex_file_path ≡ some path
      → AtStart w cpu s
      → Outcome (set_up core max_irq_interval w path a s)
  unfolding set_up
  set_up-Outcome path a s named v =
      elim (Option-cases (
        handle_symbol_lookup (found_list w.files a.list_file_path) a.break_symbol_name s.symbol_list
          s.breakpoints)) [
            | inl p ↦
                let (list_path, given, overrun) =
                  overrun_file w.files a.list_file_path a.break_symbol_name s.symbol_list
                    s.breakpoints p in
                (a, inl (list_path, given, overrun, rw p refl))
            | inr (r, p) ↦
                let kept =
                  handle_symbol_lookup-IsValid (found_list w.files a.list_file_path)
                    a.break_symbol_name s.symbol_list s.breakpoints v.valid.breakpoints in
                let t : Toggle.IsValid r.1 = rw p at kept in
                rw p (a, inr (run_with_symbols-Started path a s r named v t))
          ]

  with_arguments-Outcome :
      (parsed : Option (Arguments × Text)) (s : State)
      → AtStart w cpu s
      → Outcome (with_arguments core max_irq_interval w parsed s)
  unfolding with_arguments
  with_arguments-Outcome none s v = (no_arguments, inr (inl refl))
  with_arguments-Outcome (some (a, out)) s v = elim (Option-cases a.hex_file_path) [
    | inl p ↦ (a, inr (inl (rw p refl)))
    | inr (path, p) ↦ rw p (set_up-Outcome path a (printed out s) p (printed-AtStart w cpu out s v))
  ]

  -- Without a list file there are no symbols to read.
  set_up-Started :
      (path : Text) (a : Arguments) (s : State)
      → a.hex_file_path ≡ some path
      → a.list_file_path ≡ none
      → AtStart w cpu s
      → Started a (set_up core max_irq_interval w path a s)
  unfolding set_up
  set_up-Started path a s named no_list v =
      rw
        (nothing_read w.files a.list_file_path a.break_symbol_name s.symbol_list s.breakpoints
          no_list)
        (run_with_symbols-Started path a s (s.symbol_list, s.breakpoints, [], true) named v
          v.valid.breakpoints)

  pub with_arguments-Started :
      (a : Arguments) (out : Text) (s : State)
      → a.list_file_path ≡ none
      → AtStart w cpu s
      → Started a (with_arguments core max_irq_interval w (some (a, out)) s)
  unfolding with_arguments
  with_arguments-Started a out s no_list v = elim (Option-cases a.hex_file_path) [
    | inl p ↦ inl (simp p refl)
    | inr (path, p) ↦
        simp p (set_up-Started path a (printed out s) p no_list (printed-AtStart w cpu out s v))
  ]

pub main-Outcome :
    (core : Core) (max_irq_interval : Bool) (w : World) (opts : List Opt) (cpu : Cpu)
    → Outcome core max_irq_interval w cpu (main core max_irq_interval w opts cpu)
unfolding main
main-Outcome core max_irq_interval w opts cpu =
    with_arguments-Outcome core max_irq_interval w cpu (parse_options opts no_arguments [])
      (globals cpu w.terminal) (globals-AtStart w cpu)
