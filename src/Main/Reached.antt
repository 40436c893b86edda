-- ===== src/Main/Reached.antt =====
-- When main comes to the loop.
use ben_eater.Common.{◌≡◌, Bool, Option, List, Text}
use ben_eater.Bus.{Ram}
use ben_eater.Symbols.{SymbolEntry}
use ben_eater.Symbols.Dictionary.{handle_symbol_lookup}
use ben_eater.Breakpoints.{Breakpoints}
use ben_eater.Loader.Memory.{Filled}
use ben_eater.Emulator.{Core, State}
use ben_eater.Main.{
  Arguments, World, program_start_address, irq_handler_address, Exit, found_list, reset_at,
}
use ben_eater.Main.Start.{loop_run}

-- What handle_symbol_lookup gives main under the arguments.
abbrev pub looked_up :
    World → Arguments → State → Option (List SymbolEntry × Breakpoints × Text × Bool)
looked_up w a s =
    handle_symbol_lookup (found_list w.files a.list_file_path) a.break_symbol_name s.symbol_list
      s.breakpoints

module _ (core : Core) (max_irq_interval : Bool) (w : World) where
  -- `e` is the loop on a memory that is filled from the hex file, from the state `s`.
  abbrev pub InLoop : Text → Arguments → State → Option Exit → Type 0
  InLoop file a s e =
      (ram : Ram) × (out : Text) × Filled file program_start_address irq_handler_address ram
      × (e ≡ loop_run core max_irq_interval w a (reset_at core ram out s))
