-- ===== src/Main/Samples.antt =====
-- Runs of main on a hex file of four bytes, and the theorems on them.
use ben_eater.Common.{
  fgets_lines, ◌≡◌, refl, true, false, none, some, List, [], ◌∷◌, Text, codes, text_eq,
  if◌then◌else◌,
}
use ben_eater.Emulator.{sdl_quit}
use ben_eater.Emulator.Handles.{Makes}
use ben_eater.Emulator.Handles.Run.{FreesOnce}
use ben_eater.Emulator.Toy.{counting, quiet_round, key_round, cpu_at}
use ben_eater.Emulator.Valid.{IsValid}
use ben_eater.Main.{
  Opt, hex, question, World, initialize_sdl_and_lcd, started_sdl, made_lcd_window,
  destroyed_lcd_window, quit_sdl, parse_options, failure, main, with_arguments,
}
use ben_eater.Main.Runs.{KeptExit, main-IsValid, main-FreesOnce}
use ben_eater.Common.Chain.{IsSome}
use ben_eater.Emulator.Commands.{letter, cut_newline}
use ben_eater.Emulator.Windowless.{AllHarmless}
use ben_eater.Main.Total.{IsSound, main-IsSome}

abbrev hex_text : Text
hex_text = codes "0000000: a9ff 608d\n"

abbrev world : World
world = record {
  files = λ name. if text_eq name (codes "a.hex") then some hex_text else none;
  log_opens = true;
  lcd_sdl = record { sdl_init = true; create_window = true; window_surface = true };
  terminal = codes "b 8001\nc\n";
  rounds = quiet_round ∷ key_round ∷ quiet_round ∷ [];
}

abbrev options : List Opt
options = hex (codes "b.hex") ∷ hex (codes "a.hex") ∷ []

no_hex : main counting false world [] (cpu_at 0) ≡ some failure
unfolding main with_arguments parse_options
no_hex = refl

unknown_option : main counting false world (question ∷ options) (cpu_at 0) ≡ some failure
unfolding main with_arguments parse_options
unknown_option = refl

no_surface :
    initialize_sdl_and_lcd
      (record { sdl_init = true; create_window = true; window_surface = false })
    ≡ (started_sdl ∷ made_lcd_window ∷ destroyed_lcd_window ∷ quit_sdl ∷ [], false)
unfolding initialize_sdl_and_lcd
no_surface = refl

main-IsValid_example : KeptExit IsValid (main counting false world options (cpu_at 0))
main-IsValid_example = main-IsValid counting false world options (cpu_at 0)

terminal-AllHarmless : AllHarmless (fgets_lines 59 59 world.terminal)
unfolding fgets_lines letter cut_newline
terminal-AllHarmless = (refl, (refl, tt))

main-IsSome_example : IsSome IsSound (main counting false world options (cpu_at 0))
main-IsSome_example = main-IsSome counting false world options (cpu_at 0) refl terminal-AllHarmless

quiet_round-Makes : Makes quiet_round.sdl
quiet_round-Makes = record { ttf = refl; window = refl; renderer = refl; font = refl }

-- The LCD's window is closed, which brings up the debugger; there a window is opened and closed.
abbrev window_world : World
window_world = record world {
  terminal = codes "v a.hex\nv\nv a.hex\nc\n";
  rounds =
      record quiet_round { polled = sdl_quit ∷ [] }
      ∷ quiet_round
      ∷ quiet_round
      ∷ quiet_round
      ∷ quiet_round
      ∷ [];
}

main-FreesOnce_example : KeptExit FreesOnce (main counting false window_world options (cpu_at 0))
main-FreesOnce_example = main-FreesOnce counting false window_world options (cpu_at 0) (
  quiet_round-Makes,
  (quiet_round-Makes, (quiet_round-Makes, (quiet_round-Makes, (quiet_round-Makes, tt)))),
)
