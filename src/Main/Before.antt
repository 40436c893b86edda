-- ===== src/Main/Before.antt =====
-- The state of main before the loop.
use ben_eater.Common.{
  ◌≡◌, refl, fgets_lines, true, false, List, [], ◌∷◌, Text, arith, inl, inr, Bool-cases,
}
use ben_eater.Symbols.{SymbolEntry}
use ben_eater.Breakpoints.{Breakpoints}
use ben_eater.Breakpoints.Toggle
use ben_eater.Inspect.{Cpu}
use ben_eater.Emulator.{State, printed}
use ben_eater.Emulator.Handles.Run.{Unheld}
use ben_eater.Emulator.Valid.{IsValid}
use ben_eater.Bus.{draw, update_window}
use ben_eater.Main.{World, globals, with_symbols, LcdSdl, lcd_calls_of, initialize_sdl_and_lcd}

globals-IsValid : (cpu : Cpu) (terminal : Text) → IsValid (globals cpu terminal)
globals-IsValid cpu terminal = record {
  breakpoints = record { within = omega arith; distinct = tt };
  monitored = record { within = omega arith; distinct = tt };
  call_stack = omega arith;
  history = record { valid = λ e. cc; within = tt };
}

-- The state of main before the set-up of the LCD.
pub record AtStart (w : World) (cpu : Cpu) (s : State) : Type 0 where
  pub registers : s.cpu ≡ cpu
  pub valid : IsValid s
  pub no_calls : s.machine.lcd_calls ≡ []
  pub closed : s.setup.tracer.is_active ≡ false
  pub unheld : Unheld s
  pub typed : s.stdin ≡ fgets_lines 59 59 w.terminal

pub globals-AtStart : (w : World) (cpu : Cpu) → AtStart w cpu (globals cpu w.terminal)
unfolding fgets_lines
globals-AtStart w cpu = record {
  registers = refl;
  valid = globals-IsValid cpu w.terminal;
  no_calls = refl;
  closed = refl;
  unheld = record { window = refl; renderer = refl; font = refl; no_calls = refl };
  typed = refl;
}

pub printed-AtStart :
    (w : World) (cpu : Cpu) (out : Text) (s : State)
    → AtStart w cpu s
    → AtStart w cpu (printed out s)
printed-AtStart w cpu out s v = record {
  registers = v.registers;
  valid = v.valid;
  no_calls = v.no_calls;
  closed = v.closed;
  unheld = record {
    window = v.unheld.window;
    renderer = v.unheld.renderer;
    font = v.unheld.font;
    no_calls = v.unheld.no_calls;
  };
  typed = v.typed;
}

pub with_symbols-AtStart :
    (w : World) (cpu : Cpu) (s : State) (symbol_list : List SymbolEntry) (table : Breakpoints)
    (out : Text)
    → AtStart w cpu s
    → Toggle.IsValid table
    → AtStart w cpu (with_symbols symbol_list table out s)
with_symbols-AtStart w cpu s symbol_list table out v t = record {
  registers = v.registers;
  valid = record {
    breakpoints = t;
    monitored = v.valid.monitored;
    call_stack = v.valid.call_stack;
    history = v.valid.history;
  };
  no_calls = v.no_calls;
  closed = v.closed;
  unheld = record {
    window = v.unheld.window;
    renderer = v.unheld.renderer;
    font = v.unheld.font;
    no_calls = v.unheld.no_calls;
  };
  typed = v.typed;
}

-- The set-up of the LCD draws and shows it once.
pub lcd_calls_of-initialize :
    (sdl : LcdSdl)
    → (initialize_sdl_and_lcd sdl).1 ≡ true
    → lcd_calls_of (initialize_sdl_and_lcd sdl).0 ≡ draw ∷ update_window ∷ []
unfolding initialize_sdl_and_lcd
lcd_calls_of-initialize sdl h = elim (Bool-cases sdl.sdl_init) [
  | inr e ↦ absurd (cc (rw e at h))
  | inl e ↦ elim (Bool-cases sdl.create_window) [
    | inr f ↦ absurd (cc (rw (e, f) at h))
    | inl f ↦ elim (Bool-cases sdl.window_surface) [
      | inr g ↦ absurd (cc (rw (e, f, g) at h))
      | inl g ↦ rw (e, f, g) refl
    ]
  ]
]
