-- ===== src/Emulator/Loop.antt =====
-- tools/benEater_simulator/simulator.c: the rounds of `run_emulator_loop`, and its end.
use ben_eater.Common.{
  ℕ, true, false, ◌||◌, Option, none, some, List, [], ◌∷◌, ◌++◌, Text, codes, dec_text, hex2,
  if◌then◌else◌,
}
use ben_eater.Common.Chain.{◌>>=◌}
use ben_eater.Breakpoints.{is_breakpoint}
use ben_eater.Inspect.{print_cpu_state_to_stream, dump_memory_range}
use ben_eater.Tracer.Window.{cleanup_tracer}
use ben_eater.Emulator.{Core, Round, State, After, next_round, go_on, end_loop, printed, logged}
use ben_eater.Emulator.Commands.{debug}
use ben_eater.Emulator.Execute.{execute}

-- A breakpoint at the PC brings the debugger up.
abbrev pub at_breakpoint : State → State
at_breakpoint s =
    if is_breakpoint s.breakpoints s.cpu.pc then record s { step_enabled = true } else s

-- Where the rounds have come to: the world gives no more of them, or the loop has ended.
pub data Run : Type 0 where
  running ended : State → Run

-- The loop behind a round, where `rest` are the rounds that follow.
abbrev pub later : After → State → Option Run → Option Run
later end_loop s rest = some (ended s)
later next_round s rest = rest
later go_on s rest = rest

module _ (core : Core) (files : Text → Option Text) (irq_interval : ℕ)
    (list_file : Option Text) where
  abbrev pub after_debug : Round → After × State → Option (After × State)
  after_debug r (next_round, s) = some (next_round, s)
  after_debug r (end_loop, s) = some (end_loop, s)
  after_debug r (go_on, s) = execute core irq_interval r s

  -- The body of the loop.
  unfoldable pub round : Round → State → Option (After × State)
  round r s =
      if (at_breakpoint s).step_enabled
      then debug files list_file r (at_breakpoint s) >>= after_debug r
      else execute core irq_interval r (at_breakpoint s)

  -- The loop, as far as the world gives rounds.
  unfoldable pub rounds : List Round → State → Option Run
  rounds [] s = some (running s)
  rounds (r ∷ rs) s = elim (s.break_loop || r.quit_flag) [
    | true ↦ some (ended s)
    | false ↦ elim (round r s) [ none ↦ none | some (after, s') ↦ later after s' (rounds rs s') ]
  ]

abbrev pub dump_heading : Text
dump_heading = codes "\nMemory dump from 0xBB00 to 0xCFFF:\n"

abbrev pub totals : State → Text
totals s =
    codes "Total Cycles: "
    ++ dec_text s.total_cycles
    ++ codes " | IRQs: "
    ++ dec_text s.irq_count
    ++ codes " | $02 = "
    ++ hex2 (s.machine.ram 2)
    ++ codes "\n"

abbrev pub cleaned_up : State → State
cleaned_up s =
    let (setup, calls) = cleanup_tracer s.setup in
    record s { setup = setup; sdl_calls = s.sdl_calls ++ calls }

-- The end, where `dump` is the memory and `out` the state of the CPU in text.
abbrev pub shown_end : Text → Text → State → State
shown_end dump out s = cleaned_up (
    printed (dump_heading ++ out)
      (logged (codes "--- Simulation Finished ---\n" ++ dump ++ totals s) s))

-- What follows the loop.
unfoldable pub finish : State → Option State
finish s = do
  dump ← dump_memory_range 65537 s.machine.ram 0xBB00 0xCFFF
  out ← print_cpu_state_to_stream s.cpu s.monitors s.machine.ram
  some (shown_end dump out s)

abbrev pub finished : Run → Option Run
finished (running s) = some (running s)
finished (ended s) = finish s >>= λ s'. some (ended s')

-- The variables of the loop as they start.
abbrev pub started : State → State
started s = record s {
  step_enabled = false;
  break_loop = false;
  auto_tracer_opened = false;
  loop_cnt = 0;
  last_irq = 0;
  total_cycles = 0;
  irq_count = 0;
}

unfoldable pub run_emulator_loop :
    Core → (Text → Option Text) → ℕ → Option Text → List Round → State → Option Run
run_emulator_loop core files irq_interval list_file rs s =
    rounds core files irq_interval list_file rs (started s) >>= finished
