-- ===== src/Emulator/Paused.antt =====
-- What stays of the program while the debugger has stopped it.
pub mod Debug
use ben_eater.Common.{ℕ, ◌≡◌, ◌⊎◌, refl}
use ben_eater.Common.Chain.{IfSome, IfSome-map}
use ben_eater.Inspect.Write.{OneByte, Unchanged}
use ben_eater.Emulator.{State, show_if_active}
use ben_eater.Emulator.Execute.{record_trace, report_state}
use ben_eater.Emulator.View.{
  Program, program_of, Shows, show_if_active-Shows, record_trace-Shows, report_state-Shows,
}

-- The registers, the calls of the LCD, the clocks, the call stack and the symbols are those of `p`.
abbrev pub SameRun : Program → Program → Type 0
SameRun p q =
    (q.cpu ≡ p.cpu)
    × (q.machine.lcd_calls ≡ p.machine.lcd_calls)
    × (q.total_cycles ≡ p.total_cycles)
    × (q.last_irq ≡ p.last_irq)
    × (q.irq_count ≡ p.irq_count)
    × (q.loop_cnt ≡ p.loop_cnt)
    × (q.break_loop ≡ p.break_loop)
    × (q.call_stack ≡ p.call_stack)
    × (q.symbol_list ≡ p.symbol_list)

-- The same, and the memory too.
abbrev pub SameProgram : State → State → Type 0
SameProgram s t = Unchanged s.machine.ram t.machine.ram × SameRun (program_of s) (program_of t)

-- The same, but for one byte of memory at most.
abbrev pub IsPaused : Program → Program → Type 0
IsPaused p q =
    (Unchanged p.machine.ram q.machine.ram ⊎ OneByte p.machine.ram q.machine.ram) × SameRun p q

abbrev pub Paused : State → State → Type 0
Paused s t = IsPaused (program_of s) (program_of t)

pub SameRun-refl : (p : Program) → SameRun p p
SameRun-refl p = (refl, refl, refl, refl, refl, refl, refl, refl, refl)

pub SameProgram-refl : (s : State) → SameProgram s s
SameProgram-refl s = (λ b. refl, SameRun-refl (program_of s))

-- The program that is shown decides.
SameProgram-Shows :
    (base : State) (p q : Program)
    → q ≡ p
    → Unchanged base.machine.ram p.machine.ram × SameRun (program_of base) p
    → Unchanged base.machine.ram q.machine.ram × SameRun (program_of base) q
SameProgram-Shows base p q e h = rw e h

module _ (base s : State) (h : SameProgram base s) where
  shown-SameProgram : (t : State) → Shows (program_of s) t → SameProgram base t
  shown-SameProgram t e = SameProgram-Shows base (program_of s) (program_of t) e h

  pub show_if_active-same :
      (window_height : ℕ) → IfSome (SameProgram base) (show_if_active window_height s)
  show_if_active-same window_height =
      IfSome-map (Shows (program_of s)) (SameProgram base) (show_if_active window_height s)
        shown-SameProgram (show_if_active-Shows (program_of s) window_height s refl)

  -- What follows the instruction until the IRQ leaves the program alone, but for counting the rounds.
  pub record_trace-same : SameProgram base (record_trace s)
  record_trace-same = shown-SameProgram (record_trace s) (record_trace-Shows (program_of s) s refl)

  pub report_state-same : IfSome (SameProgram base) (report_state s)
  report_state-same =
      IfSome-map (Shows (program_of s)) (SameProgram base) (report_state s) shown-SameProgram
        (report_state-Shows (program_of s) s refl)
