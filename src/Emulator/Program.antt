-- ===== src/Emulator/Program.antt =====
-- How an invariant of the registers, the machine and the clocks is proved: from the keys, the
-- instructions with the IRQ, and the bytes that are typed in the debugger.
pub mod Run
use ben_eater.Common.{
  if_both, ℕ, refl, ◌||◌, Option, some, List, Text, ◌==◌, if◌then◌else◌, inl, inr, Bool-cases,
}
use ben_eater.Common.Chain.{IfSome, IfSome-then, IfSome-map}
use ben_eater.Bus.{Machine}
use ben_eater.Inspect.{Cpu, print_cpu_state_to_stream}
use ben_eater.Keyboard.{handle_keyboard_event}
use ben_eater.Tracer.Scroll.{handle_tracer_events}
use ben_eater.Emulator.{
  Core, SdlEvent, tracer_events, Round, State, After, printed, logged, with_tracer, show_if_active,
}
use ben_eater.Emulator.Commands.{debug}
use ben_eater.Emulator.Execute.{
  poll_tracer, drained, jsr_opcode, rts_opcode, follow_call, record_trace, report_state,
  exec_instruction, trigger_irq, counted,
}
use ben_eater.Emulator.Invariant.{KeptAfter}
use ben_eater.Emulator.Steps.{Steps}
use ben_eater.Emulator.Paused.{
  SameProgram, SameProgram-refl, Paused, show_if_active-same, record_trace-same, report_state-same,
}
use ben_eater.Emulator.Paused.Debug.{debug-Paused}

-- The counters of the loop.
pub record Clocks : Type 0 where
  pub total_cycles : ℕ
  pub last_irq : ℕ
  pub irq_count : ℕ
  pub loop_cnt : ℕ

abbrev pub clocks : State → Clocks
clocks s = record {
  total_cycles = s.total_cycles;
  last_irq = s.last_irq;
  irq_count = s.irq_count;
  loop_cnt = s.loop_cnt;
}

module _ (Q : Cpu → Machine → Clocks → Type 0) where
  abbrev pub At : State → Type 0
  At s = Q s.cpu s.machine (clocks s)

  follow_call-At : (opcode : ℕ) (s : State) → At s → At (follow_call opcode s)
  unfolding follow_call
  follow_call-At opcode s h =
      if_both At (opcode == jsr_opcode) _ _ h (if_both At (opcode == rts_opcode) _ s h h)

  poll_tracer-At :
      (r : Round) (events : List SdlEvent) (s : State) → At s → IfSome At (poll_tracer r events s)
  unfolding poll_tracer
  poll_tracer-At r events s h =
      IfSome-then At (handle_tracer_events r.window_height (tracer_events events) s.setup.tracer)
        (λ tracer. some (drained events s tracer)) (λ tracer. h)

  module _ (core : Core) (irq_interval : ℕ) where
    -- Between an instruction and the IRQ: what the program was before it, and what it is now.
    abbrev pub Executed : State → Type 0
    Executed t = (s : State) × At s × SameProgram (exec_instruction core s) t

    pub program_steps :
        ((key : ℕ) (cpu : Cpu) (machine : Machine) (c : Clocks)
          → Q cpu machine c
          → Q cpu (handle_keyboard_event key c.loop_cnt machine).0 c)
        → ((s t : State)
            → At s
            → SameProgram (exec_instruction core s) t
            → At (counted (trigger_irq core irq_interval t)))
        → Steps core irq_interval Unit At Executed
    program_steps keyed stepped = record {
      stepping = λ s h. h;
      breaking = λ s h. h;
      prints = λ out s h. h;
      logs = λ out s h. h;
      keyed = λ key s h. keyed key s.cpu s.machine (clocks s) h;
      drawn = poll_tracer-At;
      called = follow_call-At;
      executed = λ s h. (s, h, SameProgram-refl (exec_instruction core s));
      shown = λ window_height t (s, h, same).
          IfSome-map (SameProgram (exec_instruction core s)) Executed
            (show_if_active window_height t) (λ t' same'. (s, h, same'))
            (show_if_active-same (exec_instruction core s) t same window_height);
      traced = λ t (s, h, same). (s, h, record_trace-same (exec_instruction core s) t same);
      reported = λ t (s, h, same).
          IfSome-map (SameProgram (exec_instruction core s)) Executed (report_state t)
            (λ t' same'. (s, h, same')) (report_state-same (exec_instruction core s) t same);
      triggered = λ t (s, h, same). stepped s t h same;
    }

pub debug-kept :
    (P : State → Type 0) (files : Text → Option Text) (list_file : Option Text)
    → ((s t : State) → P s → Paused s t → P t)
    → (r : Round) (s : State) → P s
    → KeptAfter P (debug files list_file r s)
debug-kept P files list_file typed r s h =
    IfSome-map (λ (t : After × State). Paused s t.1) (λ (t : After × State). P t.1)
      (debug files list_file r s) (λ t paused. typed s t.1 h paused)
      (debug-Paused files list_file r s)
