-- ===== src/Emulator/Valid/Execute.antt =====
-- Executing an instruction keeps the state valid.
use ben_eater.Common.{
  ℕ, ◌≤◌, ◌||◌, some, List, leb, ◌==◌, if◌then◌else◌, if_both, arith, inl, inr, Bool-cases,
}
use ben_eater.Common.Chain.{IfSome, IfSome-then}
use ben_eater.Symbols.{SymbolEntry}
use ben_eater.CallStack.{CallStack, max_call_stack, push_subroutine_call, pop_subroutine_call}
use ben_eater.Inspect.{print_cpu_state_to_stream}
use ben_eater.Trace.Scroll.{add_trace_entry-InHistory}
use ben_eater.Tracer.Scroll.{handle_tracer_events}
use ben_eater.Emulator.{Core, SdlEvent, tracer_events, State, Round, printed, logged}
use ben_eater.Emulator.Execute.{
  poll_tracer, drained, jsr_opcode, rts_opcode, follow_call, record_trace, instruction_str,
  cpu_state_str, ram_state_str, report_state, exec_instruction, since_irq, trigger_irq, execute,
}
use ben_eater.Emulator.Steps.{Steps, execute-kept}
use ben_eater.Emulator.Valid.{IsValid, with_history, show_if_active-IsValid}
use ben_eater.Emulator.Valid.Debug.{IsValidAfter}

poll_tracer-IsValid :
    (r : Round) (events : List SdlEvent) (s : State)
    → IsValid s
    → IfSome IsValid (poll_tracer r events s)
unfolding poll_tracer
poll_tracer-IsValid r events s v =
    IfSome-then IsValid (handle_tracer_events r.window_height (tracer_events events) s.setup.tracer)
      (λ tracer. some (drained events s tracer)) (λ tracer. v)

push-within :
    (symbol_list : List SymbolEntry) (address : ℕ) (s : CallStack)
    → s.call_stack_depth ≤ max_call_stack
    → (push_subroutine_call symbol_list address s).0.call_stack_depth ≤ max_call_stack
unfolding push_subroutine_call
push-within symbol_list address s h = ground arith

pop-within :
    (s : CallStack)
    → s.call_stack_depth ≤ max_call_stack
    → (pop_subroutine_call s).0.call_stack_depth ≤ max_call_stack
unfolding pop_subroutine_call
pop-within s h = ground arith

with_calls :
    (s : State) (calls : CallStack)
    → IsValid s
    → calls.call_stack_depth ≤ max_call_stack
    → IsValid (record s { call_stack = calls })
with_calls s calls v h = record {
  breakpoints = v.breakpoints;
  monitored = v.monitored;
  call_stack = h;
  history = v.history;
}

follow_call-IsValid : (opcode : ℕ) (s : State) → IsValid s → IsValid (follow_call opcode s)
unfolding follow_call
follow_call-IsValid opcode s v = elim (Bool-cases (opcode == jsr_opcode)) [
  | inl e ↦ simp e (with_calls s _ v (push-within s.symbol_list s.cpu.pc s.call_stack v.call_stack))
  | inr e ↦ elim (Bool-cases (opcode == rts_opcode)) [
    | inl f ↦ simp (e, f) (with_calls s _ v (pop-within s.call_stack v.call_stack))
    | inr f ↦ simp (e, f) v
  ]
]

record_trace-IsValid : (s : State) → IsValid s → IsValid (record_trace s)
unfolding record_trace
record_trace-IsValid s v = elim (Bool-cases (s.step_enabled || s.setup.trace.scroll_mode)) [
  | inl e ↦ simp e (
      with_history s _ v (
        add_trace_entry-InHistory (instruction_str s.cpu) (cpu_state_str s.cpu)
          (ram_state_str s.machine.ram) s.cpu.pc s.setup.trace v.history))
  | inr e ↦ simp e v
]

report_state-IsValid : (s : State) → IsValid s → IfSome IsValid (report_state s)
unfolding report_state
report_state-IsValid s v =
    IfSome-then IsValid (print_cpu_state_to_stream s.cpu s.monitors s.machine.ram)
      (λ out. some (logged out (if s.step_enabled then printed out s else s)))
      (λ out. elim (Bool-cases (s.step_enabled)) [ inl e ↦ simp e v | inr e ↦ simp e v ])

module _ (core : Core) (irq_interval : ℕ) where
  trigger_irq-IsValid : (s : State) → IsValid s → IsValid (trigger_irq core irq_interval s)
  unfolding trigger_irq
  trigger_irq-IsValid s v = if_both IsValid (leb irq_interval (since_irq s)) _ s v v

  valid_steps : Steps core irq_interval Unit IsValid IsValid
  unfolding exec_instruction
  valid_steps = record {
    stepping = λ s v. v;
    breaking = λ s v. v;
    prints = λ out s v. v;
    logs = λ out s v. v;
    keyed = λ key s v. v;
    drawn = poll_tracer-IsValid;
    called = follow_call-IsValid;
    executed = λ s v. v;
    shown = show_if_active-IsValid;
    traced = record_trace-IsValid;
    reported = report_state-IsValid;
    triggered = λ s v. trigger_irq-IsValid s v;
  }

  pub execute-IsValid :
      (r : Round) (s : State) → IsValid s → IsValidAfter (execute core irq_interval r s)
  execute-IsValid = execute-kept core irq_interval Unit IsValid IsValid valid_steps
