-- ===== src/Emulator/Calls.antt =====
-- The call stack of a round, by the call or return that it executes.
pub mod Run
mod Samples
use ben_eater.Common.{
  ℕ, ◌≡◌, refl, ap, ◌∙◌, true, Option, none, some, List, [], ◌∷◌, ◌++◌, ◌==◌, if◌then◌else◌,
  if_both, ==→eq, leb, inl, inr, Bool-cases,
}
use ben_eater.Common.Chain.{IfSome, IfSome-bind, IfSome-then}
use ben_eater.CallStack.{CallStack, CallEvent, jsr, rts, track}
use ben_eater.Inspect.{Cpu}
use ben_eater.Tracer.Scroll.{handle_tracer_events}
use ben_eater.Emulator.{
  Core, SdlEvent, sdl_quit, window_resized, sdl_other, key_down_event, tracer_events, Round, State,
  After, with_tracer, show_if_active,
}
use ben_eater.Emulator.Execute.{
  key_pressed, is_interrupt, poll_events, poll_tracer, drained, polled_in, magic_opcde, jsr_opcode,
  rts_opcode, decoded, disassembled, follow_call, since_irq, record_trace, report_state,
  exec_instruction, counted, trigger_irq, end_round, run_instruction, after_run, run_decoded,
  execute,
}
use ben_eater.Emulator.Paused.{
  SameProgram, SameProgram-refl, show_if_active-same, record_trace-same, report_state-same,
}
use ben_eater.Emulator.Stops.{disassembled-same}

-- What the instruction of an opcode at an address is to the call stack.
abbrev pub call_events : ℕ → ℕ → List CallEvent
call_events opcode pc =
    if opcode == jsr_opcode then jsr pc ∷ [] else if opcode == rts_opcode then rts ∷ [] else []

-- The event of a round that executes from `s`: of the opcode at the PC behind the keys.
abbrev pub executed_calls : Round → State → List CallEvent
executed_calls r s = let polled = (polled_in r s).0 in call_events (decoded polled).1 polled.cpu.pc

-- The call stack is `calls`, by the same symbols as in `s`.
pub record Stacked (s : State) (calls : CallStack) (t : State) : Type 0 where
  pub stack : t.call_stack ≡ calls
  pub symbols : t.symbol_list ≡ s.symbol_list

module _ (base : State) where
  poll_events-Stacked :
      (events : List SdlEvent) (s : State)
      → Stacked base base.call_stack s
      → Stacked base base.call_stack (poll_events events s).0
  unfolding poll_events
  poll_events-Stacked [] s h = h
  poll_events-Stacked (sdl_quit ∷ events) s h =
      if_both (λ (r : State × List SdlEvent). Stacked base base.call_stack r.0) s.step_enabled _ _
        (record { stack = h.stack; symbols = h.symbols })
        (poll_events-Stacked events _ (record { stack = h.stack; symbols = h.symbols }))
  poll_events-Stacked (key_down_event key ctrl ∷ events) s h =
      elim (Bool-cases (is_interrupt key ctrl)) [
        | inl e ↦
            rw (e, poll_events)
              (poll_events-Stacked events _ (record { stack = h.stack; symbols = h.symbols }))
        | inr e ↦
            rw (e, poll_events)
              (poll_events-Stacked events (key_pressed key s)
                (record { stack = h.stack; symbols = h.symbols }))
      ]
  poll_events-Stacked (window_resized ∷ events) s h = poll_events-Stacked events s h
  poll_events-Stacked (sdl_other ∷ events) s h = poll_events-Stacked events s h

  follow_call-Stacked :
      (opcode pc : ℕ) (s : State)
      → s.cpu.pc ≡ pc
      → Stacked base base.call_stack s
      → Stacked base
          (track base.symbol_list (call_events opcode pc) base.call_stack)
          (follow_call opcode s)
  unfolding follow_call track
  follow_call-Stacked opcode pc s at_pc h = elim (Bool-cases (opcode == jsr_opcode)) [
    | inl e ↦ rw (← h.stack, ← h.symbols, ← at_pc) (rw e (record { stack = refl; symbols = refl }))
    | inr e ↦ elim (Bool-cases (opcode == rts_opcode)) [
      | inl f ↦ rw (← h.stack) (rw (e, f) (record { stack = refl; symbols = h.symbols }))
      | inr f ↦ rw (e, f) h
    ]
  ]

same-Stacked :
    (base s t : State) (calls : CallStack)
    → Stacked base calls s
    → SameProgram s t
    → Stacked base calls t
same-Stacked base s t calls h
      (memory, (cpu, lcd, total, last, count, loops, broken, stack, symbols)) =
    record { stack = stack ∙ h.stack; symbols = symbols ∙ h.symbols }

module _ (core : Core) (irq_interval : ℕ) (base : State) (calls : CallStack) where
  trigger_irq-Stacked :
      (s : State)
      → Stacked base calls s
      → Stacked base calls (counted (trigger_irq core irq_interval s))
  unfolding trigger_irq
  trigger_irq-Stacked s h = elim (Bool-cases (leb irq_interval (since_irq s))) [
    | inl e ↦ simp e (record { stack = h.stack; symbols = h.symbols })
    | inr e ↦ simp e (record { stack = h.stack; symbols = h.symbols })
  ]

  end_round-Stacked :
      (s t : State)
      → Stacked base calls s
      → SameProgram s t
      → IfSome (Stacked base calls) (end_round core irq_interval t)
  unfolding end_round
  end_round-Stacked s t h same =
      IfSome-bind (SameProgram s) (Stacked base calls) (report_state (record_trace t))
        (λ reported. some (counted (trigger_irq core irq_interval reported)))
        (report_state-same s (record_trace t) (record_trace-same s t same))
        (λ reported k. trigger_irq-Stacked reported (same-Stacked base s reported calls h k))

  run_instruction-Stacked :
      (r : Round) (s : State)
      → Stacked base calls s
      → IfSome (Stacked base calls) (run_instruction core irq_interval r s)
  unfolding run_instruction exec_instruction
  run_instruction-Stacked r s h =
      let done = exec_instruction core s in
      let kept : Stacked base calls done = record { stack = h.stack; symbols = h.symbols } in
      IfSome-bind (SameProgram done) (Stacked base calls) (show_if_active r.window_height done)
        (end_round core irq_interval)
        (show_if_active-same done done (SameProgram-refl done) r.window_height)
        (λ t same. end_round-Stacked done t kept same)

-- Of what a round leaves.
abbrev pub StackedAfter : State → CallStack → Option (After × State) → Type 0
StackedAfter base calls = IfSome (λ (r : After × State). Stacked base calls r.1)

no_call : (opcode pc : ℕ) → (opcode == magic_opcde) ≡ true → call_events opcode pc ≡ []
no_call opcode pc e = rw (==→eq opcode magic_opcde e) refl

disassembled-Stacked :
    (base s : State) (calls : CallStack)
    → Stacked base calls s
    → Stacked base calls (disassembled s)
disassembled-Stacked base s calls h =
    same-Stacked base s (disassembled s) calls h (disassembled-same s)

disassembled-pc : (s : State) → (disassembled s).cpu.pc ≡ s.cpu.pc
disassembled-pc s = ap (λ (cpu : Cpu). cpu.pc) (disassembled-same s).1.0

after_run-Stacked :
    (base : State) (calls : CallStack) (m : Option State)
    → IfSome (Stacked base calls) m
    → StackedAfter base calls (after_run m)
after_run-Stacked base calls none h = tt
after_run-Stacked base calls (some s) h = h

module _ (core : Core) (irq_interval : ℕ) (base : State) where
  -- The call stack behind the event of the opcode at the PC.
  abbrev tracked : State → CallStack
  tracked s = track base.symbol_list (call_events (decoded s).1 s.cpu.pc) base.call_stack

  run_decoded-Stacked :
      (r : Round) (s : State)
      → Stacked base base.call_stack s
      → StackedAfter base (tracked s) (run_decoded core irq_interval r s)
  unfolding run_decoded track
  run_decoded-Stacked r s h =
      let shown = disassembled-Stacked base s base.call_stack h in
      elim (Bool-cases ((decoded s).1 == magic_opcde)) [
        | inl e ↦
            rw (no_call (decoded s).1 s.cpu.pc e)
              (simp e (record { stack = shown.stack; symbols = shown.symbols }))
        | inr e ↦
            let called = follow_call (decoded s).1 (disassembled s) in
            let followed =
              follow_call-Stacked base (decoded s).1 s.cpu.pc (disassembled s) (disassembled-pc s)
                shown in
            simp e (
              after_run-Stacked base (tracked s) (run_instruction core irq_interval r called)
                (run_instruction-Stacked core irq_interval base (tracked s) r called followed))
      ]

  -- The same for a state that shows the same registers and memory.
  retracked :
      (s t : State) (m : Option (After × State))
      → t.cpu ≡ s.cpu
      → t.machine ≡ s.machine
      → StackedAfter base (tracked t) m
      → StackedAfter base (tracked s) m
  retracked s t m cpu machine h = rw (← cpu, ← machine) h

  -- Whatever comes from the keyboard and to the tracer, the round's call stack is that behind its
  -- event.
  pub execute-Stacked :
      (r : Round) (s : State)
      → Stacked base base.call_stack s
      → StackedAfter base
          (track base.symbol_list (executed_calls r s) base.call_stack)
          (execute core irq_interval r s)
  unfolding execute poll_tracer
  execute-Stacked r s h =
      let polled = (polled_in r s).0 in
      let queue = (polled_in r s).1 ++ r.arrived in
      let kept = poll_events-Stacked base (s.queue ++ r.polled) s h in
      IfSome-bind
        (λ (t : State).
          Stacked base base.call_stack t × (t.cpu ≡ polled.cpu) × (t.machine ≡ polled.machine))
        (λ (t : After × State). Stacked base (tracked polled) t.1) (poll_tracer r queue polled)
        (run_decoded core irq_interval r)
        (IfSome-then
          (λ (t : State).
            Stacked base base.call_stack t × (t.cpu ≡ polled.cpu) × (t.machine ≡ polled.machine))
          (handle_tracer_events r.window_height (tracer_events queue) polled.setup.tracer)
          (λ tracer. some (drained queue polled tracer))
          (λ tracer. (record { stack = kept.stack; symbols = kept.symbols }, refl, refl)))
        (λ t (stacked, cpu, machine).
          retracked polled t (run_decoded core irq_interval r t) cpu machine
            (run_decoded-Stacked r t stacked))
