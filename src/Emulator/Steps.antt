-- ===== src/Emulator/Steps.antt =====
-- How a round keeps a predicate on the state: by what its steps keep.
use ben_eater.Common.{
  ℕ, true, Option, none, some, List, [], ◌∷◌, ◌++◌, Text, ◌==◌, if_both, inl, inr, Bool-cases,
}
use ben_eater.Common.Chain.{OrElse, OrElse-bind}
use ben_eater.Emulator.{
  Core, SdlEvent, sdl_quit, window_resized, sdl_other, key_down_event, Round, State, After, printed,
  logged, show_if_active,
}
use ben_eater.Emulator.Execute.{
  key_pressed, is_interrupt, poll_events, poll_tracer, polled_in, magic_opcde, magic_text, decoded,
  disassembled, follow_call, record_trace, report_state, exec_instruction, counted, end_round,
  trigger_irq, run_instruction, after_run, run_decoded, execute,
}

-- What the steps of a round keep: `P` up to the instruction and behind the IRQ, `Q` between them. `E`
-- is what holds where a step has no result.
pub record Steps (core : Core) (irq_interval : ℕ) (E : Type 0) (P Q : State → Type 0) : Type 0 where
  pub stepping : (s : State) → P s → P (record s { step_enabled = true })
  pub breaking : (s : State) → P s → P (record s { break_loop = true })
  pub prints : (out : Text) (s : State) → P s → P (printed out s)
  pub logs : (out : Text) (s : State) → P s → P (logged out s)
  pub keyed : (key : ℕ) (s : State) → P s → P (key_pressed key s)
  pub drawn :
      (r : Round) (events : List SdlEvent) (s : State) → P s → OrElse E P (poll_tracer r events s)
  pub called : (opcode : ℕ) (s : State) → P s → P (follow_call opcode s)
  pub executed : (s : State) → P s → Q (exec_instruction core s)
  pub shown : (window_height : ℕ) (s : State) → Q s → OrElse E Q (show_if_active window_height s)
  pub traced : (s : State) → Q s → Q (record_trace s)
  pub reported : (s : State) → Q s → OrElse E Q (report_state s)
  pub triggered : (s : State) → Q s → P (counted (trigger_irq core irq_interval s))

module _ (core : Core) (irq_interval : ℕ) (E : Type 0) (P Q : State → Type 0)
    (steps : Steps core irq_interval E P Q) where
  abbrev Behind : Option (After × State) → Type 0
  Behind = OrElse E (λ (r : After × State). P r.1)

  poll_events-kept : (events : List SdlEvent) (s : State) → P s → P (poll_events events s).0
  unfolding poll_events
  poll_events-kept [] s h = h
  poll_events-kept (sdl_quit ∷ events) s h =
      if_both (λ (r : State × List SdlEvent). P r.0) s.step_enabled _ _
        (steps.prints _ (record s { break_loop = true }) (steps.breaking s h))
        (poll_events-kept events _
          (steps.prints _ (record s { step_enabled = true }) (steps.stepping s h)))
  poll_events-kept (key_down_event key ctrl ∷ events) s h =
      elim (Bool-cases (is_interrupt key ctrl)) [
        | inl e ↦
            rw (e, poll_events) (poll_events-kept events _ (steps.prints _ _ (steps.stepping s h)))
        | inr e ↦
            rw (e, poll_events) (poll_events-kept events (key_pressed key s) (steps.keyed key s h))
      ]
  poll_events-kept (window_resized ∷ events) s h = poll_events-kept events s h
  poll_events-kept (sdl_other ∷ events) s h = poll_events-kept events s h

  disassembled-kept : (s : State) → P s → P (disassembled s)
  disassembled-kept s h =
      steps.logs (decoded s).0 _ (if_both P s.step_enabled _ s (steps.prints (decoded s).0 s h) h)

  end_round-kept : (s : State) → Q s → OrElse E P (end_round core irq_interval s)
  unfolding end_round
  end_round-kept s h =
      OrElse-bind E Q P (report_state (record_trace s))
        (λ reported. some (counted (trigger_irq core irq_interval reported)))
        (steps.reported (record_trace s) (steps.traced s h)) steps.triggered

  run_instruction-kept :
      (r : Round) (s : State) → P s → OrElse E P (run_instruction core irq_interval r s)
  unfolding run_instruction
  run_instruction-kept r s h =
      OrElse-bind E Q P (show_if_active r.window_height (exec_instruction core s))
        (end_round core irq_interval)
        (steps.shown r.window_height (exec_instruction core s) (steps.executed s h)) end_round-kept

  after_run-kept : (m : Option State) → OrElse E P m → Behind (after_run m)
  after_run-kept none h = h
  after_run-kept (some s) h = h

  run_decoded-kept : (r : Round) (s : State) → P s → Behind (run_decoded core irq_interval r s)
  unfolding run_decoded
  run_decoded-kept r s h = elim (Bool-cases ((decoded s).1 == magic_opcde)) [
    | inl e ↦ simp e (steps.logs magic_text (disassembled s) (disassembled-kept s h))
    | inr e ↦
        let called = follow_call (decoded s).1 (disassembled s) in
        simp e (
          after_run-kept (run_instruction core irq_interval r called) (
            run_instruction-kept r called
              (steps.called (decoded s).1 (disassembled s) (disassembled-kept s h))))
  ]

  pub execute-kept : (r : Round) (s : State) → P s → Behind (execute core irq_interval r s)
  unfolding execute
  execute-kept r s h =
      let queue = (polled_in r s).1 ++ r.arrived in
      let polled = (polled_in r s).0 in
      OrElse-bind E P (λ (t : After × State). P t.1) (poll_tracer r queue polled)
        (run_decoded core irq_interval r)
        (steps.drawn r queue polled (poll_events-kept (s.queue ++ r.polled) s h))
        (run_decoded-kept r)
