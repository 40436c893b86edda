-- ===== src/Emulator/Plain/Rounds.antt =====
-- A round refines that of the reference: what only changes the view leaves the program alone.
use ben_eater.Common.{
  ℕ, ◌+◌, ◌≡◌, refl, ap, ◌∙◌, false, Option, none, some, ◌++◌, Text, leb, ◌==◌, if◌then◌else◌,
  if_both, if_pair,
}
use ben_eater.Common.Chain.{◌>>=◌, IfSome, IfSome-bind, IsSome-both, IsSome-IfSome}
use ben_eater.Breakpoints.{is_breakpoint}
use ben_eater.Emulator.{
  Core, Round, State, After, next_round, go_on, end_loop, logged, show_if_active,
}
use ben_eater.Emulator.Commands.{is_named, debug}
use ben_eater.Emulator.Execute.{
  poll_tracer, polled_in, magic_opcde, jsr_opcode, rts_opcode, decoded, disassembled, follow_call,
  since_irq, record_trace, report_state, exec_instruction, counted, trigger_irq, end_round,
  run_instruction, after_run, run_decoded, execute,
}
use ben_eater.Emulator.Loop.{at_breakpoint, after_debug, round}
use ben_eater.Emulator.Plain.{
  plain_polled, plain_follow, plain_exec, plain_irq, plain_step, plain_decoded, plain_execute,
  plain_at, plain_debug, plain_after, plain_round,
}
use ben_eater.Emulator.Plain.Poll.{polled_in-Shows}
use ben_eater.Emulator.Plain.Debug.{Gives, debug-Gives}
use ben_eater.Emulator.Stops.{decoded_opcode}
use ben_eater.Emulator.Windowless.{NoWindow, debug-IsDone}
use ben_eater.Emulator.Windowless.Run.{round-IsDone}
use ben_eater.Emulator.View.{
  Program, program_of, Shows, show_if_active-Shows, record_trace-Shows, report_state-Shows,
}

-- Of two states, one of them in the reference.
abbrev Same : State → Program → Type 0
Same s p = program_of s ≡ p

disassembled-Shows : (s : State) → program_of (disassembled s) ≡ program_of s
disassembled-Shows s =
    if_both (λ t. program_of (logged (decoded s).0 t) ≡ program_of s) s.step_enabled _ s refl refl

follow_call-Shows :
    (opcode : ℕ) (s : State)
    → program_of (follow_call opcode s) ≡ plain_follow opcode (program_of s)
unfolding follow_call
follow_call-Shows opcode s =
    if_pair Same (opcode == jsr_opcode) _ _ _ _ refl
      (if_pair Same (opcode == rts_opcode) _ s _ (program_of s) refl refl)

module _ (core : Core) (irq_interval : ℕ) where
  trigger_irq-Shows :
      (s : State)
      → program_of (counted (trigger_irq core irq_interval s)) ≡ (
          let q = plain_irq core irq_interval (program_of s) in
          record q { loop_cnt = q.loop_cnt + 1 })
  unfolding trigger_irq
  trigger_irq-Shows s =
      if_pair
        (λ (t : State) (p : Program).
          program_of (counted t) ≡ record p { loop_cnt = p.loop_cnt + 1 })
        (leb irq_interval (since_irq s)) _ s _ (program_of s) refl refl

  end_round-Shows :
      (p : Program) (s : State)
      → Shows p s
      → IfSome
          (Shows (let q = plain_irq core irq_interval p in record q { loop_cnt = q.loop_cnt + 1 }))
          (end_round core irq_interval s)
  unfolding end_round
  end_round-Shows p s h =
      IfSome-bind (Shows p) (Shows _) (report_state (record_trace s))
        (λ reported. some (counted (trigger_irq core irq_interval reported)))
        (report_state-Shows p (record_trace s) (record_trace-Shows p s h))
        (λ t k. rw (← k) (trigger_irq-Shows t))

  run_instruction-Shows :
      (r : Round) (s : State)
      → IfSome
          (Shows (plain_step core irq_interval (program_of s)))
          (run_instruction core irq_interval r s)
  unfolding run_instruction exec_instruction
  run_instruction-Shows r s =
      let p = plain_exec core (program_of s) in
      IfSome-bind (Shows p) (Shows (plain_step core irq_interval (program_of s)))
        (show_if_active r.window_height (exec_instruction core s)) (end_round core irq_interval)
        (show_if_active-Shows p r.window_height (exec_instruction core s) refl)
        (λ t h. end_round-Shows p t h)

  after_run-Gives :
      (p : Program) (m : Option State) → IfSome (Shows p) m → Gives (next_round, p) (after_run m)
  after_run-Gives p none h = tt
  after_run-Gives p (some s) h = ap (λ (q : Program). (next_round, q)) h

  called-Gives :
      (r : Round) (s : State) (p : Program)
      → Shows p s
      → Gives
          (next_round, plain_step core irq_interval p)
          (after_run (run_instruction core irq_interval r s))
  called-Gives r s p h = rw (← h) (
      after_run-Gives (plain_step core irq_interval (program_of s))
        (run_instruction core irq_interval r s) (run_instruction-Shows r s))

  run_decoded-Gives :
      (r : Round) (s : State)
      → Gives (plain_decoded core irq_interval (program_of s)) (run_decoded core irq_interval r s)
  unfolding run_decoded
  run_decoded-Gives r s =
      let called = follow_call (decoded s).1 (disassembled s) in
      rw (← decoded_opcode s) (
        if_pair (λ (m : Option (After × State)) (q : After × Program). Gives q m)
          ((decoded s).1 == magic_opcde) _ _ _ _
          (ap (λ (q : Program). (end_loop, q)) (disassembled-Shows s))
          (called-Gives r called (plain_follow (decoded s).1 (program_of s)) (
            follow_call-Shows (decoded s).1 (disassembled s)
            ∙ ap (plain_follow (decoded s).1) (disassembled-Shows s))))

  polled-Gives :
      (r : Round) (s : State) (p : Program)
      → Shows p s
      → Gives (plain_decoded core irq_interval p) (run_decoded core irq_interval r s)
  polled-Gives r s p h = rw (← h) (run_decoded-Gives r s)

  pub execute-Gives :
      (r : Round) (s : State)
      → NoWindow s
      → Gives (plain_execute core irq_interval r (program_of s)) (execute core irq_interval r s)
  unfolding execute
  execute-Gives r s h =
      IfSome-bind (Shows (plain_polled r (program_of s)))
        (λ (t : After × State).
          (t.0, program_of t.1) ≡ plain_decoded core irq_interval (plain_polled r (program_of s)))
        (poll_tracer r ((polled_in r s).1 ++ r.arrived) (polled_in r s).0)
        (run_decoded core irq_interval r) (polled_in-Shows r s h)
        (λ t k. polled-Gives r t (plain_polled r (program_of s)) k)

at_breakpoint-Shows : (s : State) → program_of (at_breakpoint s) ≡ plain_at (program_of s)
at_breakpoint-Shows s =
    if_pair Same (is_breakpoint s.breakpoints s.cpu.pc) _ s _ (program_of s) refl refl

module _ (core : Core) (files : Text → Option Text) (irq_interval : ℕ)
    (list_file : Option Text) where
  after_debug-Gives :
      (r : Round) (t : After × State)
      → NoWindow t.1
      → Gives
          (plain_after core irq_interval r (t.0, program_of t.1))
          (after_debug core files irq_interval list_file r t)
  after_debug-Gives r (next_round, s) h = refl
  after_debug-Gives r (end_loop, s) h = refl
  after_debug-Gives r (go_on, s) h = execute-Gives core irq_interval r s h

  debugged-Gives :
      (r : Round) (t : After × State) (q : After × Program)
      → NoWindow t.1
      → (t.0, program_of t.1) ≡ q
      → Gives
          (plain_after core irq_interval r q)
          (after_debug core files irq_interval list_file r t)
  debugged-Gives r t q closed h = rw (← h) (after_debug-Gives r t closed)

  -- The body of the loop behind the test for a breakpoint.
  round_at-Gives :
      (r : Round) (s : State) (p : Program)
      → is_named list_file ≡ false
      → NoWindow s
      → Shows p s
      → Gives
          (if p.step_enabled
            then plain_after core irq_interval r (plain_debug p)
            else plain_execute core irq_interval r p)
          (if s.step_enabled
            then debug files list_file r s >>= after_debug core files irq_interval list_file r
            else execute core irq_interval r s)
  round_at-Gives r s p no_file closed h = rw (← h) (
      if_pair (λ (m : Option (After × State)) (q : After × Program). Gives q m) s.step_enabled _ _ _
        _
        (IfSome-bind
          (λ (t : After × State).
            NoWindow t.1 × ((t.0, program_of t.1) ≡ plain_debug (program_of s)))
          (λ (t : After × State).
            (t.0, program_of t.1) ≡ plain_after core irq_interval r (plain_debug (program_of s)))
          (debug files list_file r s) (after_debug core files irq_interval list_file r)
          (IsSome-IfSome (λ (t : After × State). NoWindow t.1)
            (λ (t : After × State). (t.0, program_of t.1) ≡ plain_debug (program_of s))
            (debug files list_file r s) (debug-IsDone files list_file r s no_file closed)
            (debug-Gives files r list_file s))
          (λ t (k, same). debugged-Gives r t (plain_debug (program_of s)) k same))
        (execute-Gives core irq_interval r s closed))

  at_breakpoint-NoWindow : (s : State) → NoWindow s → NoWindow (at_breakpoint s)
  at_breakpoint-NoWindow s h = if_both NoWindow (is_breakpoint s.breakpoints s.cpu.pc) _ s h h

  round-Gives :
      (r : Round) (s : State)
      → is_named list_file ≡ false
      → NoWindow s
      → Gives
          (plain_round core irq_interval r (program_of s))
          (round core files irq_interval list_file r s)
  unfolding round
  round-Gives r s no_file h =
      round_at-Gives r (at_breakpoint s) (plain_at (program_of s)) no_file
        (at_breakpoint-NoWindow s h) (at_breakpoint-Shows s)

  -- A round without a window comes to what the reference comes to.
  pub round-given :
      (r : Round) (s : State) (q : After × Program)
      → is_named list_file ≡ false
      → NoWindow s
      → plain_round core irq_interval r (program_of s) ≡ q
      → (t : After × State) × (round core files irq_interval list_file r s ≡ some t)
        × NoWindow t.1
        × ((t.0, program_of t.1) ≡ q)
  round-given r s q no_file h e =
      let (t, p, k, same) =
        IsSome-both (λ (t : After × State). NoWindow t.1)
          (λ (t : After × State).
            (t.0, program_of t.1) ≡ plain_round core irq_interval r (program_of s))
          (round core files irq_interval list_file r s)
          (round-IsDone core files irq_interval list_file r s no_file h)
          (round-Gives r s no_file h) in
      (t, p, k, same ∙ e)
