-- ===== src/Emulator/Windowless/Run.antt =====
-- Without a window, with no list file and without `u` and `v`, the loop never leaves an array.
use ben_eater.Common.{
  ℕ, ◌≡◌, refl, false, ◌||◌, Option, some, List, Text, leb, ◌==◌, arith, inl, inr, Bool-cases,
}
use ben_eater.Common.Chain.{IsSome, OrElse-bind}
use ben_eater.Inspect.Dump.{dump_memory_range-ends, print_cpu_state_to_stream-tables}
use ben_eater.Tracer.{Tracer}
use ben_eater.Tracer.Scroll.{handle_tracer_events}
use ben_eater.Emulator.{Core, SdlEvent, tracer_events, Round, State}
use ben_eater.Emulator.Commands.{is_named}
use ben_eater.Emulator.Execute.{
  poll_tracer, jsr_opcode, rts_opcode, since_irq, follow_call, record_trace, report_state,
  exec_instruction, trigger_irq,
}
use ben_eater.Emulator.Invariant.{state_of, round-kept, rounds-kept}
use ben_eater.Emulator.Loop.{
  round, rounds, Run, running, ended, finish, finished, started, run_emulator_loop,
}
use ben_eater.Emulator.Steps.{Steps, execute-kept}
use ben_eater.Emulator.Windowless.{NoWindow, IsDone, show_if_active-closed, debug-IsDone}

unseen :
    (window_height : ℕ) (events : List SdlEvent) (t : Tracer)
    → t.is_active ≡ false
    → handle_tracer_events window_height (tracer_events events) t ≡ some t
unfolding handle_tracer_events
unseen window_height events t closed = simp closed refl

-- No tracer takes an event: all stay in the queue.
pub poll_tracer-closed :
    (r : Round) (events : List SdlEvent) (s : State)
    → NoWindow s
    → poll_tracer r events s ≡ some (record s { queue = events })
unfolding poll_tracer
poll_tracer-closed r events s h =
    rw (unseen r.window_height events s.setup.tracer h.0) (rw h.0 refl)

follow_call-closed : (opcode : ℕ) (s : State) → NoWindow s → NoWindow (follow_call opcode s)
unfolding follow_call
follow_call-closed opcode s h = elim (Bool-cases (opcode == jsr_opcode)) [
  | inl e ↦ simp e h
  | inr e ↦ elim (Bool-cases (opcode == rts_opcode)) [
    | inl f ↦ simp (e, f) h
    | inr f ↦ simp (e, f) h
  ]
]

record_trace-closed : (s : State) → NoWindow s → NoWindow (record_trace s)
unfolding record_trace
record_trace-closed s h = elim (Bool-cases (s.step_enabled || s.setup.trace.scroll_mode)) [
  | inl e ↦ simp e h
  | inr e ↦ simp e h
]

report_state-closed : (s : State) → NoWindow s → IsSome NoWindow (report_state s)
unfolding report_state
report_state-closed s h =
    rw (print_cpu_state_to_stream-tables s.cpu s.monitors s.machine.ram)
      (elim (Bool-cases (s.step_enabled)) [ inl e ↦ simp e h | inr e ↦ simp e h ])

module _ (core : Core) (irq_interval : ℕ) where
  trigger_irq-closed : (s : State) → NoWindow s → NoWindow (trigger_irq core irq_interval s)
  unfolding trigger_irq
  trigger_irq-closed s h = elim (Bool-cases (leb irq_interval (since_irq s))) [
    | inl e ↦ simp e h
    | inr e ↦ simp e h
  ]

  closed_steps : Steps core irq_interval ⊥ NoWindow NoWindow
  unfolding exec_instruction
  closed_steps = record {
    stepping = λ s h. h;
    breaking = λ s h. h;
    prints = λ out s h. h;
    logs = λ out s h. h;
    keyed = λ key s h. h;
    drawn = λ r events s h. rw (poll_tracer-closed r events s h) h;
    called = follow_call-closed;
    executed = λ s h. h;
    shown = λ window_height s h. rw (show_if_active-closed window_height s h.0) h;
    traced = record_trace-closed;
    reported = report_state-closed;
    triggered = λ s h. trigger_irq-closed s h;
  }

pub finish-IsSome : (s : State) → IsSome (λ t. Unit) (finish s)
unfolding finish
finish-IsSome s =
    let (dump, p) =
      dump_memory_range-ends s.machine.ram 0xBB00 0xCFFF (omega arith) (omega arith) in
    rw (p, print_cpu_state_to_stream-tables s.cpu s.monitors s.machine.ram) tt

finished-IsSome : (r : Run) → NoWindow (state_of r) → IsSome (λ r'. Unit) (finished r)
finished-IsSome (running s) h = tt
finished-IsSome (ended s) h =
    OrElse-bind ⊥ (λ t. Unit) (λ r'. Unit) (finish s) (λ s'. some (ended s')) (finish-IsSome s)
      (λ s' w. w)

pub round-IsDone :
    (core : Core) (files : Text → Option Text) (irq_interval : ℕ) (list_file : Option Text)
    (r : Round) (s : State)
    → is_named list_file ≡ false
    → NoWindow s
    → IsDone (round core files irq_interval list_file r s)
round-IsDone core files irq_interval list_file r s no_file h =
    round-kept ⊥ NoWindow core files irq_interval list_file (λ r. Unit) (λ s w. w)
      (λ r s g. debug-IsDone files list_file r s no_file)
      (execute-kept core irq_interval ⊥ NoWindow NoWindow (closed_steps core irq_interval)) r s tt h

-- Where no list file is named, no window is open and no line that will be read begins with `u` or
-- `v`, the loop comes to a result behind every number of rounds, the end of the run included: it
-- neither reads nor writes outside an array, whatever the program does, whatever the events are and
-- whatever else is typed.
pub run_emulator_loop-IsSome :
    (core : Core) (files : Text → Option Text) (irq_interval : ℕ) (list_file : Option Text)
    (rs : List Round) (s : State)
    → is_named list_file ≡ false
    → NoWindow s
    → IsSome (λ r. Unit) (run_emulator_loop core files irq_interval list_file rs s)
unfolding run_emulator_loop
run_emulator_loop-IsSome core files irq_interval list_file rs s no_file h =
    OrElse-bind ⊥ (λ r. NoWindow (state_of r)) (λ r. Unit)
      (rounds core files irq_interval list_file rs (started s)) finished
      (rounds-kept ⊥ NoWindow core files irq_interval list_file (λ s w. w)
        (λ r s. debug-IsDone files list_file r s no_file)
        (execute-kept core irq_interval ⊥ NoWindow NoWindow (closed_steps core irq_interval)) rs
        (started s) h)
      finished-IsSome
