-- ===== src/Emulator/Handles/Run.antt =====
-- A whole run frees no handle that is not there.
use ben_eater.Common.{
  ℕ, ◌≡◌, refl, false, ◌||◌, Option, some, List, [], Text, leb, ◌==◌, if_both, if◌then◌else◌, arith,
  inl, inr, Bool-cases,
}
use ben_eater.Common.Chain.{◌>>=◌, IfSome, IfSome-bind, IfSome-then, IfSome-map, IsSome}
use ben_eater.Inspect.{print_cpu_state_to_stream, dump_memory_range}
use ben_eater.Tracer.Scroll.{handle_tracer_events}
use ben_eater.Tracer.Window.Held.{nothing, after_calls}
use ben_eater.Emulator.{Core, SdlEvent, tracer_events, Round, State, logged, printed}
use ben_eater.Emulator.Execute.{
  poll_tracer, drained, jsr_opcode, rts_opcode, since_irq, follow_call, record_trace, report_state,
  exec_instruction, trigger_irq,
}
use ben_eater.Emulator.Handles.{AllMake, IsHeld, cleaned_up-IsHeld}
use ben_eater.Emulator.Handles.Debug.{
  with_tracer-IsHeld, with_trace-IsHeld, show_if_active-IsHeld, debug-IsHeld,
}
use ben_eater.Emulator.Invariant.{state_of, KeptRun, Each, rounds-kept_where}
use ben_eater.Emulator.Loop.{
  rounds, Run, running, ended, finish, finished, shown_end, started, run_emulator_loop,
}
use ben_eater.Emulator.Steps.{Steps, execute-kept}

poll_tracer-IsHeld :
    (r : Round) (events : List SdlEvent) (s : State)
    → IsHeld s
    → IfSome IsHeld (poll_tracer r events s)
unfolding poll_tracer
poll_tracer-IsHeld r events s h =
    IfSome-then IsHeld (handle_tracer_events r.window_height (tracer_events events) s.setup.tracer)
      (λ tracer. some (drained events s tracer)) (λ tracer. with_tracer-IsHeld s tracer h)

follow_call-IsHeld : (opcode : ℕ) (s : State) → IsHeld s → IsHeld (follow_call opcode s)
unfolding follow_call
follow_call-IsHeld opcode s h =
    if_both IsHeld (opcode == jsr_opcode) _ _ h (if_both IsHeld (opcode == rts_opcode) _ s h h)

record_trace-IsHeld : (s : State) → IsHeld s → IsHeld (record_trace s)
unfolding record_trace
record_trace-IsHeld s h = elim (Bool-cases (s.step_enabled || s.setup.trace.scroll_mode)) [
  | inl e ↦ simp e (with_trace-IsHeld s _ h)
  | inr e ↦ simp e h
]

report_state-IsHeld : (s : State) → IsHeld s → IfSome IsHeld (report_state s)
unfolding report_state
report_state-IsHeld s h =
    IfSome-then IsHeld (print_cpu_state_to_stream s.cpu s.monitors s.machine.ram)
      (λ out. some (logged out (if s.step_enabled then printed out s else s)))
      (λ out. if_both (λ t. IsHeld (logged out t)) s.step_enabled (printed out s) s h h)

module _ (core : Core) (irq_interval : ℕ) where
  trigger_irq-IsHeld : (s : State) → IsHeld s → IsHeld (trigger_irq core irq_interval s)
  unfolding trigger_irq
  trigger_irq-IsHeld s h = if_both IsHeld (leb irq_interval (since_irq s)) _ s h h

  IsHeld-steps : Steps core irq_interval Unit IsHeld IsHeld
  unfolding exec_instruction
  IsHeld-steps = record {
    stepping = λ s h. h;
    breaking = λ s h. h;
    prints = λ out s h. h;
    logs = λ out s h. h;
    keyed = λ key s h. h;
    drawn = poll_tracer-IsHeld;
    called = follow_call-IsHeld;
    executed = λ s h. h;
    shown = show_if_active-IsHeld;
    traced = record_trace-IsHeld;
    reported = report_state-IsHeld;
    triggered = λ s h. trigger_irq-IsHeld s h;
  }

finish-IsHeld : (s : State) → IsHeld s → IfSome IsHeld (finish s)
unfolding finish
finish-IsHeld s h =
    IfSome-then IsHeld (dump_memory_range 65537 s.machine.ram 0xBB00 0xCFFF)
      (λ dump. print_cpu_state_to_stream s.cpu s.monitors s.machine.ram >>= λ out.
        some (shown_end dump out s))
      (λ dump.
        IfSome-then IsHeld (print_cpu_state_to_stream s.cpu s.monitors s.machine.ram)
          (λ out. some (shown_end dump out s)) (λ out. cleaned_up-IsHeld s h))

finished-IsHeld : (r : Run) → IsHeld (state_of r) → KeptRun IsHeld (finished r)
finished-IsHeld (running s) h = h
finished-IsHeld (ended s) h =
    IfSome-bind IsHeld (λ r. IsHeld (state_of r)) (finish s) (λ t. some (ended t))
      (finish-IsHeld s h) (λ t k. k)

-- No handle is held, and no call was made.
pub record Unheld (s : State) : Type 0 where
  pub window : s.setup.window ≡ false
  pub renderer : s.setup.renderer ≡ false
  pub font : s.setup.font ≡ false
  pub no_calls : s.sdl_calls ≡ []

Unheld-IsHeld : (s : State) → Unheld s → IsHeld (started s)
Unheld-IsHeld s h = record {
  handles = nothing;
  made = rw h.no_calls refl;
  window = rw h.window (omega arith);
  renderer = rw h.renderer (omega arith);
  font = rw h.font (omega arith);
}

-- What was made and freed is accounted for: nothing was freed that was not there.
abbrev pub FreesOnce : State → Type 0
FreesOnce s = IsSome (λ handles. Unit) (after_calls s.sdl_calls nothing)

IsHeld-FreesOnce : (s : State) → IsHeld s → FreesOnce s
IsHeld-FreesOnce s h = rw h.made tt

pub run_emulator_loop-FreesOnce :
    (core : Core) (files : Text → Option Text) (irq_interval : ℕ) (list_file : Option Text)
    (rs : List Round) (s : State)
    → Each AllMake rs
    → Unheld s
    → KeptRun FreesOnce (run_emulator_loop core files irq_interval list_file rs s)
unfolding run_emulator_loop
run_emulator_loop-FreesOnce core files irq_interval list_file rs s makes h =
    let kept =
      rounds-kept_where Unit IsHeld core files irq_interval list_file AllMake (λ t k. k)
        (λ r t make. debug-IsHeld files r make list_file t)
        (execute-kept core irq_interval Unit IsHeld IsHeld (IsHeld-steps core irq_interval)) rs
        (started s) makes (Unheld-IsHeld s h) in
    IfSome-map (λ r. IsHeld (state_of r)) (λ r. FreesOnce (state_of r))
      (run_emulator_loop core files irq_interval list_file rs s)
      (λ r k. IsHeld-FreesOnce (state_of r) k)
      (IfSome-bind (λ r. IsHeld (state_of r)) (λ r. IsHeld (state_of r))
        (rounds core files irq_interval list_file rs (started s)) finished kept finished-IsHeld)
