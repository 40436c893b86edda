-- ===== src/Emulator/Calls/Run.antt =====
-- The call stack of a run, by the calls and returns that the run has executed.
use ben_eater.Common.{
  ℕ, ◌+◌, ◌≤◌, ◌≡◌, refl, sym, ap, ◌∙◌, true, false, ◌||◌, Option, none, some, List, [], ◌∷◌, ◌++◌,
  Text, if◌then◌else◌, inl, inr, Bool-cases, Option-cases,
}
use ben_eater.Common.Chain.{◌>>=◌, IfSome, IfSome-bind, IfSome-then, IfSome-map}
use ben_eater.Breakpoints.{is_breakpoint}
use ben_eater.CallStack.{CallEvent, track, frames, max_call_stack}
use ben_eater.CallStack.Frames.{
  track-append, open_calls, frames-track, Balanced, SameFrames, track-Balanced,
}
use ben_eater.Inspect.{print_cpu_state_to_stream, dump_memory_range}
use ben_eater.Emulator.{Core, Round, State, After, next_round, go_on, end_loop}
use ben_eater.Emulator.Calls.{executed_calls, Stacked, StackedAfter, execute-Stacked}
use ben_eater.Emulator.Commands.{debug}
use ben_eater.Emulator.Invariant.{state_of, KeptRun}
use ben_eater.Emulator.Loop.{
  at_breakpoint, after_debug, round, rounds, later, Run, running, ended, shown_end, finish,
  finished, started, run_emulator_loop,
}
use ben_eater.Emulator.Paused.{Paused}
use ben_eater.Emulator.Program.{debug-kept}

-- The events of a round whose debugger has come to its end.
abbrev debugged_calls : Round → Option (After × State) → List CallEvent
debugged_calls r none = []
debugged_calls r (some (next_round, s)) = []
debugged_calls r (some (end_loop, s)) = []
debugged_calls r (some (go_on, s)) = executed_calls r s

abbrev later_calls : After → List CallEvent → List CallEvent
later_calls end_loop rest = []
later_calls next_round rest = rest
later_calls go_on rest = rest

at_breakpoint-Stacked : (s : State) → Stacked s s.call_stack (at_breakpoint s)
at_breakpoint-Stacked s = elim (Bool-cases (is_breakpoint s.breakpoints s.cpu.pc)) [
  | inl e ↦ rw e (record { stack = refl; symbols = refl })
  | inr e ↦ rw e (record { stack = refl; symbols = refl })
]

Paused-Stacked : (s t u : State) → Stacked s s.call_stack t → Paused t u → Stacked s s.call_stack u
Paused-Stacked s t u h (memory, (cpu, lcd, total, last, count, loops, broken, stack, symbols)) =
    record { stack = stack ∙ h.stack; symbols = symbols ∙ h.symbols }

-- What the rounds have come to, behind some events.
abbrev TrackedBehind : State → List CallEvent → Run → Type 0
TrackedBehind s events run = (state_of run).call_stack ≡ track s.symbol_list events s.call_stack

joined :
    (events : List CallEvent) (s s' : State) (rest : List CallEvent) (run : Run)
    → Stacked s (track s.symbol_list events s.call_stack) s'
    → TrackedBehind s' rest run
    → TrackedBehind s (events ++ rest) run
joined events s s' rest run h p =
    p ∙ rw (h.stack, h.symbols) (sym (track-append s.symbol_list events rest s.call_stack))

later-Tracked :
    (events : List CallEvent) (after : After) (s s' : State) (rest : List CallEvent)
    (m : Option Run)
    → Stacked s (track s.symbol_list events s.call_stack) s'
    → IfSome (TrackedBehind s' rest) m
    → IfSome (TrackedBehind s (events ++ later_calls after rest)) (later after s' m)
unfolding track
later-Tracked events end_loop s s' rest m h k =
    h.stack ∙ sym (track-append s.symbol_list events [] s.call_stack)
later-Tracked events next_round s s' rest m h k =
    IfSome-map (TrackedBehind s' rest) (TrackedBehind s (events ++ rest)) m
      (λ run p. joined events s s' rest run h p) k
later-Tracked events go_on s s' rest m h k =
    IfSome-map (TrackedBehind s' rest) (TrackedBehind s (events ++ rest)) m
      (λ run p. joined events s s' rest run h p) k

module _ (core : Core) (files : Text → Option Text) (irq_interval : ℕ)
    (list_file : Option Text) where
  -- The events of a round.
  abbrev round_calls : Round → State → List CallEvent
  round_calls r s =
      if (at_breakpoint s).step_enabled
      then debugged_calls r (debug files list_file r (at_breakpoint s))
      else executed_calls r (at_breakpoint s)

  -- The calls and returns that the rounds execute, in their order.
  unfoldable pub run_calls : List Round → State → List CallEvent
  run_calls [] s = []
  run_calls (r ∷ rs) s = elim (s.break_loop || r.quit_flag) [
    | true ↦ []
    | false ↦ elim (round core files irq_interval list_file r s) [
      | none ↦ []
      | some (after, s') ↦ round_calls r s ++ later_calls after (run_calls rs s')
    ]
  ]

  debugged-Stacked :
      (r : Round) (s : State) (m : Option (After × State))
      → IfSome (λ (t : After × State). Stacked s s.call_stack t.1) m
      → StackedAfter s
          (track s.symbol_list (debugged_calls r m) s.call_stack)
          (m >>= after_debug core files irq_interval list_file r)
  unfolding track
  debugged-Stacked r s none h = tt
  debugged-Stacked r s (some (next_round, t)) h = h
  debugged-Stacked r s (some (end_loop, t)) h = h
  debugged-Stacked r s (some (go_on, t)) h = execute-Stacked core irq_interval s r t h

  debug-Stacked :
      (r : Round) (s t : State)
      → Stacked s s.call_stack t
      → IfSome (λ (u : After × State). Stacked s s.call_stack u.1) (debug files list_file r t)
  debug-Stacked r s = debug-kept (Stacked s s.call_stack) files list_file (Paused-Stacked s) r

  round-Stacked :
      (r : Round) (s : State)
      → StackedAfter s
          (track s.symbol_list (round_calls r s) s.call_stack)
          (round core files irq_interval list_file r s)
  unfolding round
  round-Stacked r s = elim (Bool-cases ((at_breakpoint s).step_enabled)) [
    | inl e ↦ simp e (
        debugged-Stacked r s (debug files list_file r (at_breakpoint s))
          (debug-Stacked r s (at_breakpoint s) (at_breakpoint-Stacked s)))
    | inr e ↦
        simp e (execute-Stacked core irq_interval s r (at_breakpoint s) (at_breakpoint-Stacked s))
  ]

  rounds-Tracked :
      (rs : List Round) (s : State)
      → IfSome (TrackedBehind s (run_calls rs s)) (rounds core files irq_interval list_file rs s)
  unfolding rounds run_calls track
  rounds-Tracked [] s = refl
  rounds-Tracked (r ∷ rs) s = elim (Bool-cases (s.break_loop || r.quit_flag)) [
    | inl e ↦ rw (e, rounds) (rw (e, run_calls) refl)
    | inr e ↦ elim (Option-cases (round core files irq_interval list_file r s)) [
      | inl p ↦ rw (e, rounds) (rw p tt)
      | inr ((after, s'), p) ↦
          let stacked : Stacked s (track s.symbol_list (round_calls r s) s.call_stack) s' =
            rw p at (round-Stacked r s) in
          rw (e, rounds)
            (rw p (
              rw (e, run_calls)
                (rw p (
                  later-Tracked (round_calls r s) after s s' (run_calls rs s')
                    (rounds core files irq_interval list_file rs s') stacked
                    (rounds-Tracked rs s')))))
    ]
  ]

finish-calls : (s : State) → IfSome (λ (t : State). t.call_stack ≡ s.call_stack) (finish s)
unfolding finish
finish-calls s =
    IfSome-then (λ (t : State). t.call_stack ≡ s.call_stack)
      (dump_memory_range 65537 s.machine.ram 0xBB00 0xCFFF)
      (λ dump. print_cpu_state_to_stream s.cpu s.monitors s.machine.ram >>= λ out.
        some (shown_end dump out s))
      (λ dump.
        IfSome-then (λ (t : State). t.call_stack ≡ s.call_stack)
          (print_cpu_state_to_stream s.cpu s.monitors s.machine.ram)
          (λ out. some (shown_end dump out s)) (λ out. refl))

finished-calls :
    (r : Run) → IfSome (λ t. (state_of t).call_stack ≡ (state_of r).call_stack) (finished r)
finished-calls (running s) = refl
finished-calls (ended s) =
    IfSome-bind (λ (t : State). t.call_stack ≡ s.call_stack)
      (λ t. (state_of t).call_stack ≡ s.call_stack) (finish s) (λ t. some (ended t))
      (finish-calls s) (λ t h. h)

module _ (core : Core) (files : Text → Option Text) (irq_interval : ℕ) (list_file : Option Text)
    (rs : List Round) (s : State) where
  abbrev pub calls_of_run : List CallEvent
  calls_of_run = run_calls core files irq_interval list_file rs (started s)

  run_emulator_loop-track :
      KeptRun
        (λ t. t.call_stack ≡ track s.symbol_list calls_of_run s.call_stack)
        (run_emulator_loop core files irq_interval list_file rs s)
  unfolding run_emulator_loop
  run_emulator_loop-track =
      IfSome-bind (TrackedBehind (started s) calls_of_run) (TrackedBehind (started s) calls_of_run)
        (rounds core files irq_interval list_file rs (started s)) finished
        (rounds-Tracked core files irq_interval list_file rs (started s))
        (λ r h.
          IfSome-map (λ t. (state_of t).call_stack ≡ (state_of r).call_stack)
            (TrackedBehind (started s) calls_of_run) (finished r) (λ t p. p ∙ h) (finished-calls r))

  -- The call stack refines a list of open calls: behind every number of rounds and at the end of a
  -- run, the frames in use are those that the JSR and RTS instructions of the run leave of a list, in
  -- their order, where a JSR adds its own address with the label of that address if fewer than 50 are
  -- open, and an RTS takes the last one away: whatever else the program does, whatever comes from the
  -- keyboard, and whatever is typed in the debugger, wherever the run stays within the arrays of the
  -- program.
  pub run_emulator_loop-frames :
      KeptRun
        (λ t. frames t.call_stack ≡ open_calls s.symbol_list calls_of_run (frames s.call_stack))
        (run_emulator_loop core files irq_interval list_file rs s)
  run_emulator_loop-frames =
      IfSome-map (λ r. (state_of r).call_stack ≡ track s.symbol_list calls_of_run s.call_stack)
        (λ r.
          frames (state_of r).call_stack
          ≡ open_calls s.symbol_list calls_of_run (frames s.call_stack))
        (run_emulator_loop core files irq_interval list_file rs s)
        (λ r p. ap frames p ∙ frames-track s.symbol_list calls_of_run s.call_stack)
        run_emulator_loop-track

  -- Where every call that the run executes returns, and no more calls are open at once than the array
  -- has room for, the frames that `t` prints are behind the run what they were before it, wherever
  -- the run stays within the arrays of the program.
  pub run_emulator_loop-Balanced :
      (h : ℕ)
      → Balanced h calls_of_run
      → s.call_stack.call_stack_depth + h ≤ max_call_stack
      → KeptRun
          (λ t. SameFrames t.call_stack s.call_stack)
          (run_emulator_loop core files irq_interval list_file rs s)
  run_emulator_loop-Balanced h balanced room =
      IfSome-map (λ r. (state_of r).call_stack ≡ track s.symbol_list calls_of_run s.call_stack)
        (λ r. SameFrames (state_of r).call_stack s.call_stack)
        (run_emulator_loop core files irq_interval list_file rs s)
        (λ r p. rw p (track-Balanced s.symbol_list s.call_stack balanced room))
        run_emulator_loop-track
